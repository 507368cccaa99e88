-- ===== src/Telnet/Protocol.antt =====
-- `consume_telnet_bytes`, `_find_subnegotiation_end` and `TelnetCliSession._consume_protocol` of
-- cli_tool/transport/telnet.py. A byte is a number, and `data[index:]` is a list, so that the loop
-- is a recursion on fuel over the bytes that are left.
pub mod Chunks
pub mod Streams
pub mod Refusals
use device_cli_tool.Base.{
  ℕ, zero, suc, Bool, Option, none, some, List, [], ◌∷◌, ◌++◌, ◌||◌, ◌&&◌, ◌==◌, if◌then◌else◌,
  length,
}

abbrev pub Bytes : Type 0
Bytes = List ℕ

abbrev pub iac : ℕ
iac = 255

abbrev pub dont : ℕ
dont = 254

abbrev pub do_it : ℕ
do_it = 253

abbrev pub wont : ℕ
wont = 252

abbrev pub will : ℕ
will = 251

abbrev pub sb : ℕ
sb = 250

abbrev pub se : ℕ
se = 240

-- The bytes from `start` on; the result is what stands behind the end mark.
pub find_subnegotiation_end : Bytes → Option Bytes
find_subnegotiation_end (a ∷ b ∷ data') =
    if a == iac && b == se then some data' else find_subnegotiation_end (b ∷ data')
find_subnegotiation_end _ = none

-- One round of the loop: `break`, or the visible bytes and the responses that it adds, and
-- `data[index:]` for the next round.
pub data Round : Type 0 where
  stop : Round
  next : Bytes → Bytes → Bytes → Round

-- The answer to DO and to WILL; DONT and WONT have none.
abbrev pub refuse : ℕ → ℕ → Bytes
refuse command option =
    if command == do_it
    then iac ∷ wont ∷ option ∷ []
    else if command == will
    then iac ∷ dont ∷ option ∷ []
    else []

abbrev negotiate : ℕ → Bytes → Round
negotiate command [] = stop
negotiate command (option ∷ rest) = next [] (refuse command option) rest

abbrev skip_to : Option Bytes → Round
skip_to none = stop
skip_to (some rest) = next [] [] rest

abbrev pub is_negotiation : ℕ → Bool
is_negotiation command = command == do_it || command == dont || command == will || command == wont

abbrev escape : ℕ → Bytes → Round
escape command rest =
    if command == iac
    then next (iac ∷ []) [] rest
    else if is_negotiation command
    then negotiate command rest
    else if command == sb
    then skip_to (find_subnegotiation_end rest)
    else next [] [] rest

pub round : Bytes → Round
round [] = stop
round (byte ∷ []) = if byte == iac then stop else next (byte ∷ []) [] []
round (byte ∷ command ∷ rest) =
    if byte == iac then escape command rest else next (byte ∷ []) [] (command ∷ rest)

abbrev pub Consumed : Type 0
Consumed = Bytes × Bytes × Bytes

pub consume_loop : ℕ → Bytes → Bytes → Bytes → Consumed
consume_loop zero bytes visible responses = (visible, responses, bytes)
consume_loop (suc fuel) bytes visible responses = elim (round bytes) [
  | stop ↦ (visible, responses, bytes)
  | next v r rest ↦ consume_loop fuel rest (visible ++ v) (responses ++ r)
]

-- Each round takes at least one byte, so that the number of bytes is fuel enough.
unfoldable pub consume_telnet_bytes : Bytes → Consumed
unfolding consume_loop round find_subnegotiation_end
consume_telnet_bytes bytes = consume_loop (length bytes) bytes [] []

-- `_protocol_buffer` is the state.
unfoldable pub consume_protocol : Bytes → Bytes → (Bytes × Bytes) × Bytes
consume_protocol buffer bytes =
    let (visible, responses, remaining) = consume_telnet_bytes (buffer ++ bytes) in
    ((visible, responses), remaining)

-- The calls of `_consume_protocol` for what successive `recv` calls return, with all that became
-- visible, all that was sent back, and the buffer at the end.
pub receive_all : Bytes → List Bytes → Consumed
receive_all buffer [] = ([], [], buffer)
receive_all buffer (chunk ∷ chunks) =
    let ((visible, responses), buffer') = consume_protocol buffer chunk in
    let (visible', responses', last) = receive_all buffer' chunks in
    (visible ++ visible', responses ++ responses', last)
