-- ===== src/Telnet/Protocol/Streams.antt =====
-- What a TELNET stream is made of (RFC 854), how it is written down, and what the client makes of it.
use device_cli_tool.Base.{
  ℕ, ◌+◌, ◌≤◌, ◌≡◌, ◌≢◌, refl, ◌∙◌, some, List, [], ◌∷◌, ◌++◌, arith, All, append_assoc, append-nil,
}
use device_cli_tool.Telnet.Protocol.{
  Bytes, next, iac, will, sb, se, find_subnegotiation_end, round, consume_telnet_bytes,
}
use device_cli_tool.Telnet.Protocol.Chunks.{after, consume-nil, consume-round}

pub data Item : Type 0 where
  shown : ℕ → Item
  escaped_iac : Item
  asks_do asks_will says_dont says_wont : ℕ → Item
  subnegotiation : Bytes → Item
  command : ℕ → Item

abbrev pub Plain : ℕ → Type 0
Plain b = b ≢ iac

abbrev pub IsValid : Item → Type 0
IsValid (shown b) = Plain b
IsValid escaped_iac = Unit
IsValid (subnegotiation payload) = All Plain payload
IsValid (command c) = (c ≢ sb) × (c + 1 ≤ will)
IsValid _ = Unit

abbrev pub item_bytes : Item → Bytes
item_bytes (shown b) = b ∷ []
item_bytes escaped_iac = iac ∷ iac ∷ []
item_bytes (asks_do o) = 255 ∷ 253 ∷ o ∷ []
item_bytes (asks_will o) = 255 ∷ 251 ∷ o ∷ []
item_bytes (says_dont o) = 255 ∷ 254 ∷ o ∷ []
item_bytes (says_wont o) = 255 ∷ 252 ∷ o ∷ []
item_bytes (subnegotiation payload) = iac ∷ sb ∷ (payload ++ (iac ∷ se ∷ []))
item_bytes (command c) = iac ∷ c ∷ []

abbrev pub item_text : Item → Bytes
item_text (shown b) = b ∷ []
item_text escaped_iac = iac ∷ []
item_text _ = []

-- DO (253) is answered by WONT (252) and WILL (251) by DONT (254), of the same option; nothing else is
-- answered.
abbrev pub item_answer : Item → Bytes
item_answer (asks_do o) = 255 ∷ 252 ∷ o ∷ []
item_answer (asks_will o) = 255 ∷ 254 ∷ o ∷ []
item_answer _ = []

abbrev pub stream_bytes : List Item → Bytes
stream_bytes [] = []
stream_bytes (i ∷ items) = item_bytes i ++ stream_bytes items

abbrev pub stream_text : List Item → Bytes
stream_text [] = []
stream_text (i ∷ items) = item_text i ++ stream_text items

abbrev pub stream_answers : List Item → Bytes
stream_answers [] = []
stream_answers (i ∷ items) = item_answer i ++ stream_answers items

find-Plain :
    (payload rest : Bytes)
    → All Plain payload
    → find_subnegotiation_end (payload ++ (iac ∷ se ∷ rest)) ≡ some rest
unfolding find_subnegotiation_end
find-Plain [] rest h = refl
find-Plain (a ∷ []) rest (ha, h) = ground arith
find-Plain (a ∷ b ∷ payload) rest (ha, h) = ground (arith, find-Plain (b ∷ payload) rest h)

round-item :
    (i : Item) (rest : Bytes)
    → IsValid i
    → round (item_bytes i ++ rest) ≡ next (item_text i) (item_answer i) rest
unfolding round
round-item (shown b) [] h = ground arith
round-item (shown b) (c ∷ rest) h = ground arith
round-item escaped_iac rest h = refl
round-item (asks_do o) rest h = refl
round-item (asks_will o) rest h = refl
round-item (says_dont o) rest h = refl
round-item (says_wont o) rest h = refl
round-item (subnegotiation payload) rest h =
    ground (arith, find-Plain payload rest h, append_assoc payload (iac ∷ se ∷ []) rest)
round-item (command c) rest (h, lo) = ground arith

-- Of a well-formed stream, followed by any bytes, exactly the text items become visible, each DO of an
-- option is answered once by WONT and each WILL by DONT of that option, in order, nothing else is
-- sent, and the bytes that follow are treated as if they stood alone.
pub consume-stream :
    (items : List Item) (rest : Bytes)
    → All IsValid items
    → consume_telnet_bytes (stream_bytes items ++ rest)
      ≡ after (stream_text items) (stream_answers items) (consume_telnet_bytes rest)
consume-stream [] rest h = refl
consume-stream (i ∷ items) rest (hi, h) =
    rw (append_assoc (item_bytes i) (stream_bytes items) rest) (
      consume-round _ (item_text i) (item_answer i) (stream_bytes items ++ rest)
        (round-item i (stream_bytes items ++ rest) hi)
      ∙ rw (consume-stream items rest h) (simp append_assoc))

consume-Plain :
    (q rest : Bytes)
    → All Plain q
    → consume_telnet_bytes (q ++ rest) ≡ after q [] (consume_telnet_bytes rest)
consume-Plain [] rest h = refl
consume-Plain (b ∷ q) rest (hb, h) =
    consume-round _ (b ∷ []) [] (q ++ rest) (round-item (shown b) (q ++ rest) hb)
    ∙ rw (consume-Plain q rest h)

find-escaped_end :
    (payload rest : Bytes)
    → All Plain payload
    → find_subnegotiation_end (payload ++ (iac ∷ iac ∷ se ∷ rest)) ≡ some rest
unfolding find_subnegotiation_end
find-escaped_end [] rest h = refl
find-escaped_end (a ∷ []) rest (ha, h) = ground arith
find-escaped_end (a ∷ b ∷ payload) rest (ha, h) =
    ground (arith, find-escaped_end (b ∷ payload) rest h)

-- In a subnegotiation a data byte 255 is written as IAC IAC (RFC 855). If a data byte 240 follows
-- it, the client takes the two bytes IAC SE that result for the end mark: the data that follow
-- become visible as if they were output of the device.
pub consume-escaped_end :
    (p q : Bytes)
    → All Plain p
    → All Plain q
    → consume_telnet_bytes (iac ∷ sb ∷ (p ++ (iac ∷ iac ∷ se ∷ (q ++ (iac ∷ se ∷ [])))))
      ≡ (q, [], [])
unfolding round
consume-escaped_end p q hp hq =
    let shown_rest = q ++ (iac ∷ se ∷ []) in
    consume-round _ [] [] shown_rest (ground (arith, find-escaped_end p shown_rest hp))
    ∙ rw (consume-Plain q (iac ∷ se ∷ []) hq)
        (rw (consume-round (iac ∷ se ∷ []) [] [] [] refl) (rw consume-nil (simp append-nil)))
