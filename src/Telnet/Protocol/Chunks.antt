-- ===== src/Telnet/Protocol/Chunks.antt =====
-- How the bytes are cut into packets does not matter.
use mathlib.Core.List.{flatten}
use device_cli_tool.Base.{
  ℕ, zero, suc, ◌+◌, ◌≤◌, ◌≡◌, refl, sym, ◌∙◌, some, List, [], ◌∷◌, ◌++◌, arith, length,
  length-append, append_assoc, append-nil, ◌⊎◌, inl, inr,
}
use device_cli_tool.Telnet.Protocol.{
  Bytes, Round, stop, next, Consumed, find_subnegotiation_end, round, consume_loop,
  consume_telnet_bytes, consume_protocol, receive_all,
}

find-append :
    (d e r : Bytes)
    → find_subnegotiation_end d ≡ some r
    → find_subnegotiation_end (d ++ e) ≡ some (r ++ e)
unfolding find_subnegotiation_end
find-append [] e r h = cc
find-append (a ∷ []) e r h = cc
find-append (a ∷ b ∷ d) e r h = ground (arith, find-append (b ∷ d) e r)

length-find : (d r : Bytes) → find_subnegotiation_end d ≡ some r → length r + 2 ≤ length d
unfolding find_subnegotiation_end
length-find [] r h = cc
length-find (a ∷ []) r h = cc
length-find (a ∷ b ∷ d) r h = ground (arith, length-find (b ∷ d) r)

round-append :
    (d e v r rest : Bytes) → round d ≡ next v r rest → round (d ++ e) ≡ next v r (rest ++ e)
unfolding round
round-append [] e v r rest h = cc
round-append (x ∷ []) [] v r rest h = ground arith
round-append (x ∷ []) (y ∷ e) v r rest h = ground arith
round-append (x ∷ c ∷ []) e v r rest h = ground (arith, find-append [] e rest)
round-append (x ∷ c ∷ o ∷ d) e v r rest h = ground (arith, find-append (o ∷ d) e rest)

length-round : (d v r rest : Bytes) → round d ≡ next v r rest → length rest + 1 ≤ length d
unfolding round
length-round [] v r rest h = cc
length-round (x ∷ []) v r rest h = ground arith
length-round (x ∷ c ∷ []) v r rest h = ground (arith, length-find [] rest)
length-round (x ∷ c ∷ o ∷ d) v r rest h = ground (arith, length-find (o ∷ d) rest)

round-nil : round [] ≡ stop
unfolding round
round-nil = refl

pub Round-cases : (t : Round) → (t ≡ stop) ⊎ ((v r rest : Bytes) × (t ≡ next v r rest))
Round-cases stop = inl refl
Round-cases (next v r rest) = inr (v, r, rest, refl)

pub consume_loop-stop : (f : ℕ) (d v r : Bytes) → round d ≡ stop → consume_loop f d v r ≡ (v, r, d)
unfolding consume_loop
consume_loop-stop zero d v r h = refl
consume_loop-stop (suc f) d v r h = rw (h, consume_loop)

pub consume_loop-next :
    (f : ℕ) (d v r v' r' rest : Bytes)
    → round d ≡ next v' r' rest
    → consume_loop (suc f) d v r ≡ consume_loop f rest (v ++ v') (r ++ r')
unfolding consume_loop
consume_loop-next f d v r v' r' rest h = rw (h, consume_loop)

-- Any fuel that the bytes do not exceed gives the same result.
consume_loop-fuel :
    (f g : ℕ) (d v r : Bytes)
    → length d ≤ f
    → length d ≤ g
    → consume_loop f d v r ≡ consume_loop g d v r
consume_loop-fuel zero g [] v r hf hg =
    consume_loop-stop zero [] v r round-nil ∙ sym (consume_loop-stop g [] v r round-nil)
consume_loop-fuel zero g (x ∷ d) v r hf hg = absurd (omega arith)
consume_loop-fuel (suc f) zero [] v r hf hg =
    consume_loop-stop (suc f) [] v r round-nil ∙ sym (consume_loop-stop zero [] v r round-nil)
consume_loop-fuel (suc f) zero (x ∷ d) v r hf hg = absurd (omega arith)
consume_loop-fuel (suc f) (suc g) d v r hf hg = elim (Round-cases (round d)) [
  | inl h ↦ consume_loop-stop (suc f) d v r h ∙ sym (consume_loop-stop (suc g) d v r h)
  | inr (v', r', rest, h) ↦
      consume_loop-next f d v r v' r' rest h
      ∙ consume_loop-fuel f g rest (v ++ v') (r ++ r') (omega (arith, length-round d v' r' rest h))
          (omega (arith, length-round d v' r' rest h))
      ∙ sym (consume_loop-next g d v r v' r' rest h)
]

length-consume_loop : (f : ℕ) (d v r : Bytes) → length (consume_loop f d v r).2 ≤ length d
length-consume_loop zero d v r = unfold consume_loop in omega arith
length-consume_loop (suc f) d v r = elim (Round-cases (round d)) [
  | inl h ↦ rw (consume_loop-stop (suc f) d v r h) (omega arith)
  | inr (v', r', rest, h) ↦
      rw (consume_loop-next f d v r v' r' rest h)
        (omega (arith, length-round d v' r' rest h, length-consume_loop f rest (v ++ v') (r ++ r')))
]

-- Bytes that arrive later are as good as bytes that were there.
consume_loop-append :
    (f : ℕ) (d e v r : Bytes)
    → length (d ++ e) ≤ f
    → consume_loop f (d ++ e) v r
      ≡ consume_loop f
          ((consume_loop f d v r).2 ++ e)
          (consume_loop f d v r).0
          (consume_loop f d v r).1
consume_loop-append zero d e v r h = unfold consume_loop in refl
consume_loop-append (suc f) d e v r h = elim (Round-cases (round d)) [
  | inl s ↦ rw (consume_loop-stop (suc f) d v r s)
  | inr (v', r', rest, n) ↦
      let v2 = v ++ v' in
      let r2 = r ++ r' in
      let shorter = length-round d v' r' rest n in
      let rests = length-append {0} rest e in
      let totals = length-append {0} d e in
      let left = (consume_loop f rest v2 r2).2 in
      rw (consume_loop-next f d v r v' r' rest n) (
        consume_loop-next f (d ++ e) v r v' r' (rest ++ e) (round-append d e v' r' rest n)
        ∙ consume_loop-append f rest e v2 r2 (omega arith)
        ∙ consume_loop-fuel f (suc f) (left ++ e) _ _
            (omega (arith, length-append {0} left e, length-consume_loop f rest v2 r2))
            (omega (arith, length-append {0} left e, length-consume_loop f rest v2 r2)))
]

round-consume_loop : (f : ℕ) (d v r : Bytes) → length d ≤ f → round (consume_loop f d v r).2 ≡ stop
round-consume_loop zero [] v r h = unfold consume_loop in round-nil
round-consume_loop zero (x ∷ d) v r h = absurd (omega arith)
round-consume_loop (suc f) d v r h = elim (Round-cases (round d)) [
  | inl s ↦ rw (consume_loop-stop (suc f) d v r s) s
  | inr (v', r', rest, n) ↦
      rw (consume_loop-next f d v r v' r' rest n)
        (round-consume_loop f rest (v ++ v') (r ++ r') (omega (arith, length-round d v' r' rest n)))
]

-- What was gathered before is kept in front.
abbrev pub after : Bytes → Bytes → Consumed → Consumed
after v r c = (v ++ c.0, r ++ c.1, c.2)

consume_loop-after :
    (f : ℕ) (d v r : Bytes) → consume_loop f d v r ≡ after v r (consume_loop f d [] [])
consume_loop-after zero d v r = unfold consume_loop in simp append-nil
consume_loop-after (suc f) d v r = elim (Round-cases (round d)) [
  | inl s ↦
      rw (consume_loop-stop (suc f) d v r s, consume_loop-stop (suc f) d [] [] s) (simp append-nil)
  | inr (v', r', rest, n) ↦
      rw (consume_loop-next f d v r v' r' rest n, consume_loop-next f d [] [] v' r' rest n)
        (simp (
          consume_loop-after f rest (v ++ v') (r ++ r'),
          consume_loop-after f rest v' r',
          append_assoc,
        ))
]

pub consume-loop :
    (f : ℕ) (d : Bytes) → length d ≤ f → consume_telnet_bytes d ≡ consume_loop f d [] []
unfolding consume_telnet_bytes
consume-loop f d h = consume_loop-fuel (length d) f d [] [] (omega arith) h

-- Consuming on from what the first part left over.
pub consume-append :
    (d e : Bytes)
    → consume_telnet_bytes (d ++ e)
      ≡ after
          (consume_telnet_bytes d).0
          (consume_telnet_bytes d).1
          (consume_telnet_bytes ((consume_telnet_bytes d).2 ++ e))
consume-append d e =
    let f = length (d ++ e) in
    let c = consume_loop f d [] [] in
    let total = length-append {0} d e in
    rw
      (
        consume-loop f (d ++ e) (omega arith),
        consume-loop f d (omega arith),
        consume-loop f (c.2 ++ e)
            (omega (arith, length-append {0} c.2 e, length-consume_loop f d [] [])),
      )
      (consume_loop-append f d e [] [] (omega arith) ∙ consume_loop-after f (c.2 ++ e) c.0 c.1)

pub consume-remaining :
    (d : Bytes)
    → consume_telnet_bytes (consume_telnet_bytes d).2 ≡ ([], [], (consume_telnet_bytes d).2)
consume-remaining d =
    let f = length d in
    let c = consume_loop f d [] [] in
    rw (consume-loop f d (omega arith), consume-loop (length c.2) c.2 (omega arith))
      (consume_loop-stop (length c.2) c.2 [] [] (round-consume_loop f d [] [] (omega arith)))

receive_all-from :
    (buffer : Bytes) (chunks : List Bytes)
    → consume_telnet_bytes buffer ≡ ([], [], buffer)
    → receive_all buffer chunks ≡ consume_telnet_bytes (buffer ++ flatten chunks)
unfolding receive_all consume_protocol flatten
receive_all-from buffer [] s = rw append-nil (sym s)
receive_all-from buffer (chunk ∷ chunks) s = rw (← append_assoc) (
    rw (consume-append (buffer ++ chunk) (flatten chunks)) (
      rw (
        receive_all-from (consume_telnet_bytes (buffer ++ chunk)).2 chunks
          (consume-remaining (buffer ++ chunk)))))

pub consume-nil : consume_telnet_bytes [] ≡ ([], [], [])
unfolding consume_telnet_bytes
consume-nil = refl

-- However the bytes that a server sends are cut into packets, all that becomes visible, all that
-- is sent back, and what stays in the buffer are those of one call on the whole.
pub receive_all-flatten :
    (chunks : List Bytes) → receive_all [] chunks ≡ consume_telnet_bytes (flatten chunks)
receive_all-flatten chunks = receive_all-from [] chunks consume-nil

-- One round of the loop, then the rest.
pub consume-round :
    (d v r rest : Bytes)
    → round d ≡ next v r rest
    → consume_telnet_bytes d ≡ after v r (consume_telnet_bytes rest)
consume-round d v r rest h =
    let f = length d in
    let shorter = length-round d v r rest h in
    rw (consume-loop (suc f) d (omega arith), consume-loop f rest (omega arith))
      (consume_loop-next f d [] [] v r rest h ∙ consume_loop-after f rest v r)
