-- ===== src/Telnet/Protocol/Refusals.antt =====
-- The client never agrees to an option, whatever the server sends.
use device_cli_tool.Base.{ℕ, suc, zero, ◌≡◌, ◌⊎◌, inl, inr, refl, [], ◌∷◌, ◌++◌, arith, length}
use device_cli_tool.Telnet.Protocol.{
  Bytes, next, iac, dont, wont, round, consume_loop, consume_telnet_bytes,
}
use device_cli_tool.Telnet.Protocol.Chunks.{
  consume-loop, consume_loop-stop, consume_loop-next, Round-cases,
}

-- Three bytes each: IAC, WONT or DONT, and an option.
abbrev pub Refusals : Bytes → Type 0
Refusals [] = Unit
Refusals (a ∷ b ∷ o ∷ r) = (a ≡ iac) × ((b ≡ wont) ⊎ (b ≡ dont)) × Refusals r
Refusals _ = ⊥

Refusals-append : (r s : Bytes) → Refusals r → Refusals s → Refusals (r ++ s)
Refusals-append [] s hr hs = hs
Refusals-append (a ∷ []) s hr hs = absurd hr
Refusals-append (a ∷ b ∷ []) s hr hs = absurd hr
Refusals-append (a ∷ b ∷ o ∷ r) s (ha, hb, hr) hs = (ha, hb, Refusals-append r s hr hs)

Refusals-answer :
    (r : Bytes) (o : ℕ)
    → (r ≡ []) ⊎ (r ≡ iac ∷ wont ∷ o ∷ []) ⊎ (r ≡ iac ∷ dont ∷ o ∷ [])
    → Refusals r
Refusals-answer r o (inl e) = rw e tt
Refusals-answer r o (inr (inl e)) = rw e (refl, inl refl, tt)
Refusals-answer r o (inr (inr e)) = rw e (refl, inr refl, tt)

round-Refusals : (d v r rest : Bytes) → round d ≡ next v r rest → Refusals r
unfolding round
round-Refusals [] v r rest h = cc
round-Refusals (x ∷ []) v r rest h = Refusals-answer r 0 (ground arith)
round-Refusals (x ∷ c ∷ []) v r rest h = Refusals-answer r 0 (ground arith)
round-Refusals (x ∷ c ∷ o ∷ d) v r rest h = Refusals-answer r o (ground arith)

consume_loop-Refusals : (f : ℕ) (d v r : Bytes) → Refusals r → Refusals (consume_loop f d v r).1
consume_loop-Refusals zero d v r h = unfold consume_loop in h
consume_loop-Refusals (suc f) d v r h = elim (Round-cases (round d)) [
  | inl s ↦ rw (consume_loop-stop (suc f) d v r s) h
  | inr (v', r', rest, n) ↦ rw (consume_loop-next f d v r v' r' rest n) (
      consume_loop-Refusals f rest (v ++ v') (r ++ r')
        (Refusals-append r r' h (round-Refusals d v' r' rest n)))
]

-- Whatever bytes come in, complete or not, all that is sent back is a sequence of refusals.
pub consume-Refusals : (d : Bytes) → Refusals (consume_telnet_bytes d).1
consume-Refusals d =
    rw (consume-loop (length d) d (omega arith)) (consume_loop-Refusals (length d) d [] [] tt)
