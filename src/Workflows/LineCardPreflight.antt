-- ===== src/Workflows/LineCardPreflight.antt =====
-- cli_tool/workflows/line_card_preflight.py
use device_cli_tool.Base.{
  ◌↔◌, refl, is_empty, ℕ, Bool, true, false, not, ◌≡◌, arith, List, [], ◌∷◌, if◌then◌else◌, Result,
  ok, err, runtime_error, Bool-cases, inl, inr,
}
use device_cli_tool.Base.Exec.{Exec, continue, lift, ◌>>=◌}
use device_cli_tool.Text.{Str}
use device_cli_tool.Parsers.LineCardStatus.{LineCardRecord, parse_line_card_status}
use device_cli_tool.Workflows.Verify.{
  CliCommandVerification, CliVerifyResult, passed, Transport, Driver, run_driver_verify,
}

module _ (other_word : ℕ → Bool) where
  -- `output_by_command` has one entry for each verification, since their commands differ.
  unfoldable pub only_output : CliVerifyResult → Result (List LineCardRecord)
  only_output (v ∷ []) = parse_line_card_status other_word v.output
  only_output _ = err (runtime_error "line-card preflight requires exactly one CLI command output")

  unfoldable pub check_result : CliVerifyResult → Result (List LineCardRecord)
  check_result result =
      if not (passed result)
      then err (runtime_error "line-card preflight verification failed")
      else only_output result

  unfoldable pub run_line_card_preflight :
      (T : Transport) → Driver → Exec T.State (List LineCardRecord)
  run_line_card_preflight T driver = do
    result ← run_driver_verify T driver false
    lift (check_result result)

  -- The driver's commands gave one verification, which misses no token and has no error, and the cards are
  -- what is read from its output.
  pub record IsVerified (result : Result CliVerifyResult) (cards : List LineCardRecord)
      : Type 0 where
    pub verification : CliCommandVerification
    pub only : result ≡ ok (verification ∷ [])
    pub none_missing : verification.missing_tokens ≡ []
    pub no_errors : verification.validation_errors ≡ []
    pub parsed : parse_line_card_status other_word verification.output ≡ ok cards

  is_empty→eq : (l : List Str) → is_empty l ≡ true → l ≡ []
  is_empty→eq [] h = refl
  is_empty→eq (x ∷ l) h = absurd cc

  passed-IsVerified :
      (v : CliCommandVerification) (cards : List LineCardRecord)
      → passed (v ∷ []) ≡ true
      → parse_line_card_status other_word v.output ≡ ok cards
      → IsVerified (ok (v ∷ [])) cards
  passed-IsVerified v cards p h = record {
    verification = v;
    only = refl;
    none_missing = is_empty→eq v.missing_tokens (ground (arith, p));
    no_errors = is_empty→eq v.validation_errors (ground (arith, p));
    parsed = h;
  }

  checked-IsVerified :
      (result : CliVerifyResult) (cards : List LineCardRecord)
      → check_result result ≡ ok cards
      → IsVerified (ok result) cards
  unfolding check_result only_output
  checked-IsVerified [] cards h = absurd (ground (arith, h))
  checked-IsVerified (v ∷ []) cards h = elim (Bool-cases (passed (v ∷ []))) [
    | inl p ↦ passed-IsVerified v cards p (ground (arith, h, p))
    | inr p ↦ absurd (ground (arith, h, p))
  ]
  checked-IsVerified (v ∷ v' ∷ result) cards h = absurd (ground (arith, h))

  IsVerified-checked :
      (v : CliCommandVerification) (cards : List LineCardRecord)
      → v.missing_tokens ≡ []
      → v.validation_errors ≡ []
      → parse_line_card_status other_word v.output ≡ ok cards
      → check_result (v ∷ []) ≡ ok cards
  unfolding check_result only_output
  IsVerified-checked v cards m e h = rw (m, e) h

  module _ {S : Type 0} where
    continued-IsVerified :
        (result : Result CliVerifyResult) (s : S) (cards : List LineCardRecord)
        → (continue result (λ r. lift (check_result r)) s).0 ≡ ok cards
        → IsVerified result cards
    unfolding ◌>>=◌
    continued-IsVerified (ok result) s cards h = checked-IsVerified result cards h
    continued-IsVerified (err e) s cards h = absurd cc

    IsVerified-continued :
        (result : Result CliVerifyResult) (s : S) (cards : List LineCardRecord)
        → IsVerified result cards
        → (continue result (λ r. lift (check_result r)) s).0 ≡ ok cards
    unfolding ◌>>=◌
    IsVerified-continued result s cards v =
        rw v.only (IsVerified-checked v.verification cards v.none_missing v.no_errors v.parsed)

  -- The preflight returns these cards exactly if the verification of the driver's command gave one result,
  -- in which no token is missing and which has no error, and the cards are read from its output. In
  -- every other case it raises.
  pub preflight_iff :
      (T : Transport) (driver : Driver) (s : T.State) (cards : List LineCardRecord)
      → ((run_line_card_preflight T driver s).0 ≡ ok cards)
        ↔ IsVerified (run_driver_verify T driver false s).0 cards
  unfolding run_line_card_preflight ◌>>=◌
  preflight_iff T driver s cards =
      let (result, s') = run_driver_verify T driver false s in
      (continued-IsVerified result s' cards, IsVerified-continued result s' cards)
