-- ===== src/Workflows/Verify/Passed.antt =====
-- When a verification passes, and what a driver lets through to the device.
use device_cli_tool.Base.{
  none, some, ◌≢◌, ◌⊎◌, sym, Bool, true, false, ◌≡◌, ◌↔◌, refl, arith, List, [], ◌∷◌, is_empty,
  is_ok, All, ok, Bool-cases, inl, inr,
}
use device_cli_tool.Base.Exec.{◌>>=◌}
use device_cli_tool.Text.{Str, str_eq, strip, contains, casefold, normalize_newlines}
use device_cli_tool.Text.Laws.{str_eq_iff}
use device_cli_tool.Workflows.Verify.{
  CliCommandOutput, command_passed, passed, tuple_of_strings, comparable, missing_tokens,
  verify_output_tokens, or_else, last_output, verify_cli_outputs, Transport, Driver,
  run_driver_verify,
}

-- What a token must be in an output: its text with `\n` for each line end, in the output's text made so,
-- and without `case_sensitive` after case folding of both.
abbrev pub Contains : Bool → Str → Str → Type 0
Contains true output token = contains (normalize_newlines output) (normalize_newlines token) ≡ true
Contains false output token =
    contains (casefold (normalize_newlines output)) (casefold (normalize_newlines token)) ≡ true

contains_iff :
    (case_sensitive : Bool) (output token : Str)
    → (contains (comparable case_sensitive output) (comparable case_sensitive token) ≡ true)
      ↔ Contains case_sensitive output token
contains_iff true output token = (λ h. h, λ h. h)
contains_iff false output token = (λ h. h, λ h. h)

-- Every token that is not empty is contained.
abbrev pub ContainsAll : Bool → Str → List Str → Type 0
ContainsAll case_sensitive output tokens =
    All (λ token. is_empty token ≡ false → Contains case_sensitive output token) tokens

abbrev NoneMissing : Bool → Str → List Str → Type 0
NoneMissing case_sensitive output tokens =
    is_empty (missing_tokens output (tuple_of_strings tokens) case_sensitive) ≡ true

missing_iff :
    (output : Str) (tokens : List Str) (case_sensitive : Bool)
    → NoneMissing case_sensitive output tokens ↔ ContainsAll case_sensitive output tokens
unfolding missing_tokens tuple_of_strings
missing_iff output [] case_sensitive = (λ h. tt, λ h. refl)
missing_iff output (token ∷ tokens) case_sensitive =
    let next = missing_iff output tokens case_sensitive in
    elim (Bool-cases (is_empty token)) [
      | inl blank ↦ (
        λ h. (λ e. absurd (ground (arith, e, blank)), next.0 (ground (arith, h, blank))),
        λ (_, h). rw blank (next.1 h),
      )
      | inr given ↦
          elim (Bool-cases
            (contains (comparable case_sensitive output) (comparable case_sensitive token))) [
              | inl there ↦ (
                λ h. (
                  λ e. (contains_iff case_sensitive output token).0 there,
                  next.0 (ground (arith, h, given, there)),
                ),
                λ (_, h). rw (given, given, there) (next.1 h),
              )
              | inr lacking ↦ (
                λ h. absurd (ground (arith, h, given, lacking)),
                λ (h, _).
                    let there = (contains_iff case_sensitive output token).1 (h given) in
                    absurd (ground (arith, there, lacking)),
              )
            ]
    ]

-- The output of the last item of the command.
pub data IsLast (command : Str) : List CliCommandOutput → Str → Type 0 where
  here :
      (item : CliCommandOutput) (after : List CliCommandOutput)
      → item.command ≡ command
      → All (λ (other : CliCommandOutput). other.command ≢ command) after
      → IsLast command (item ∷ after) item.output
  later :
      {items : List CliCommandOutput} {output : Str} (item : CliCommandOutput)
      → IsLast command items output
      → IsLast command (item ∷ items) output

abbrev pub NoOutput : Str → List CliCommandOutput → Type 0
NoOutput command items = All (λ (item : CliCommandOutput). item.command ≢ command) items

-- A command without output has the empty one.
abbrev pub OutputOf : Str → List CliCommandOutput → Str → Type 0
OutputOf command items output =
    IsLast command items output ⊎ (NoOutput command items × (output ≡ []))

last_output-none :
    (command : Str) (items : List CliCommandOutput)
    → NoOutput command items
    → last_output items command ≡ none
unfolding last_output
last_output-none command [] h = refl
last_output-none command (item ∷ items) (differs, h) =
    ground (arith, str_eq_iff item.command command, differs, last_output-none command items h)

last_output-IsLast :
    (command : Str) {items : List CliCommandOutput} {output : Str}
    → IsLast command items output
    → last_output items command ≡ some output
unfolding last_output
last_output-IsLast command (here item after same others) =
    ground (arith, str_eq_iff item.command command, same, last_output-none command after others)
last_output-IsLast command {items = item' ∷ items} (later item h) =
    let found = last_output-IsLast command h in
    elim (Bool-cases (str_eq item.command command)) [
      | inl same ↦ rw (same, found) refl
      | inr differs ↦ rw (differs, found) refl
    ]

-- What the dict of the outputs has for a command.
look :
    (command : Str) (items : List CliCommandOutput)
    → NoOutput command items ⊎ ((output : Str) × IsLast command items output)
look command [] = inl tt
look command (item ∷ items) = elim (look command items) [
  | inr (output, h) ↦ inr (output, later item h)
  | inl none_left ↦ elim (Bool-cases (str_eq item.command command)) [
    | inl same ↦
        inr (item.output, here item items ((str_eq_iff item.command command).0 same) none_left)
    | inr differs ↦
        inl (λ same. ground (arith, (str_eq_iff item.command command).1 same, differs), none_left)
  ]
]

OutputOf-same :
    (command : Str) (items : List CliCommandOutput) (output : Str)
    → OutputOf command items output
    → or_else (last_output items command) [] ≡ output
OutputOf-same command items output (inl h) = rw (last_output-IsLast command h) refl
OutputOf-same command items output (inr (h, e)) = rw (last_output-none command items h) (sym e)

or_else-OutputOf :
    (command : Str) (items : List CliCommandOutput)
    → OutputOf command items (or_else (last_output items command) [])
or_else-OutputOf command items = elim (look command items) [
  | inl h ↦ inr (h, rw (last_output-none command items h) refl)
  | inr (output, h) ↦ rw (last_output-IsLast command h) (inl h)
]

-- The output of the command is not blank and contains its tokens.
abbrev pub Verified : Bool → List CliCommandOutput → Str × List Str → Type 0
Verified case_sensitive outputs (command, tokens) =
    (output : Str) × OutputOf command outputs output
    × (is_empty (strip output) ≡ false)
    × ContainsAll case_sensitive output tokens

command_iff :
    (command output : Str) (tokens : List Str) (case_sensitive : Bool)
    → (command_passed (verify_output_tokens command output tokens case_sensitive) ≡ true)
      ↔ ((is_empty (strip output) ≡ false) × ContainsAll case_sensitive output tokens)
unfolding verify_output_tokens
command_iff command output tokens case_sensitive =
    let next = missing_iff output tokens case_sensitive in
    elim (Bool-cases (is_empty (strip output))) [
      | inl blank ↦
          (λ h. absurd (ground (arith, h, blank)), λ (h, _). absurd (ground (arith, h, blank)))
      | inr given ↦ (
        λ h. (given, next.0 (ground (arith, h, given))),
        λ (_, h). ground (arith, next.1 h, given),
      )
    ]

-- A verification passes exactly if for every command of the table the last output of it is not blank and
-- contains each of its tokens that is not empty, up to line ends and, without `case_sensitive`, up to case.
-- A command without output does not pass.
pub passed_iff :
    (outputs : List CliCommandOutput) (expected : List (Str × List Str)) (case_sensitive : Bool)
    → (passed (verify_cli_outputs outputs expected case_sensitive) ≡ true)
      ↔ All (Verified case_sensitive outputs) expected
unfolding verify_cli_outputs
passed_iff outputs [] case_sensitive = (λ h. tt, λ h. refl)
passed_iff outputs ((command, tokens) ∷ expected) case_sensitive =
    let verified =
      command_iff command (or_else (last_output outputs command) []) tokens case_sensitive in
    let next = passed_iff outputs expected case_sensitive in
    (
      λ h. (
        (
          or_else (last_output outputs command) [],
          or_else-OutputOf command outputs,
          (verified.0 (ground (arith, h))).0,
          (verified.0 (ground (arith, h))).1,
        ),
        next.0 (ground (arith, h)),
      ),
      λ ((output, is_output, given, all), h).
          let same = OutputOf-same command outputs output is_output in
          ground (arith, verified.1 (rw same (given, all)), next.1 h),
    )

-- A command that is not marked as readonly, or cannot be looked up, is refused, and nothing is sent to the
-- device.
driver-readonly :
    (T : Transport) (driver : Driver) (case_sensitive : Bool) (s : T.State)
    → (driver.readonly ≡ ok true → ⊥)
    → (is_ok (run_driver_verify T driver case_sensitive s).0 ≡ false)
      × ((run_driver_verify T driver case_sensitive s).1 ≡ s)
unfolding run_driver_verify ◌>>=◌
driver-readonly T driver case_sensitive s h = ground arith
