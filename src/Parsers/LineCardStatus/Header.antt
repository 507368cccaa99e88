-- ===== src/Parsers/LineCardStatus/Header.antt =====
-- The search for the header line.
use device_cli_tool.Base.{
  ℕ, Bool, true, false, ◌≡◌, refl, sym, ap, arith, Option, some, List, [], ◌∷◌, ◌++◌, ◌==◌, ltb,
  All, Bool-cases, inl, inr, if◌then◌else◌,
}
use device_cli_tool.Text.{Str}
use device_cli_tool.Parsers.LineCardStatus.{Positions, count, header_positions, find_header}

module _ (other_word : ℕ → Bool) where
  abbrev pub has_all : Str → Bool
  has_all line = count (header_positions other_word line) == 3

  -- `header` is the first of the lines that has all columns; `rest` are those behind it.
  pub record IsHeader (lines : List Str) (rest : Option (List Str)) (p : Positions) : Type 0 where
    pub before : List Str
    pub header : Str
    pub behind : List Str
    pub lines_eq : lines ≡ before ++ (header ∷ behind)
    pub rest_eq : rest ≡ some behind
    pub positions_eq : p ≡ header_positions other_word header
    pub is_first : All (λ line. has_all line ≡ false) before

  behind_line :
      (line : Str) (lines : List Str) (found : Option (List Str) × Positions)
      → has_all line ≡ false
      → IsHeader lines found.0 found.1
      → IsHeader (line ∷ lines) found.0 found.1
  behind_line line lines found lacks h = record {
    before = line ∷ h.before;
    header = h.header;
    behind = h.behind;
    lines_eq = ap (λ l. line ∷ l) h.lines_eq;
    rest_eq = h.rest_eq;
    positions_eq = h.positions_eq;
    is_first = (lacks, h.is_first);
  }

  -- The better of the line and what was found before has not all columns either.
  better_lem :
      (b : Bool) (here best : Option (List Str) × Positions)
      → (count here.1 == 3) ≡ false
      → (count best.1 == 3) ≡ false
      → (count (if b then here else best).1 == 3) ≡ false
  better_lem true here best h h' = h
  better_lem false here best h h' = h'

  abbrev better : Option (List Str) × Positions → Str → List Str → Option (List Str) × Positions
  better best line lines =
      if ltb (count best.1) (count (header_positions other_word line))
      then (some lines, header_positions other_word line)
      else best

  find_header-cons :
      (best : Option (List Str) × Positions) (line : Str) (lines : List Str)
      → has_all line ≡ false
      → find_header other_word best (line ∷ lines)
        ≡ find_header other_word (better best line lines) lines
  unfolding find_header
  find_header-cons best line lines lacks = rw lacks refl

  pub find_header_lem :
      (best : Option (List Str) × Positions) (lines : List Str)
      → (count best.1 == 3) ≡ false
      → (count (find_header other_word best lines).1 == 3) ≡ true
      → IsHeader lines (find_header other_word best lines).0 (find_header other_word best lines).1
  unfolding find_header
  find_header_lem best [] lacks h = absurd (ground (arith, lacks, h))
  find_header_lem best (line ∷ lines) lacks h = elim (Bool-cases (has_all line)) [
    | inl e ↦ rw e (record {
      before = [];
      header = line;
      behind = lines;
      lines_eq = refl;
      rest_eq = refl;
      positions_eq = refl;
      is_first = tt;
    })
    | inr e ↦
        let next = better best line lines in
        let step = find_header-cons best line lines e in
        let here : Option (List Str) × Positions = (some lines, header_positions other_word line) in
        let next_lacks = better_lem (ltb (count best.1) (count here.1)) here best e lacks in
        let next_all : (count (find_header other_word next lines).1 == 3) ≡ true =
          rw (sym step) h in
        rw step (
          behind_line line lines (find_header other_word next lines) e
            (find_header_lem next lines next_lacks next_all))
  ]
