-- ===== src/Parsers/LineCardStatus/Rows.antt =====
-- The rows of the table.
use mathlib.Core.Path.{subst}
use device_cli_tool.Base.{
  ◌∙◌, ℕ, ◌<◌, ◌-◌, true, false, ◌&&◌, ◌≡◌, ◌≢◌, ◌↔◌, refl, sym, ap, arith, some, List, [], ◌∷◌,
  take, drop, ltb, Result, ok, err, Bool-cases, inl, inr, ◌>>=◌,
}
use device_cli_tool.Text.{Str, strip}
use device_cli_tool.Parsers.LineCardStatus.Separators.{
  IsSeparator, is_skipped→separator, separator→is_skipped, nonempty, not_empty, drop-take,
}
use device_cli_tool.Parsers.LineCardStatus.{
  LineCardRecord, card_of, is_skipped, is_complete, add_card, parse_rows, at_least_one, parse_table,
}

module _ (card_start status_start fw_start : ℕ) where
  -- The card of a line that is cut at the columns; none of its three values is empty.
  pub record IsRow (line : Str) (card : LineCardRecord) : Type 0 where
    pub slot : card.slot ≡ strip (take card_start line)
    pub card_type : card.card_type ≡ strip (take (status_start - card_start) (drop card_start line))
    pub status : card.status ≡ strip (take (fw_start - status_start) (drop status_start line))
    pub fw_version : card.fw_version ≡ strip (drop fw_start line)
    pub has_type : card.card_type ≢ []
    pub has_status : card.status ≢ []
    pub has_version : card.fw_version ≢ []

  -- One card for each line that is no separator, in order.
  pub data AreRows : List Str → List LineCardRecord → Type 0 where
    no_more : AreRows [] []
    separator :
        {lines : List Str} {cards : List LineCardRecord} (line : Str)
        → IsSeparator line
        → AreRows lines cards
        → AreRows (line ∷ lines) cards
    row :
        {lines : List Str} {cards : List LineCardRecord} (line : Str) (card : LineCardRecord)
        → (IsSeparator line → ⊥)
        → IsRow line card
        → AreRows lines cards
        → AreRows (line ∷ lines) (card ∷ cards)

  abbrev card_at : Str → LineCardRecord
  card_at line = card_of card_start status_start fw_start line

  complete-IsRow : (line : Str) → is_complete (card_at line) ≡ true → IsRow line (card_at line)
  unfolding card_of
  complete-IsRow line h = record {
    slot = refl;
    card_type = ap strip (drop-take card_start status_start line);
    status = ap strip (drop-take status_start fw_start line);
    fw_version = refl;
    has_type = nonempty (card_at line).card_type (ground (arith, h));
    has_status = nonempty (card_at line).status (ground (arith, h));
    has_version = nonempty (card_at line).fw_version (ground (arith, h));
  }

  IsRow-same : (line : Str) (card : LineCardRecord) → IsRow line card → card_at line ≡ card
  unfolding card_of
  IsRow-same line card r =
      let slot' = sym r.slot in
      let type' = ap strip (drop-take card_start status_start line) ∙ sym r.card_type in
      let status' = ap strip (drop-take status_start fw_start line) ∙ sym r.status in
      let version' = sym r.fw_version in
      λ i. record {
        slot = slot' i;
        card_type = type' i;
        status = status' i;
        fw_version = version' i;
      }

  IsRow-complete : (line : Str) (card : LineCardRecord) → IsRow line card → is_complete card ≡ true
  IsRow-complete line card r = ground (
    arith,
    not_empty card.card_type r.has_type,
    not_empty card.status r.has_status,
    not_empty card.fw_version r.has_version,
  )

  add_card-ok :
      (c : LineCardRecord) (r : Result (List LineCardRecord)) (cards : List LineCardRecord)
      → add_card c r ≡ ok cards
      → (rest : List LineCardRecord) × (r ≡ ok rest) × (c ∷ rest ≡ cards)
  add_card-ok c (ok rest) cards h = (rest, refl, ground (arith, h))
  add_card-ok c (err e) cards h = cc

  parse_rows-AreRows :
      (lines : List Str) (cards : List LineCardRecord)
      → parse_rows card_at lines ≡ ok cards
      → AreRows lines cards
  unfolding parse_rows
  parse_rows-AreRows [] [] h = no_more
  parse_rows-AreRows [] (c ∷ cards) h = absurd (ground (arith, h))
  parse_rows-AreRows (line ∷ lines) cards h = elim (Bool-cases (is_skipped line)) [
    | inl skipped ↦
        separator line (is_skipped→separator line skipped)
          (parse_rows-AreRows lines cards (ground (arith, h, skipped)))
    | inr counts ↦ elim (Bool-cases (is_complete (card_at line))) [
      | inl complete ↦
          let (rest, is_rest, is_cards) =
            add_card-ok (card_at line) (parse_rows card_at lines) cards
              (ground (arith, h, counts, complete)) in
          subst (AreRows (line ∷ lines)) is_cards (
            row line (card_at line) (λ s. ground (arith, counts, separator→is_skipped line s))
              (complete-IsRow line complete) (parse_rows-AreRows lines rest is_rest))
      | inr lacking ↦ absurd (ground (arith, h, counts, lacking))
    ]
  ]

  counted : (line : Str) → (IsSeparator line → ⊥) → is_skipped line ≡ false
  counted line h = elim (Bool-cases (is_skipped line)) [
    | inl skipped ↦ absurd (h (is_skipped→separator line skipped))
    | inr counts ↦ counts
  ]

  AreRows-parsed :
      {lines : List Str} {cards : List LineCardRecord}
      → AreRows lines cards
      → parse_rows card_at lines ≡ ok cards
  unfolding parse_rows
  AreRows-parsed no_more = refl
  AreRows-parsed (separator line s h) = rw (separator→is_skipped line s) (AreRows-parsed h)
  AreRows-parsed (row line card counts r h) =
      rw (counted line counts, IsRow-same line card r, IsRow-complete line card r, AreRows-parsed h)
        refl

  -- What is read below the header: the columns stand in this order, and the lines have at least one row.
  pub record IsTable (lines : List Str) (cards : List LineCardRecord) : Type 0 where
    pub in_order : (card_start < status_start) × (status_start < fw_start)
    pub rows : AreRows lines cards
    pub some_row : cards ≢ []

at_least_one-ok :
    (r : Result (List LineCardRecord)) (cards : List LineCardRecord)
    → (r >>= at_least_one) ≡ ok cards
    → (r ≡ ok cards) × (cards ≢ [])
at_least_one-ok (ok []) cards h = absurd (ground (arith, h))
at_least_one-ok (ok (c ∷ cs)) cards h = (h, λ e. ground (arith, h, e))
at_least_one-ok (err e) cards h = absurd (ground (arith, h))

at_least_one_lem : (cards : List LineCardRecord) → cards ≢ [] → at_least_one cards ≡ ok cards
at_least_one_lem [] h = absurd (h refl)
at_least_one_lem (c ∷ cards) h = refl

-- A table is read exactly if its columns stand in the expected order, it has at least one row, and each
-- line that is not of white space and the characters `=+|:-` only has the three values card type, status
-- and version; the result has one card for each such line, in order, with the texts between the
-- columns, stripped.
pub parse_table_iff :
    (card_start status_start fw_start : ℕ) (lines : List Str) (cards : List LineCardRecord)
    → (parse_table (some card_start) (some status_start) (some fw_start) (some lines) ≡ ok cards)
      ↔ IsTable card_start status_start fw_start lines cards
unfolding parse_table
parse_table_iff card_start status_start fw_start lines cards = (
  λ h. elim (Bool-cases (ltb card_start status_start && ltb status_start fw_start)) [
    | inl e ↦
        let (rows, nonempty') =
          at_least_one-ok (parse_rows (card_of card_start status_start fw_start) lines) cards
            (ground (arith, h, e)) in
        record {
          in_order = (ground (arith, e), ground (arith, e));
          rows = parse_rows-AreRows card_start status_start fw_start lines cards rows;
          some_row = nonempty';
        }
    | inr e ↦ absurd (ground (arith, h, e))
  ],
  λ t.
      let e : (ltb card_start status_start && ltb status_start fw_start) ≡ true =
        ground (arith, t.in_order.0, t.in_order.1) in
      rw (e, AreRows-parsed card_start status_start fw_start t.rows)
        (at_least_one_lem cards t.some_row),
)
