-- ===== src/Devices/Catalog/Loaded.antt =====
-- What a catalog is once it is built.
use mathlib.Core.Path.{subst}
use device_cli_tool.Base.{
  Bool, false, not, ◌≡◌, refl, ◌∙◌, arith, Option, List, [], ◌∷◌, All, is_empty, Result, ok, err,
  Bool-cases, inl, inr, bind_ok, raise_if, length, ◌==◌, ◌>>=◌,
}
use device_cli_tool.Text.{Str, codes, str_eq}
use device_cli_tool.Text.Laws.{str_eq→eq, str_eq_refl, str_eq_comm}
use device_cli_tool.Devices.Catalog.{
  Yaml, Entries, no_entries, entry, CommandSpec, is_given, check_spec, spec_of,
  command_specs_from_mapping, command_spec_from_mapping, put_spec, put_specs, create_catalog,
  get_spec, require_bool, optional_text, string_tuple, get_value, require_text, require_mapping,
  mode_of,
}

-- An id, and either one command or several.
pub record IsSpec (spec : CommandSpec) : Type 0 where
  pub id_given : is_empty spec.command_id ≡ false
  pub one_kind : is_given spec.command ≡ is_empty spec.commands

checked_lem : (spec : CommandSpec) → check_spec spec ≡ ok tt → IsSpec spec
unfolding check_spec
checked_lem spec h = record { id_given = ground (arith, h); one_kind = ground (arith, h) }

-- The ids of a catalog are different.
abbrev pub Lacks : Str → List CommandSpec → Type 0
Lacks command_id specs = All (λ (s : CommandSpec). str_eq s.command_id command_id ≡ false) specs

abbrev pub Distinct : List CommandSpec → Type 0
Distinct [] = Unit
Distinct (spec ∷ specs) = Lacks spec.command_id specs × Distinct specs

put_spec-Lacks :
    (command_id : Str) (spec : CommandSpec) (specs : List CommandSpec)
    → str_eq spec.command_id command_id ≡ false
    → Lacks command_id specs
    → Lacks command_id (put_spec spec specs)
put_spec-Lacks command_id spec [] h hs = (h, tt)
put_spec-Lacks command_id spec (other ∷ specs) h (ho, hs) =
    elim (Bool-cases (str_eq other.command_id spec.command_id)) [
      | inl e ↦ rw e (h, hs)
      | inr e ↦ rw e (ho, put_spec-Lacks command_id spec specs h hs)
    ]

put_spec-Distinct :
    (spec : CommandSpec) (specs : List CommandSpec)
    → Distinct specs
    → Distinct (put_spec spec specs)
put_spec-Distinct spec [] h = (tt, tt)
put_spec-Distinct spec (other ∷ specs) (ho, hs) =
    elim (Bool-cases (str_eq other.command_id spec.command_id)) [
      | inl e ↦
          rw e (subst (λ i. Lacks i specs) (str_eq→eq other.command_id spec.command_id e) ho, hs)
      | inr e ↦ rw e (
        put_spec-Lacks other.command_id spec specs
            (str_eq_comm spec.command_id other.command_id ∙ e) ho,
        put_spec-Distinct spec specs hs,
      )
    ]

module _ (P : CommandSpec → Type 0) where
  put_spec-All :
      (spec : CommandSpec) (specs : List CommandSpec)
      → P spec
      → All P specs
      → All P (put_spec spec specs)
  put_spec-All spec [] h hs = (h, tt)
  put_spec-All spec (other ∷ specs) h (ho, hs) =
      elim (Bool-cases (str_eq other.command_id spec.command_id)) [
        | inl e ↦ rw e (h, hs)
        | inr e ↦ rw e (ho, put_spec-All spec specs h hs)
      ]

  put_specs-All :
      (specs catalog : List CommandSpec)
      → All P specs
      → All P catalog
      → All P (put_specs specs catalog)
  put_specs-All [] catalog hs hc = hc
  put_specs-All (spec ∷ specs) catalog (h, hs) hc =
      put_specs-All specs (put_spec spec catalog) hs (put_spec-All spec catalog h hc)

put_specs-Distinct :
    (specs catalog : List CommandSpec) → Distinct catalog → Distinct (put_specs specs catalog)
put_specs-Distinct [] catalog h = h
put_specs-Distinct (spec ∷ specs) catalog h =
    put_specs-Distinct specs (put_spec spec catalog) (put_spec-Distinct spec catalog h)

-- Each spec is found under its id.
abbrev pub IsFound : List CommandSpec → CommandSpec → Type 0
IsFound catalog spec = get_spec catalog spec.command_id ≡ ok spec

found_later :
    (spec : CommandSpec) (catalog specs : List CommandSpec)
    → Lacks spec.command_id specs
    → All (IsFound catalog) specs
    → All (IsFound (spec ∷ catalog)) specs
unfolding get_spec
found_later spec catalog [] hl hf = tt
found_later spec catalog (other ∷ specs) (h, hl) (f, hf) =
    (rw (str_eq_comm spec.command_id other.command_id, h) f, found_later spec catalog specs hl hf)

Distinct-IsFound : (catalog : List CommandSpec) → Distinct catalog → All (IsFound catalog) catalog
unfolding get_spec
Distinct-IsFound [] h = tt
Distinct-IsFound (spec ∷ specs) (hl, h) = (
  rw (str_eq_refl spec.command_id) refl,
  found_later spec specs specs hl (Distinct-IsFound specs h),
)

built_lem :
    (r : Result Bool) (q : Result (Option Str)) (t u : Result (List Str))
    (f : Bool → Option Str → List Str → List Str → CommandSpec) (spec : CommandSpec)
    → (r >>= λ b.
        q >>= λ c. t >>= λ cs. u >>= λ ts. check_spec (f b c cs ts) >>= λ _. ok (f b c cs ts))
      ≡ ok spec
    → IsSpec spec
built_lem (ok b) (ok c) (ok cs) (ok ts) f spec h =
    let (checks, checked, made) =
      bind_ok (check_spec (f b c cs ts)) (λ _. ok (f b c cs ts)) spec h in
    let same : f b c cs ts ≡ spec = cc in subst IsSpec same (checked_lem (f b c cs ts) checked)
built_lem (ok b) (ok c) (ok cs) (err e) f spec h = absurd cc
built_lem (ok b) (ok c) (err e) u f spec h = absurd cc
built_lem (ok b) (err e) t u f spec h = absurd cc
built_lem (err e) q t u f spec h = absurd cc

module _ (yaml_str : Yaml → Str) where
  command_spec_from_mapping-IsSpec :
      (command_id : Str) (raw : Entries) (spec : CommandSpec)
      → command_spec_from_mapping yaml_str command_id raw ≡ ok spec
      → IsSpec spec
  unfolding command_spec_from_mapping
  command_spec_from_mapping-IsSpec command_id raw spec h =
      built_lem (require_bool (get_value (codes "readonly") raw))
        (optional_text (get_value (codes "command") raw))
        (string_tuple (get_value (codes "commands") raw))
        (string_tuple (get_value (codes "expected_tokens") raw))
        (λ b c cs ts. record {
          command_id = command_id;
          readonly = b;
          mode = mode_of yaml_str raw;
          command = c;
          commands = cs;
          expected_tokens = ts;
        })
        spec h

  entry_lem :
      (id : Result Str) (entries : Result Entries) (spec : CommandSpec)
      → (id >>= λ command_id. entries >>= λ raw. command_spec_from_mapping yaml_str command_id raw)
        ≡ ok spec
      → IsSpec spec
  entry_lem (ok command_id) (ok raw) spec h = command_spec_from_mapping-IsSpec command_id raw spec h
  entry_lem (ok command_id) (err e) spec h = absurd cc
  entry_lem (err e) entries spec h = absurd cc

  more_lem :
      (r : Result CommandSpec) (rest : Result (List CommandSpec)) (specs : List CommandSpec)
      → ((spec : CommandSpec) → r ≡ ok spec → IsSpec spec)
      → ((specs : List CommandSpec) → rest ≡ ok specs → All IsSpec specs)
      → (r >>= λ spec. rest >>= λ specs. ok (spec ∷ specs)) ≡ ok specs
      → All IsSpec specs
  more_lem (ok spec) (ok specs') specs hr hs h =
      let same : spec ∷ specs' ≡ specs = cc in
      subst (All IsSpec) same (hr spec refl, hs specs' refl)
  more_lem (ok spec) (err e) specs hr hs h = absurd cc
  more_lem (err e) rest specs hr hs h = absurd cc

  pub command_specs_from_mapping-IsSpec :
      (entries : Entries) (specs : List CommandSpec)
      → command_specs_from_mapping yaml_str entries ≡ ok specs
      → All IsSpec specs
  unfolding command_specs_from_mapping
  command_specs_from_mapping-IsSpec no_entries specs h =
      let same : [] ≡ specs = cc in subst (All IsSpec) same tt
  command_specs_from_mapping-IsSpec (entry key raw entries) specs h =
      more_lem (spec_of yaml_str key raw) (command_specs_from_mapping yaml_str entries) specs
        (entry_lem (require_text key) (require_mapping raw))
        (command_specs_from_mapping-IsSpec entries) h

-- What holds of every catalog that is built.
pub record IsCatalog (catalog : List CommandSpec) : Type 0 where
  pub specs : All IsSpec catalog
  pub found : All (IsFound catalog) catalog

pub create_catalog-IsCatalog :
    (specs catalog : List CommandSpec)
    → All IsSpec specs
    → create_catalog specs ≡ ok catalog
    → IsCatalog catalog
unfolding create_catalog
create_catalog-IsCatalog specs catalog hs h =
    let (u, unique, made) =
      bind_ok (raise_if (not (length (put_specs specs []) == length specs)) _)
        (λ _. ok (put_specs specs [])) catalog h in
    let same : put_specs specs [] ≡ catalog = cc in
    subst IsCatalog same (record {
      specs = put_specs-All IsSpec specs [] hs tt;
      found = Distinct-IsFound (put_specs specs []) (put_specs-Distinct specs [] tt);
    })
