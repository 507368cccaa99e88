-- ===== src/Devices/Registry/Order.antt =====
-- A registry as what can be looked up in it: the order of the registrations is forgotten.
use mathlib.Core.Path.{subst}
use mathlib.Core.Quot
use mathlib.Core.Quot.{Quot}
use device_cli_tool.Base.{
  Bool, true, false, not, ◌&&◌, ◌≡◌, refl, sym, ap, ◌∙◌, arith, Option, none, some, List, ◌∷◌,
  is_none, if◌then◌else◌, ok, Bool-cases, inl, inr,
}
use device_cli_tool.Text.{Str, str_eq}
use device_cli_tool.Text.Laws.{str_eq→eq, str_eq_comm}
use device_cli_tool.Devices.Registry.{
  DeviceDriver, DeviceRegistry, key_eq, driver_key, normalize, find_driver, find_default, register,
  resolve,
}
use device_cli_tool.Devices.Registry.Resolved.{key_eq→eq}

module _ {C : Type 0} where
  -- The same answers to every lookup.
  pub record SameLookups (r s : DeviceRegistry C) : Type 0 where
    pub drivers : (key : Str × Str) → find_driver key r.drivers ≡ find_driver key s.drivers
    pub defaults :
        (family : Str)
        → find_default family r.family_defaults ≡ find_default family s.family_defaults

key_eq_comm : (k k' : Str × Str) → key_eq k k' ≡ key_eq k' k
key_eq_comm (f, m) (f', m') = rw (str_eq_comm f f', str_eq_comm m m') refl

-- Two keys that differ are not both equal to a third.
not_both : (k l key : Str × Str) → key_eq k l ≡ false → key_eq k key ≡ true → key_eq l key ≡ false
not_both k l key h e = let same = key_eq→eq k key e in rw (← same, key_eq_comm l k) h

not_both_texts : (f g t : Str) → str_eq f g ≡ false → str_eq f t ≡ true → str_eq g t ≡ false
not_both_texts f g t h e = let same = str_eq→eq f t e in rw (← same, str_eq_comm g f) h

-- The abstract view of a registry.
abbrev pub Lookups : Type 0 → Type 0
Lookups C = Quot (SameLookups {C = C})

module _ {C : Type 0} where
  abbrev pub view : DeviceRegistry C → Lookups C
  view = Quot.mk

  -- What resolving sees of a registry is the same.
  resolve-SameLookups :
      (family : Str) (model : Option Str) (r s : DeviceRegistry C)
      → SameLookups r s
      → resolve family model r ≡ resolve family model s
  unfolding resolve
  resolve-SameLookups family none r s same = rw (same.defaults (normalize family)) refl
  resolve-SameLookups family (some model) r s same =
      rw (same.defaults (normalize family), same.drivers (driver_key family model)) refl

  -- The registry with one more driver.
  abbrev key_of : DeviceDriver C → Str × Str
  key_of d = driver_key d.family d.model

  abbrev added : DeviceDriver C → Bool → DeviceRegistry C → DeviceRegistry C
  added d default r = record {
    drivers = (key_of d, d) ∷ r.drivers;
    family_defaults =
        if default then (normalize d.family, d) ∷ r.family_defaults else r.family_defaults;
  }

  registered_lem :
      (d : DeviceDriver C) (default : Bool) (r s : DeviceRegistry C)
      → register d default r ≡ ok s
      → (find_driver (key_of d) r.drivers ≡ none) × (added d default r ≡ s)
  unfolding register
  registered_lem d default r s h =
      elim (Bool-cases (not (is_none (find_driver (key_of d) r.drivers)))) [
        | inl taken ↦ absurd (taken_lem taken h)
        | inr free ↦ (none_lem (find_driver (key_of d) r.drivers) free, free_lem free h)
      ]
    where
      none_lem : (v : Option (DeviceDriver C)) → not (is_none v) ≡ false → v ≡ none
      none_lem none h = refl
      none_lem (some x) h = cc

      taken_lem :
          not (is_none (find_driver (key_of d) r.drivers)) ≡ true → register d default r ≡ ok s → ⊥
      taken_lem taken h = ground (arith, taken, h)

      free_lem :
          not (is_none (find_driver (key_of d) r.drivers)) ≡ false
          → register d default r ≡ ok s
          → added d default r ≡ s
      free_lem free h = ground (arith, free, h)

  register-free :
      (d : DeviceDriver C) (default : Bool) (r : DeviceRegistry C)
      → find_driver (key_of d) r.drivers ≡ none
      → register d default r ≡ ok (added d default r)
  unfolding register
  register-free d default r free = rw free refl

  still_free :
      (k l : Str × Str) (d : DeviceDriver C) (drivers : List ((Str × Str) × DeviceDriver C))
      → key_eq k l ≡ false
      → find_driver l drivers ≡ none
      → find_driver l ((k, d) ∷ drivers) ≡ none
  unfolding find_driver
  still_free k l d drivers differ free = rw differ free

  new_free :
      (k l : Str × Str) (d : DeviceDriver C) (drivers : List ((Str × Str) × DeviceDriver C))
      → find_driver l ((k, d) ∷ drivers) ≡ none
      → (key_eq k l ≡ false) × (find_driver l drivers ≡ none)
  unfolding find_driver
  new_free k l d drivers h = (ground (arith, h), ground (arith, h))

  swap_drivers :
      (k l key : Str × Str) (d e : DeviceDriver C) (drivers : List ((Str × Str) × DeviceDriver C))
      → key_eq k l ≡ false
      → find_driver key ((k, d) ∷ (l, e) ∷ drivers) ≡ find_driver key ((l, e) ∷ (k, d) ∷ drivers)
  unfolding find_driver
  swap_drivers k l key d e drivers h = elim (Bool-cases (key_eq k key)) [
    | inl first ↦ rw (first, not_both k l key h first) refl
    | inr other ↦ rw other refl
  ]

  swap_defaults :
      (f g family : Str) (d e : DeviceDriver C) (defaults : List (Str × DeviceDriver C))
      → str_eq f g ≡ false
      → find_default family ((f, d) ∷ (g, e) ∷ defaults)
        ≡ find_default family ((g, e) ∷ (f, d) ∷ defaults)
  unfolding find_default
  swap_defaults f g family d e defaults h = elim (Bool-cases (str_eq f family)) [
    | inl first ↦ rw (first, not_both_texts f g family h first) refl
    | inr other ↦ rw other refl
  ]

  module _ (d e : DeviceDriver C) where
    -- The two are not both the default of one family.
    abbrev pub Apart : Bool → Bool → Type 0
    Apart b c = (b && c && str_eq (normalize d.family) (normalize e.family)) ≡ false

    added_comm :
        (b c : Bool) (r : DeviceRegistry C)
        → key_eq (key_of d) (key_of e) ≡ false
        → Apart b c
        → SameLookups (added d b (added e c r)) (added e c (added d b r))
    added_comm b c r differ apart = record {
      drivers = λ key. swap_drivers (key_of d) (key_of e) key d e r.drivers differ;
      defaults = default_lem b c apart;
    }
      where
        default_lem :
            (b c : Bool)
            → Apart b c
            → (family : Str)
            → find_default family (added d b (added e c r)).family_defaults
              ≡ find_default family (added e c (added d b r)).family_defaults
        default_lem true true apart family =
            swap_defaults (normalize d.family) (normalize e.family) family d e r.family_defaults
              apart
        default_lem true false apart family = refl
        default_lem false true apart family = refl
        default_lem false false apart family = refl

    -- Both orders end in registries with the same lookups.
    abbrev pub Commutes : Bool → Bool → DeviceRegistry C → DeviceRegistry C → Type 0
    Commutes b c r r2 =
        (s1 s2 : DeviceRegistry C) × (register e c r ≡ ok s1)
        × (register d b s1 ≡ ok s2)
        × (view s2 ≡ view r2)
        × ((family : Str) (model : Option Str) → resolve family model s2 ≡ resolve family model r2)

    both_free :
        (b c : Bool) (r : DeviceRegistry C)
        → find_driver (key_of d) r.drivers ≡ none
        → (key_eq (key_of d) (key_of e) ≡ false) × (find_driver (key_of e) r.drivers ≡ none)
        → Apart b c
        → Commutes b c r (added e c (added d b r))
    both_free b c r free_d (differ, free_e) apart =
        let same = added_comm b c r differ apart in
        (
          added e c r,
          added d b (added e c r),
          register-free e c r free_e,
          register-free d b (added e c r) (
              still_free (key_of e) (key_of d) e r.drivers
                (key_eq_comm (key_of e) (key_of d) ∙ differ) free_d),
          Quot.sound same,
          λ family model. resolve-SameLookups family model _ _ same,
        )

    -- The order of two registrations that both succeed does not matter, unless the two drivers are both the
    -- default of one family: in the other order both succeed too, and the registry that results is the
    -- same one where registries with the same lookups are identified. So every family and model resolves
    -- to the same driver in both.
    pub register_comm :
        (b c : Bool) (r r1 r2 : DeviceRegistry C)
        → register d b r ≡ ok r1
        → register e c r1 ≡ ok r2
        → Apart b c
        → Commutes b c r r2
    register_comm b c r r1 r2 h1 h2 apart =
        let (free_d, same1) = registered_lem d b r r1 h1 in
        let (free_e, same2) = registered_lem e c r1 r2 h2 in
        let free_both = new_free (key_of d) (key_of e) d r.drivers (
          subst (λ (x : DeviceRegistry C). find_driver (key_of e) x.drivers ≡ none) (sym same1)
            free_e) in
        subst (Commutes b c r) (ap (added e c) same1 ∙ same2)
          (both_free b c r free_d free_both apart)
