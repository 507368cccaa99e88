-- ===== src/Transfer/Local/Laws.antt =====
-- Paths and updates.
use device_cli_tool.Base.{true, ◌≡◌, ◌≢◌, refl, ap, ◌↔◌, arith, ◌∷◌, ◌++◌, length, length-append}
use device_cli_tool.Text.{Str, codes}
use device_cli_tool.Text.Laws.{str_eq→eq, str_eq_refl}
use device_cli_tool.Transfer.Local.{FilePath, path_eq, part_path}

pub path_eq_iff : (p q : FilePath) → (path_eq p q ≡ true) ↔ (p ≡ q)
path_eq_iff p q = (
  λ h.
      let a = str_eq→eq p.parent q.parent (ground arith) in
      let b = str_eq→eq p.name q.name (ground arith) in λ i. record { parent = a i; name = b i },
  λ e. rw e (ground (arith, str_eq_refl q.parent, str_eq_refl q.name)),
)

pub path_eq_refl : (p : FilePath) → path_eq p p ≡ true
path_eq_refl p = (path_eq_iff p p).1 refl

-- The temporary file never is the destination.
pub part_path-ne : (p : FilePath) (unique : Str) → part_path p unique ≢ p
part_path-ne p unique e =
    let longer = ap (λ (q : FilePath). length q.name) e in
    omega (arith, longer, length-append {0} p.name (b'.' ∷ (unique ++ codes ".part")))
