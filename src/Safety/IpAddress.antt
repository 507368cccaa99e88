-- ===== src/Safety/IpAddress.antt =====
-- `str(ipaddress.ip_address(value))` as cli_tool/safety/policy.py calls it: IPv4 is tried first. The
-- reading of IPv6 texts is the parameter `ipv6`, which gives their normal form.
use device_cli_tool.Base.{
  ℕ, Option, none, some, List, [], ◌∷◌, not, ◌&&◌, ◌||◌, ◌==◌, ltb, leb, if◌then◌else◌, length, all,
}
use device_cli_tool.Text.{Str, codes, split_on, is_digit, number_from, decimal, join}

-- Leading zeros are refused, and more than three digits.
unfoldable pub octet : Str → Option ℕ
unfolding number_from
octet [] = none
octet (c ∷ s) =
    if not (all is_digit (c ∷ s)) || ltb 3 (length (c ∷ s))
    then none
    else if c == b'0' && leb 1 (length s)
    then none
    else if ltb 255 (number_from 0 (c ∷ s))
    then none
    else some (number_from 0 (c ∷ s))

abbrev octets : List Str → Option (List ℕ)
octets [] = some []
octets (s ∷ texts) = elim (octet s) [
  | none ↦ none
  | some n ↦ elim (octets texts) [ none ↦ none | some ns ↦ some (n ∷ ns) ]
]

abbrev dotted : List ℕ → List Str
dotted [] = []
dotted (n ∷ ns) = decimal n ∷ dotted ns

abbrev four : Option (List ℕ) → Option Str
four (some (a ∷ b ∷ c ∷ d ∷ [])) = some (join (codes ".") (dotted (a ∷ b ∷ c ∷ d ∷ [])))
four _ = none

unfoldable pub ipv4 : Str → Option Str
unfolding octet split_on decimal join
ipv4 value = four (octets (split_on b'.' value))

module _ (ipv6 : Str → Option Str) where
  unfoldable pub ip_address : Str → Option Str
  ip_address value = elim (ipv4 value) [ some text ↦ some text | none ↦ ipv6 value ]
