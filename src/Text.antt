-- ===== src/Text.antt =====
-- Python's `str`, as the list of its code points, and the methods that the program calls.
-- White space and line ends are those of Unicode. Lower case, upper case and case folding are those of ASCII
-- letters: the other code points are kept.
pub mod Laws
use Prim.Native.Char.{code}
use device_cli_tool.Base.{
  ℕ, zero, suc, ◌+◌, ◌-◌, ◌*◌, ◌/◌, ◌%◌, String, Bool, true, false, not, ◌&&◌, ◌||◌, Option, none,
  some, List, [], ◌∷◌, ◌++◌, ◌==◌, ltb, leb, if◌then◌else◌, length, drop, any,
}

abbrev pub Str : Type 0
Str = List ℕ

-- The text of a literal.
abbrev pub codes : String → Str
codes String.[] = []
codes (String.◌∷◌ c s) = code c ∷ codes s

abbrev pub str_eq : Str → Str → Bool
str_eq [] [] = true
str_eq [] (d ∷ t) = false
str_eq (c ∷ s) [] = false
str_eq (c ∷ s) (d ∷ t) = c == d && str_eq s t

-- `s in texts` for a tuple, list or set of texts.
abbrev pub str_mem : Str → List Str → Bool
str_mem s [] = false
str_mem s (t ∷ texts) = str_eq s t || str_mem s texts

-- `str.isspace` of one character.
unfoldable pub is_space : ℕ → Bool
is_space c =
    leb 9 c && leb c 13
    || leb 28 c && leb c 32
    || c == 133
    || c == 160
    || c == 5760
    || leb 8192 c && leb c 8202
    || c == 8232
    || c == 8233
    || c == 8239
    || c == 8287
    || c == 12288

abbrev pub drop_while : (ℕ → Bool) → Str → Str
drop_while p [] = []
drop_while p (c ∷ s) = let rest = drop_while p s in if p c then rest else c ∷ s

-- Drops the longest suffix of such characters.
abbrev pub keep_unless_last : Bool → ℕ → Str → Str
keep_unless_last true c [] = []
keep_unless_last true c (d ∷ t) = c ∷ d ∷ t
keep_unless_last false c t = c ∷ t

abbrev pub drop_while_end : (ℕ → Bool) → Str → Str
drop_while_end p [] = []
drop_while_end p (c ∷ s) = keep_unless_last (p c) c (drop_while_end p s)

unfoldable pub lstrip : Str → Str
unfolding is_space
lstrip s = drop_while is_space s

unfoldable pub rstrip : Str → Str
unfolding is_space
rstrip s = drop_while_end is_space s

unfoldable pub strip : Str → Str
unfolding lstrip rstrip
strip s = rstrip (lstrip s)

abbrev pub lower_char : ℕ → ℕ
lower_char c = if leb b'A' c && leb c b'Z' then c + 32 else c

unfoldable pub lower : Str → Str
lower [] = []
lower (c ∷ s) = lower_char c ∷ lower s

abbrev pub upper_char : ℕ → ℕ
upper_char c = if leb b'a' c && leb c b'z' then c - 32 else c

unfoldable pub upper : Str → Str
upper [] = []
upper (c ∷ s) = upper_char c ∷ upper s

unfoldable pub casefold : Str → Str
unfolding lower
casefold s = lower s

unfoldable pub starts_with : Str → Str → Bool
starts_with s [] = true
starts_with [] (p ∷ prefix) = false
starts_with (c ∷ s) (p ∷ prefix) = c == p && starts_with s prefix

unfoldable pub remove_prefix : Str → Str → Str
unfolding starts_with
remove_prefix s prefix = if starts_with s prefix then drop (length prefix) s else s

-- `needle in s`.
unfoldable pub contains : Str → Str → Bool
unfolding starts_with
contains [] needle = starts_with [] needle
contains (c ∷ s) needle = starts_with (c ∷ s) needle || contains s needle

abbrev pub has_char : ℕ → Str → Bool
has_char c s = any (λ d. d == c) s

-- `s.split(c)` for one character.
abbrev pub cut : Bool → ℕ → List Str → List Str
cut true d parts = [] ∷ parts
cut false d [] = (d ∷ []) ∷ []
cut false d (part ∷ parts) = (d ∷ part) ∷ parts

unfoldable pub split_on : ℕ → Str → List Str
split_on c [] = [] ∷ []
split_on c (d ∷ s) = cut (d == c) d (split_on c s)

-- `s.split(c, 1)[0]` and, where `c` stands in `s`, what is behind it.
unfoldable pub before_char : ℕ → Str → Str
before_char c [] = []
before_char c (d ∷ s) = let rest = before_char c s in if d == c then [] else d ∷ rest

unfoldable pub after_char : ℕ → Str → Str
after_char c [] = []
after_char c (d ∷ s) = let rest = after_char c s in if d == c then s else rest

-- `value.replace("\r\n", "\n").replace("\r", "\n")`, the two calls in one pass.
unfoldable pub normalize_newlines : Str → Str
normalize_newlines [] = []
normalize_newlines (c ∷ []) = (if c == 13 then 10 else c) ∷ []
normalize_newlines (c ∷ d ∷ s) =
    let rest = normalize_newlines (d ∷ s) in
    if c == 13 && d == 10 then rest else (if c == 13 then 10 else c) ∷ rest

unfoldable pub join : Str → List Str → Str
join separator [] = []
join separator (s ∷ []) = s
join separator (s ∷ t ∷ texts) = s ++ (separator ++ join separator (t ∷ texts))

-- `str(n)`: each round writes the last digit. The number itself is fuel enough.
pub decimal_loop : ℕ → ℕ → Str → Str
decimal_loop zero n out = out
decimal_loop (suc fuel) n out =
    let digit = b'0' + n % 10 in
    let more = decimal_loop fuel (n / 10) (digit ∷ out) in if n / 10 == 0 then digit ∷ out else more

unfoldable pub decimal : ℕ → Str
unfolding decimal_loop
decimal n = decimal_loop (suc n) n []

abbrev pub is_digit : ℕ → Bool
is_digit c = leb b'0' c && leb c b'9'

-- `int(s)` of a text of ASCII digits.
unfoldable pub number_from : ℕ → Str → ℕ
number_from n [] = n
number_from n (c ∷ s) = number_from (n * 10 + (c - b'0')) s

-- `s <= t` for texts, by code points.
abbrev pub str_leb : Str → Str → Bool
str_leb [] t = true
str_leb (c ∷ s) [] = false
str_leb (c ∷ s) (d ∷ t) = ltb c d || c == d && str_leb s t

abbrev pub insert_text : Str → List Str → List Str
insert_text s [] = s ∷ []
insert_text s (t ∷ texts) =
    let rest = insert_text s texts in if str_leb s t then s ∷ t ∷ texts else t ∷ rest

-- `sorted(texts)`
unfoldable pub sort_texts : List Str → List Str
sort_texts [] = []
sort_texts (s ∷ texts) = insert_text s (sort_texts texts)
