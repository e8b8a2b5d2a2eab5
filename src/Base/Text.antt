-- ===== src/Base/Text.antt =====
-- Text that the program walks: the list of its code points.
use Prim.Native.Nat.{ℕ, ◌+◌, ◌-◌, ◌*◌}
use Prim.Native.Char.{code}
use Prim.Native.String.{String}
use mathlib.Core.Path.{◌≡◌, refl}
use mathlib.Core.Logic.{◌↔◌}
use mathlib.Core.Bool.{Bool, true, false, ◌&&◌, ◌||◌}
use mathlib.Core.Option.{Option, none, some}
use mathlib.Core.List.{List, [], ◌∷◌, ◌++◌, map}
use native.Mathlib.Omega.{arith}
use duckdb_lance_conversion.Base.Tests.{leb, ◌==◌, if◌then◌else◌}

abbrev pub Str : Type 0
Str = List ℕ

-- The code points of a literal.
abbrev pub codes : String → Str
codes String.[] = []
codes (String.◌∷◌ c s) = code c ∷ codes s

-- `==` on texts.
unfoldable pub same : Str → Str → Bool
same [] [] = true
same [] (b ∷ bs) = false
same (a ∷ as') [] = false
same (a ∷ as') (b ∷ bs) = a == b && same as' bs

pub same→eq : (xs ys : Str) → same xs ys ≡ true → xs ≡ ys
unfolding same
same→eq [] [] h = refl
same→eq [] (b ∷ bs) h = cc
same→eq (a ∷ as') [] h = cc
same→eq (a ∷ as') (b ∷ bs) h = ground (arith, same→eq as' bs)

pub same_refl : (xs : Str) → same xs xs ≡ true
unfolding same
same_refl [] = refl
same_refl (a ∷ as') = ground (arith, same_refl as')

pub same_iff : (xs ys : Str) → (same xs ys ≡ true) ↔ (xs ≡ ys)
same_iff xs ys = (same→eq xs ys, λ e. ap_same e)
  where
    ap_same : xs ≡ ys → same xs ys ≡ true
    ap_same e = rw e (same_refl ys)

-- `str::starts_with`.
unfoldable pub starts_with : Str → Str → Bool
starts_with [] xs = true
starts_with (p ∷ ps) [] = false
starts_with (p ∷ ps) (x ∷ xs) = p == x && starts_with ps xs

pub starts_with-append : (p xs : Str) → starts_with p (p ++ xs) ≡ true
unfolding starts_with
starts_with-append [] xs = refl
starts_with-append (a ∷ p) xs = ground (arith, starts_with-append p xs)

-- `str::ends_with`: some suffix of the text is the pattern.
unfoldable pub ends_with : Str → Str → Bool
unfolding same
ends_with p [] = same p []
ends_with p (x ∷ xs) = same p (x ∷ xs) || ends_with p xs

-- `to_ascii_lowercase`.
abbrev pub lower_byte : ℕ → ℕ
lower_byte c = if leb b'A' c && leb c b'Z' then c + 32 else c

abbrev pub to_ascii_lowercase : Str → Str
to_ascii_lowercase = map lower_byte

-- `char::is_whitespace`, by its code points.
abbrev pub is_whitespace : ℕ → Bool
is_whitespace c =
    (leb 9 c && leb c 13)
    || c == 32
    || c == 0x85
    || c == 0xa0
    || c == 0x1680
    || (leb 0x2000 c && leb c 0x200a)
    || c == 0x2028
    || c == 0x2029
    || c == 0x202f
    || c == 0x205f
    || c == 0x3000

unfoldable pub trim_start : Str → Str
trim_start [] = []
trim_start (c ∷ cs) = if is_whitespace c then trim_start cs else c ∷ cs

trim_cons : ℕ → Str → Str
trim_cons c [] = if is_whitespace c then [] else c ∷ []
trim_cons c (d ∷ ds) = c ∷ d ∷ ds

unfoldable pub trim_end : Str → Str
unfolding trim_cons
trim_end [] = []
trim_end (c ∷ cs) = trim_cons c (trim_end cs)

-- `str::trim`.
unfoldable pub trim : Str → Str
unfolding trim_start trim_end
trim s = trim_end (trim_start s)

abbrev pub is_digit : ℕ → Bool
is_digit c = leb b'0' c && leb c b'9'

-- The digits of a number, most significant first; `none` at another character or past the limit.
unfoldable pub parse_digits : ℕ → ℕ → Str → Option ℕ
parse_digits limit acc [] = some acc
parse_digits limit acc (c ∷ cs) =
    let rest = parse_digits limit (acc * 10 + (c - b'0')) cs in
    if is_digit c && leb (acc * 10 + (c - b'0')) limit then rest else none

-- `str::parse` into an unsigned integer with the given maximum: an optional `+`, then digits.
unfoldable pub parse_unsigned : ℕ → Str → Option ℕ
unfolding parse_digits
parse_unsigned limit [] = none
parse_unsigned limit (c ∷ []) = parse_digits limit 0 (c ∷ [])
parse_unsigned limit (c ∷ d ∷ ds) =
    if c == b'+' then parse_digits limit 0 (d ∷ ds) else parse_digits limit 0 (c ∷ d ∷ ds)

-- Puts a character before the first of the parts.
abbrev pub prepend : ℕ → List Str → List Str
prepend c [] = (c ∷ []) ∷ []
prepend c (p ∷ ps) = (c ∷ p) ∷ ps

-- `str::split` at a character.
unfoldable pub split : ℕ → Str → List Str
split sep [] = [] ∷ []
split sep (c ∷ cs) = let rest = split sep cs in if c == sep then [] ∷ rest else prepend c rest

-- `str::lines`: split at line feeds, with no last empty line and no carriage return at a line's end.
strip_cr : Str → Str
strip_cr [] = []
strip_cr (c ∷ []) = if c == 13 then [] else c ∷ []
strip_cr (c ∷ d ∷ ds) = c ∷ strip_cr (d ∷ ds)

drop_last_empty : List Str → List Str
drop_last_empty [] = []
drop_last_empty ([] ∷ []) = []
drop_last_empty (l ∷ []) = l ∷ []
drop_last_empty (l ∷ m ∷ ms) = l ∷ drop_last_empty (m ∷ ms)

unfoldable pub lines : Str → List Str
unfolding strip_cr drop_last_empty split
lines s = map strip_cr (drop_last_empty (split 10 s))

-- Texts joined with a separator between them.
unfoldable pub join : ℕ → List Str → Str
join sep [] = []
join sep (p ∷ []) = p
join sep (p ∷ q ∷ ps) = p ++ (sep ∷ join sep (q ∷ ps))

-- The separator does not occur.
abbrev pub Lacks : ℕ → Str → Type 0
Lacks sep [] = Unit {0}
Lacks sep (c ∷ cs) = ((c == sep) ≡ false) × Lacks sep cs

pub split-Lacks : (sep : ℕ) (p : Str) → Lacks sep p → split sep p ≡ p ∷ []
unfolding split
split-Lacks sep [] h = refl
split-Lacks sep (c ∷ cs) h = rw (h.0, split-Lacks sep cs h.1)

pub split-append :
    (sep : ℕ) (p rest : Str) → Lacks sep p → split sep (p ++ (sep ∷ rest)) ≡ p ∷ split sep rest
unfolding split
split-append sep [] rest h = ground arith
split-append sep (c ∷ cs) rest h = rw (h.0, split-append sep cs rest h.1)

-- `BTreeMap::get` and `HashMap::get`, on a map as the list of its entries.
abbrev pub find {ℓ} : {A : Type ℓ} → Str → List (Str × A) → Option A
find k [] = none
find k ((j, a) ∷ m) = if same k j then some a else find k m

-- `str::contains`.
unfoldable pub contains_text : Str → Str → Bool
unfolding starts_with
contains_text p [] = starts_with p []
contains_text p (x ∷ xs) = starts_with p (x ∷ xs) || contains_text p xs

-- `trim_start_matches('/')`, with the character.
unfoldable pub trim_start_matches : ℕ → Str → Str
trim_start_matches c [] = []
trim_start_matches c (x ∷ xs) = if x == c then trim_start_matches c xs else x ∷ xs
