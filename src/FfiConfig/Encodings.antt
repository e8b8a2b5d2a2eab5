-- ===== src/FfiConfig/Encodings.antt =====
-- The map of column encodings.
use duckdb_lance_conversion.Base.{
  find, suc, ◌≡◌, refl, ap, subst, Bool, true, false, Option, none, some, List, [], ◌∷◌, Str, same,
  All, same_iff, if◌then◌else◌, Bool-cases, arith, length, ◌+◌, inl, inr,
}
use duckdb_lance_conversion.Error.{ok, ok_or, >>=-eq-ok, Message}
use duckdb_lance_conversion.ColumnEncoding.{ColumnEncoding}
use duckdb_lance_conversion.FfiConfig.{
  LanceColumnEncoding, insert_vacant, insert_in_order, has_key, first_values, before,
  column_settings, column_encodings, column_encoding,
}

find_inserted {ℓ} :
    {A : Type ℓ} (k : Str) (a : A) (m : List (Str × A))
    → has_key k m ≡ false
    → find k (insert_in_order k a m) ≡ some a
unfolding insert_in_order has_key
find_inserted k a [] h = rw ((same_iff k k).1 refl) refl
find_inserted k a ((j, b) ∷ m) h = elim (Bool-cases (before k j)) [
  | inl e ↦ rw (e, (same_iff k k).1 refl) refl
  | inr e ↦ elim (Bool-cases (same k j)) [
    | inl s ↦ absurd (ground arith)
    | inr s ↦ rw (e, s) (find_inserted k a m (ground arith))
  ]
]

find-has_key {ℓ} :
    {A : Type ℓ} (k : Str) (b : A) (m : List (Str × A))
    → has_key k m ≡ false
    → find k m ≡ some b
    → ⊥
unfolding has_key
find-has_key k b [] h f = cc
find-has_key k b ((i, c) ∷ m) h f = ground (arith, find-has_key k b m)

find-insert {ℓ} :
    {A : Type ℓ} (k j : Str) (a b : A) (m : List (Str × A))
    → has_key k m ≡ false
    → find j m ≡ some b
    → find j (insert_in_order k a m) ≡ some b
unfolding insert_in_order has_key
find-insert k j a b [] h f = cc
find-insert k j a b ((i, c) ∷ m) h f = elim (Bool-cases (before k i)) [
  | inl e ↦ elim (Bool-cases (same j k)) [
    | inl s ↦
        let e : j ≡ k = (same_iff j k).0 s in
        absurd (find-has_key k b ((i, c) ∷ m) h (subst (λ x. find x ((i, c) ∷ m) ≡ some b) e f))
    | inr s ↦ rw (e, s) f
  ]
  | inr e ↦ elim (Bool-cases (same j i)) [
    | inl s ↦ rw e (ground arith)
    | inr s ↦ rw e (ground (arith, find-insert k j a b m))
  ]
]

length-insert {ℓ} :
    {A : Type ℓ} (k : Str) (a : A) (m : List (Str × A))
    → length (insert_in_order k a m) ≡ suc (length m)
unfolding insert_in_order
length-insert k a [] = refl
length-insert k a ((j, b) ∷ m) = ground (arith, length-insert k a m)

-- The map has the settings of these encodings, each under its own column.
abbrev pub HasAll : List LanceColumnEncoding → List (Str × ColumnEncoding) → Type 0
HasAll es m =
    All (λ e. (s : Str × ColumnEncoding) × (column_settings e ≡ ok s) × (find s.0 m ≡ some s.1)) es

module _ {ℓ} {A : Type ℓ} where
  -- What `insert_vacant` promises.
  abbrev Extends : Str → A → List (Str × A) → List (Str × A) → Type ℓ
  Extends k a m m' =
      (find k m' ≡ some a)
      × ((j : Str) (b : A) → find j m ≡ some b → find j m' ≡ some b)
      × (length m' ≡ suc (length m))

  kept_vacant :
      (c : Bool) (m m' : List (Str × A))
      → (if c then none else some m) ≡ some m'
      → (c ≡ false) × (m ≡ m')
  kept_vacant true m m' e = cc
  kept_vacant false m m' e = (refl, cc)

  insert_vacant-Extends :
      (k : Str) (a : A) (m m' : List (Str × A)) → insert_vacant k a m ≡ some m' → Extends k a m m'
  unfolding insert_vacant
  insert_vacant-Extends k a m m' e =
      let (free, same_map) = kept_vacant (has_key k m) (insert_in_order k a m) m' e in
      subst (Extends k a m) same_map
        (find_inserted k a m free, (λ j b f. find-insert k j a b m free f), length-insert k a m)

some_of : {A : Type 0} (o : Option A) (msg : Message) (a : A) → ok_or o msg ≡ ok a → o ≡ some a
some_of none msg a e = cc
some_of (some b) msg a e = cc

all_values {ℓ} : {A : Type ℓ} (xs : List A) → first_values xs (length xs) ≡ xs
all_values [] = refl
all_values (x ∷ xs) = ap (x ∷◌) (all_values xs)

-- What the loop promises from a map on: all settings are there, the map's own are kept, and each setting
-- makes one entry.
abbrev Loads :
    List LanceColumnEncoding → List (Str × ColumnEncoding) → List (Str × ColumnEncoding) → Type 0
Loads es m m' =
    HasAll es m'
    × ((j : Str) (b : ColumnEncoding) → find j m ≡ some b → find j m' ≡ some b)
    × (length m' ≡ length m + length es)

column_encodings-Loads :
    (m m' : List (Str × ColumnEncoding)) (es : List LanceColumnEncoding)
    → column_encodings m es ≡ ok m'
    → Loads es m m'
unfolding column_encodings
column_encodings-Loads m m' [] e =
    let same_map : m ≡ m' = cc in subst (Loads [] m) same_map (tt, (λ j b f. f), omega arith)
column_encodings-Loads m m' (x ∷ es) e =
    let (s, settled, e') = >>=-eq-ok (column_settings x) _ e in
    let (m1, inserted, e'') = >>=-eq-ok (ok_or (insert_vacant s.0 s.1 m) _) _ e' in
    let (here, kept, one) =
      insert_vacant-Extends s.0 s.1 m m1 (some_of (insert_vacant s.0 s.1 m) _ m1 inserted) in
    let (all, kept', more) = column_encodings-Loads m1 m' es e'' in
    (((s, settled, kept' s.0 s.1 here), all), (λ j b f. kept' j b (kept j b f)), omega arith)

-- An accepted list of column settings becomes a map with the settings of each of them under its column,
-- and with as many entries as settings, so that no column is named twice.
pub column_encoding-HasAll :
    (values : List LanceColumnEncoding) (m : List (Str × ColumnEncoding))
    → column_encoding (some values) (length values) ≡ ok m
    → HasAll values m × (length m ≡ length values)
unfolding column_encoding
column_encoding-HasAll [] m e =
    let same_map : [] ≡ m = cc in subst (λ n. Unit {0} × (length n ≡ 0)) same_map (tt, refl)
column_encoding-HasAll (x ∷ es) m e =
    let e' : column_encodings [] (x ∷ es) ≡ ok m = whole e in
    let (all, _, count) = column_encodings-Loads [] m (x ∷ es) e' in (all, omega arith)
  where
    whole :
        column_encoding (some (x ∷ es)) (suc (length es)) ≡ ok m
        → column_encodings [] (x ∷ es) ≡ ok m
    whole e = rw (← all_values es) e
