-- ===== src/Arrow.antt =====
-- The Arrow types that the program matches on (crate `arrow_schema`), with their accessors. A schema's
-- own metadata and the units of time types are kept as data that the program passes through.
use duckdb_lance_conversion.Base.{
  ℕ, suc, Bool, Option, none, some, List, [], ◌∷◌, Str, same, if◌then◌else◌, ◌≡◌, refl, Bool-cases,
  inl, inr, same_refl, same_iff, false,
}

pub data TimeUnit : Type 0 where
  second millisecond microsecond nanosecond : TimeUnit

abbrev pub Metadata : Type 0
Metadata = List (Str × Str)

mutual
  pub data DataType : Type 0 where
    null_type boolean : DataType
    int8 int16 int32 int64 : DataType
    uint8 uint16 uint32 uint64 : DataType
    float16 float32 float64 : DataType
    utf8 large_utf8 utf8_view : DataType
    binary large_binary binary_view : DataType
    fixed_size_binary : ℕ → DataType
    decimal32 decimal64 decimal128 decimal256 : ℕ → DataType
    date32 date64 : DataType
    time32 time64 duration : TimeUnit → DataType
    timestamp : TimeUnit → Option Str → DataType
    interval : ℕ → DataType
    list large_list list_view large_list_view : Field → DataType
    fixed_size_list : Field → ℕ → DataType
    map_type : Field → Bool → DataType
    struct : Fields → DataType
    union : Fields → DataType
    dictionary : DataType → DataType → DataType
    run_end_encoded : Field → Field → DataType

  pub data Field : Type 0 where
    field : Str → DataType → Bool → Metadata → Field

  pub data Fields : Type 0 where
    no_fields : Fields
    fields : Field → Fields → Fields

abbrev pub name : Field → Str
name (field n t b m) = n

abbrev pub data_type : Field → DataType
data_type (field n t b m) = t

abbrev pub is_nullable : Field → Bool
is_nullable (field n t b m) = b

abbrev pub metadata : Field → Metadata
metadata (field n t b m) = m

abbrev pub with_data_type : Field → DataType → Field
with_data_type (field n t b m) t' = field n t' b m

abbrev pub with_metadata : Field → Metadata → Field
with_metadata (field n t b m) m' = field n t b m'

-- `HashMap::get` and `insert` on metadata.
unfoldable pub get_meta : Str → Metadata → Option Str
get_meta k [] = none
get_meta k ((j, v) ∷ m) = if same j k then some v else get_meta k m

unfoldable pub insert_meta : Str → Str → Metadata → Metadata
insert_meta k v [] = (k, v) ∷ []
insert_meta k v ((j, w) ∷ m) = if same j k then (k, v) ∷ m else (j, w) ∷ insert_meta k v m

pub get-insert_meta : (k v : Str) (m : Metadata) → get_meta k (insert_meta k v m) ≡ some v
unfolding get_meta insert_meta
get-insert_meta k v [] = rw (same_refl k) refl
get-insert_meta k v ((j, w) ∷ m) = elim (Bool-cases (same j k)) [
  | inl e ↦ rw e (rw (same_refl k) refl)
  | inr e ↦ rw (e, e) (get-insert_meta k v m)
]

pub get-insert_other :
    (k j v : Str) (m : Metadata) → same j k ≡ false → get_meta k (insert_meta j v m) ≡ get_meta k m
unfolding get_meta insert_meta
get-insert_other k j v [] d = rw d refl
get-insert_other k j v ((i, w) ∷ m) d = elim (Bool-cases (same i j)) [
  | inl e ↦ let i_is : i ≡ j = (same_iff i j).0 e in rw e (rw (d, i_is, d) refl)
  | inr e ↦ elim (Bool-cases (same i k)) [
    | inl f ↦ rw (e, f) refl
    | inr f ↦ rw (e, f) (get-insert_other k j v m d)
  ]
]

pub record Schema : Type 0 where
  pub columns : List Field
  pub extra : Metadata

-- `Schema::index_of`: the first column of the name.
unfoldable pub position_of : Str → List Field → Option ℕ
position_of n [] = none
position_of n (f ∷ fs) =
    if same (name f) n
    then some 0
    else elim (position_of n fs) [ none ↦ none | some i ↦ some (suc i) ]

abbrev pub index_of : Schema → Str → Option ℕ
index_of s n = position_of n s.columns
