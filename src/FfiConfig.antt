-- ===== src/FfiConfig.antt =====
-- rust/src/ffi.rs: the decoders of the configuration that C++ passes. A null pointer is `none`, and a C string
-- is what `CStr::to_str` returns of it. The `i32` and `i64` values are given as `Level`s of the sink.
mod Encodings
mod Examples
use duckdb_lance_conversion.Base.{
  ℕ, zero, suc, ◌-◌, Bool, true, false, ◌&&◌, ◌||◌, Option, none, some, List, [], ◌∷◌, ◌++◌, Str,
  String, same, is_empty, ltb, ◌==◌, if◌then◌else◌, u64_max,
}
use duckdb_lance_conversion.Error.{
  Result, ok, err, ◌>>=◌, ◌>>◌, fail, bail_if, ok_or, lit, txt, num, Message,
}
use duckdb_lance_conversion.ColumnEncoding.{
  ColumnEncoding, StructuralEncoding, mini_block, full_zip, Level, pos, negsuc,
}

abbrev pub CString : Type 0
CString = Option (Result Str)

abbrev nonempty : Str → Option Str
nonempty [] = none
nonempty (c ∷ cs) = some (c ∷ cs)

-- An absent string and an empty one are the same.
unfoldable pub optional_string : CString → Result (Option Str)
optional_string none = ok none
optional_string (some value) = value >>= (λ text. ok (nonempty text))

abbrev required : String → CString → Result Str
required m none = fail (lit m ∷ [])
required m (some value) = value

-- The first `count` values behind a pointer.
unfoldable pub list_values : List CString → ℕ → Result (List Str)
list_values values zero = ok []
list_values [] (suc count) = ok []
list_values (value ∷ values) (suc count) = do
  text ← required "null string list value" value
  rest ← list_values values count
  ok (text ∷ rest)

unfoldable pub string_list : Option (List CString) → ℕ → Result (List Str)
unfolding list_values
string_list values zero = ok []
string_list none (suc count) = fail (lit "null string list" ∷ [])
string_list (some values) (suc count) = list_values values (suc count)

abbrev first_values {ℓ} : {A : Type ℓ} → List A → ℕ → List A
first_values values zero = []
first_values [] (suc count) = []
first_values (value ∷ values) (suc count) = value ∷ first_values values count

unfoldable pub i32_list : Option (List Level) → ℕ → Result (List Level)
i32_list values zero = ok []
i32_list none (suc count) = fail (lit "null integer list" ∷ [])
i32_list (some values) (suc count) = ok (first_values values (suc count))

-- A negative value keeps the default. The platform's `usize` has 64 bits, so that a positive `i64` fits.
unfoldable pub optional_threshold : Level → Message → Bool → Result (Option ℕ)
optional_threshold (negsuc n) name allow_zero = ok none
optional_threshold (pos n) name allow_zero =
    if (n == 0) && (if allow_zero then false else true)
    then fail (name ++ (lit " must be greater than zero" ∷ []))
    else if ltb u64_max n
    then fail (name ++ (lit " exceeds the platform size limit" ∷ []))
    else ok (some n)

pub data IndexKind : Type 0 where
  scalar vector text bloom_filter : IndexKind

unfoldable pub index_kind : Level → Result IndexKind
index_kind (negsuc n) = fail (lit "invalid Lance index kind" ∷ [])
index_kind (pos n) =
    if n == 0
    then ok scalar
    else if n == 1
    then ok vector
    else if n == 2
    then ok text
    else if n == 3
    then ok bloom_filter
    else fail (lit "invalid Lance index kind" ∷ [])

unfoldable pub structural_encoding : Level → Result (Option StructuralEncoding)
structural_encoding (negsuc n) = fail (lit "invalid Lance structural encoding" ∷ [])
structural_encoding (pos n) =
    if n == 0
    then ok none
    else if n == 1
    then ok (some mini_block)
    else if n == 2
    then ok (some full_zip)
    else fail (lit "invalid Lance structural encoding" ∷ [])

pub data WriteMode : Type 0 where
  create append overwrite : WriteMode

unfoldable pub write_mode : Level → Result WriteMode
write_mode (negsuc n) = fail (lit "invalid Lance write mode" ∷ [])
write_mode (pos n) =
    if n == 0
    then ok create
    else if n == 1
    then ok append
    else if n == 2
    then ok overwrite
    else fail (lit "invalid Lance write mode" ∷ [])

-- `zip` of the columns with the kinds.
unfoldable pub zip_kinds : List Str → List Level → Result (List (Str × IndexKind))
unfolding index_kind
zip_kinds [] kinds = ok []
zip_kinds (column ∷ columns) [] = ok []
zip_kinds (column ∷ columns) (kind ∷ kinds) = do
  k ← index_kind kind
  rest ← zip_kinds columns kinds
  ok ((column, k) ∷ rest)

unfoldable pub indexes :
    Option (List CString) → Option (List Level) → ℕ → Result (List (Str × IndexKind))
unfolding string_list i32_list zip_kinds
indexes index_columns index_kinds count = do
  columns ← string_list index_columns count
  kinds ← i32_list index_kinds count
  zip_kinds columns kinds

-- `LanceColumnEncoding`, as C lays it out.
pub record LanceColumnEncoding : Type 0 where
  pub column : CString
  pub compression : CString
  pub has_compression_level : Bool
  pub compression_level : Level
  pub structural : Level

-- `str`'s order, by code points as by the bytes of UTF-8.
unfoldable pub before : Str → Str → Bool
before [] [] = false
before [] (d ∷ ds) = true
before (c ∷ cs) [] = false
before (c ∷ cs) (d ∷ ds) =
    let rest = before cs ds in if ltb c d then true else if c == d then rest else false

unfoldable pub has_key {ℓ} : {A : Type ℓ} → Str → List (Str × A) → Bool
has_key k [] = false
has_key k ((j, b) ∷ m) = same k j || has_key k m

-- A new key goes to its place in the order of the keys.
unfoldable pub insert_in_order {ℓ} : {A : Type ℓ} → Str → A → List (Str × A) → List (Str × A)
insert_in_order k a [] = (k, a) ∷ []
insert_in_order k a ((j, b) ∷ m) =
    if before k j then (k, a) ∷ (j, b) ∷ m else (j, b) ∷ insert_in_order k a m

-- `BTreeMap::entry`: the map with the new key, or `none` where it is occupied.
unfoldable pub insert_vacant {ℓ} : {A : Type ℓ} → Str → A → List (Str × A) → Option (List (Str × A))
insert_vacant k a m = if has_key k m then none else some (insert_in_order k a m)

unfoldable pub column_settings : LanceColumnEncoding → Result (Str × ColumnEncoding)
unfolding optional_string
column_settings encoding = do
  name ← optional_string encoding.column
  column ← ok_or name (lit "column encoding has no column" ∷ [])
  compression ← optional_string encoding.compression
  structural ← structural_encoding encoding.structural
  ok (
    column,
    record {
      compression = compression;
      compression_level =
          if encoding.has_compression_level then some encoding.compression_level else none;
      structural_encoding = structural;
    },
  )

-- The loop over the settings, into the map.
unfoldable pub column_encodings :
    List (Str × ColumnEncoding) → List LanceColumnEncoding → Result (List (Str × ColumnEncoding))
unfolding column_settings insert_vacant
column_encodings encodings [] = ok encodings
column_encodings encodings (e ∷ es) = do
  settings ← column_settings e
  encodings' ←
      ok_or (insert_vacant settings.0 settings.1 encodings)
        (lit "duplicate column encoding column: " ∷ txt settings.0 ∷ [])
  column_encodings encodings' es

unfoldable pub column_encoding :
    Option (List LanceColumnEncoding) → ℕ → Result (List (Str × ColumnEncoding))
unfolding column_encodings
column_encoding values zero = ok []
column_encoding none (suc count) = fail (lit "null column encoding list" ∷ [])
column_encoding (some values) (suc count) = column_encodings [] (first_values values (suc count))
