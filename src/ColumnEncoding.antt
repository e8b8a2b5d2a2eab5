-- ===== src/ColumnEncoding.antt =====
-- rust/src/sink/lance/column_encoding.rs: Lance encoding settings, set as metadata on fields that a dotted
-- path names.
pub mod Settings
mod Shape
mod Configure
mod Examples
use duckdb_lance_conversion.Base.{
  ℕ, zero, suc, ◌+◌, ◌/◌, ◌%◌, ◌&&◌, Bool, true, false, Option, none, some, List, [], ◌∷◌, ◌++◌,
  Str, String, codes, same, split, is_empty, get_elem?, set, ltb, if◌then◌else◌,
}
use duckdb_lance_conversion.Arrow.{
  DataType, list, large_list, fixed_size_list, struct, Field, field, Fields, no_fields, fields,
  Metadata, name, metadata, with_metadata, insert_meta, Schema, index_of,
}
use duckdb_lance_conversion.Error.{
  Result, ok, err, ◌>>=◌, ◌>>◌, fail, bail_if, ok_or, lit, txt, Message,
}

pub data StructuralEncoding : Type 0 where
  mini_block full_zip : StructuralEncoding

abbrev pub as_str : StructuralEncoding → Str
as_str mini_block = codes "miniblock"
as_str full_zip = codes "fullzip"

-- A 32-bit signed number: itself, or `negsuc n` for `-1 - n`.
pub data Level : Type 0 where
  pos : ℕ → Level
  negsuc : ℕ → Level

-- `to_string`: ten digits are enough for 32 bits.
digits : ℕ → ℕ → Str
digits zero n = []
digits (suc fuel) n =
    let rest = digits fuel (n / 10) in
    if ltb n 10 then (b'0' + n) ∷ [] else rest ++ ((b'0' + n % 10) ∷ [])

unfoldable pub level_text : Level → Str
unfolding digits
level_text (pos n) = digits 10 n
level_text (negsuc n) = b'-' ∷ digits 10 (suc n)

pub record ColumnEncoding : Type 0 where
  pub compression : Option Str
  pub compression_level : Option Level
  pub structural_encoding : Option StructuralEncoding

abbrev pub insert_some : String → Option Str → Metadata → Metadata
insert_some key none m = m
insert_some key (some value) m = insert_meta (codes key) value m

abbrev pub map_text {κ} : {A : Type κ} → (A → Str) → Option A → Option Str
map_text f none = none
map_text f (some a) = some (f a)

-- The settings that are there, inserted into a field's metadata.
unfoldable pub extend : Metadata → ColumnEncoding → Metadata
unfolding level_text
extend m encoding =
    insert_some "lance-encoding:structural-encoding" (map_text as_str encoding.structural_encoding)
      (insert_some "lance-encoding:compression-level"
        (map_text level_text encoding.compression_level)
        (insert_some "lance-encoding:compression" encoding.compression m))

abbrev pub encoded : Field → ColumnEncoding → Field
encoded f encoding = with_metadata f (extend (metadata f) encoding)

abbrev not_found : {A : Type 0} → Str → Result A
not_found p = fail (lit "column encoding field not found: " ∷ txt p ∷ [])

unfoldable mutual
  pub encode_field : Field → List Str → ColumnEncoding → Result Field
  encode_field (field n t nullable m) [] encoding = ok (encoded (field n t nullable m) encoding)
  encode_field (field n t nullable m) (p ∷ ps) encoding =
      encode_type t p ps encoding >>= (λ t'. ok (field n t' nullable m))

  -- The type of a field, below which the path goes on. A list is crossed without a step of the path.
  pub encode_type : DataType → Str → List Str → ColumnEncoding → Result DataType
  encode_type (struct fs) p ps encoding =
      encode_fields fs p ps encoding >>= (λ fs'. ok (struct fs'))
  encode_type (list f) p ps encoding = encode_field f (p ∷ ps) encoding >>= (λ f'. ok (list f'))
  encode_type (large_list f) p ps encoding =
      encode_field f (p ∷ ps) encoding >>= (λ f'. ok (large_list f'))
  encode_type (fixed_size_list f n) p ps encoding =
      encode_field f (p ∷ ps) encoding >>= (λ f'. ok (fixed_size_list f' n))
  encode_type _ p ps encoding = not_found p

  -- The first field of the name `p`.
  pub encode_fields : Fields → Str → List Str → ColumnEncoding → Result Fields
  encode_fields no_fields p ps encoding = not_found p
  encode_fields (fields f fs) p ps encoding =
      let this = encode_field f ps encoding in
      let rest = encode_fields fs p ps encoding in
      if same (name f) p
      then this >>= (λ f'. ok (fields f' fs))
      else rest >>= (λ fs'. ok (fields f fs'))

abbrev dotted : Option ℕ → List Str → Option (ℕ × List Str)
dotted none ps = none
dotted (some i) ps = some (i, ps)

abbrev nested_path : Schema → List Str → Option (ℕ × List Str)
nested_path s [] = none
nested_path s (p ∷ ps) = dotted (index_of s p) ps

-- An exact name of a column comes first; otherwise the name is a path from a column down.
unfoldable pub locate : Schema → Str → Option (ℕ × List Str)
locate s n = elim (index_of s n) [ some i ↦ some (i, []) | none ↦ nested_path s (split b'.' n) ]

abbrev pub is_some {ℓ} : {A : Type ℓ} → Option A → Bool
is_some none = false
is_some (some a) = true

-- `fields[index]` panics out of range, which `index_of` excludes.
abbrev replace : List Field → ℕ → List Str → ColumnEncoding → Option Field → Result (List Field)
replace fs i path encoding none = ok fs
replace fs i path encoding (some f) = encode_field f path encoding >>= (λ f'. ok (set fs i f'))

-- One round of the loop over the settings.
unfoldable pub encode_column : Schema → List Field → Str × ColumnEncoding → Result (List Field)
encode_column input fs (n, encoding) = do
  found ← ok_or (locate input n) (lit "column encoding column not found: " ∷ txt n ∷ [])
  bail_if ((if is_empty found.1 then false else true) && is_some encoding.structural_encoding)
      (lit "COLUMN_STRUCTURAL_ENCODING applies to top-level columns, not nested fields" ∷ [])
  replace fs found.0 found.1 encoding (get_elem? fs found.0)

unfoldable pub encode_columns :
    Schema → List Field → List (Str × ColumnEncoding) → Result (List Field)
encode_columns input fs [] = ok fs
encode_columns input fs (e ∷ es) = encode_column input fs e >>= (λ fs'. encode_columns input fs' es)

-- The settings stand in the order of their names.
unfoldable pub configure_column_encoding : Schema → List (Str × ColumnEncoding) → Result Schema
unfolding encode_columns
configure_column_encoding input [] = ok input
configure_column_encoding input (e ∷ es) =
    encode_columns input input.columns (e ∷ es)
    >>= (λ fs. ok (record { columns = fs; extra = input.extra }))
