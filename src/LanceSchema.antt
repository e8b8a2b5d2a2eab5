-- ===== src/LanceSchema.antt =====
-- rust/src/schema.rs: which Arrow schemas the Lance sink takes.
mod Accepted
mod Examples
use duckdb_lance_conversion.Base.{
  ℕ, Bool, true, false, ◌||◌, List, [], ◌∷◌, ◌++◌, if◌then◌else◌, ◌==◌, ltb, leb, ◌&&◌,
}
use duckdb_lance_conversion.Arrow.{
  DataType, null_type, boolean, int8, int16, int32, int64, uint8, uint16, uint32, uint64, float16,
  float32, float64, utf8, large_utf8, utf8_view, binary, large_binary, binary_view,
  fixed_size_binary, decimal32, decimal64, decimal128, decimal256, date32, date64, time32, time64,
  duration, timestamp, interval, list, large_list, list_view, large_list_view, fixed_size_list,
  map_type, struct, union, dictionary, run_end_encoded, Field, field, Fields, no_fields, fields,
  data_type,
}
use duckdb_lance_conversion.Error.{Result, ok, err, ◌>>=◌, ◌>>◌, fail, lit, Message}

-- `DataType::is_dictionary_key_type`: the integers.
unfoldable pub is_dictionary_key_type : DataType → Bool
is_dictionary_key_type int8 = true
is_dictionary_key_type int16 = true
is_dictionary_key_type int32 = true
is_dictionary_key_type int64 = true
is_dictionary_key_type uint8 = true
is_dictionary_key_type uint16 = true
is_dictionary_key_type uint32 = true
is_dictionary_key_type uint64 = true
is_dictionary_key_type _ = false

-- The printed type in the message is left out.
abbrev pub unsupported : Result (Unit {0})
unsupported = fail (lit "unsupported Arrow type; cast it explicitly" ∷ [])

unfoldable mutual
  pub validate_type : DataType → Result (Unit {0})
  validate_type boolean = ok tt
  validate_type int8 = ok tt
  validate_type int16 = ok tt
  validate_type int32 = ok tt
  validate_type int64 = ok tt
  validate_type uint8 = ok tt
  validate_type uint16 = ok tt
  validate_type uint32 = ok tt
  validate_type uint64 = ok tt
  validate_type float16 = ok tt
  validate_type float32 = ok tt
  validate_type float64 = ok tt
  validate_type utf8 = ok tt
  validate_type large_utf8 = ok tt
  validate_type binary = ok tt
  validate_type large_binary = ok tt
  validate_type (fixed_size_binary n) = ok tt
  validate_type (decimal128 n) = ok tt
  validate_type date32 = ok tt
  validate_type date64 = ok tt
  validate_type (time32 u) = ok tt
  validate_type (time64 u) = ok tt
  validate_type (timestamp u _) = ok tt
  validate_type (list f) = validate_field f
  validate_type (large_list f) = validate_field f
  validate_type (fixed_size_list f n) = validate_field f
  validate_type (map_type f sorted) = validate_field f
  validate_type (dictionary key value) =
      let rest = validate_type value in if is_dictionary_key_type key then rest else unsupported
  validate_type (struct fs) = validate_fields fs
  validate_type _ = unsupported

  pub validate_field : Field → Result (Unit {0})
  validate_field (field n t nullable meta) = validate_type t

  pub validate_fields : Fields → Result (Unit {0})
  validate_fields no_fields = ok tt
  validate_fields (fields f fs) = validate_field f >> validate_fields fs

-- The loop over the columns of the schema.
unfoldable pub validate_columns : List Field → Result (Unit {0})
validate_columns [] = ok tt
validate_columns (f ∷ fs) = validate_type (data_type f) >> validate_columns fs

unfoldable pub validate_schema : List Field → Result (Unit {0})
unfolding validate_columns
validate_schema [] = fail (lit "Lance requires at least one column" ∷ [])
validate_schema (f ∷ fs) = validate_columns (f ∷ fs)
