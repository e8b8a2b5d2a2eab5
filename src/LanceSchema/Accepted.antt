-- ===== src/LanceSchema/Accepted.antt =====
-- The accepted schemas, described by the parts of their types.
use duckdb_lance_conversion.Base.{
  ◌≡◌, ◌≢◌, ◌↔◌, refl, Bool, true, false, List, [], ◌∷◌, ◌++◌, All, if◌then◌else◌,
}
use duckdb_lance_conversion.Arrow.{
  DataType, null_type, boolean, int8, int16, int32, int64, uint8, uint16, uint32, uint64, float16,
  float32, float64, utf8, large_utf8, utf8_view, binary, large_binary, binary_view,
  fixed_size_binary, decimal32, decimal64, decimal128, decimal256, date32, date64, time32, time64,
  duration, timestamp, interval, list, large_list, list_view, large_list_view, fixed_size_list,
  map_type, struct, union, dictionary, run_end_encoded, Field, field, Fields, no_fields, fields,
  data_type,
}
use duckdb_lance_conversion.Error.{Result, ok, err, ◌>>◌, IsOk}
use duckdb_lance_conversion.LanceSchema.{
  is_dictionary_key_type, validate_type, validate_field, validate_fields, validate_columns,
  validate_schema, unsupported,
}

-- The types that a type is made of, below lists, maps, structs and the values of dictionaries: what is left is
-- a scalar or a container of another kind.
mutual
  pub parts : DataType → List DataType
  parts (list f) = parts_of_field f
  parts (large_list f) = parts_of_field f
  parts (fixed_size_list f n) = parts_of_field f
  parts (map_type f sorted) = parts_of_field f
  parts (struct fs) = parts_of_fields fs
  parts (dictionary key value) = dictionary key null_type ∷ parts value
  parts t = t ∷ []

  pub parts_of_field : Field → List DataType
  parts_of_field (field n t nullable meta) = parts t

  pub parts_of_fields : Fields → List DataType
  parts_of_fields no_fields = []
  parts_of_fields (fields f fs) = parts_of_field f ++ parts_of_fields fs

-- A dictionary stands here for its keys alone.
pub is_plain : DataType → Bool
is_plain null_type = false
is_plain utf8_view = false
is_plain binary_view = false
is_plain (decimal32 n) = false
is_plain (decimal64 n) = false
is_plain (decimal256 n) = false
is_plain (duration u) = false
is_plain (interval n) = false
is_plain (list_view f) = false
is_plain (large_list_view f) = false
is_plain (union fs) = false
is_plain (run_end_encoded f g) = false
is_plain (dictionary key value) = is_dictionary_key_type key
is_plain _ = true

abbrev pub ArePlain : List DataType → Type 0
ArePlain = All (λ t. is_plain t ≡ true)

split_plain : (ts us : List DataType) → ArePlain (ts ++ us) ↔ (ArePlain ts × ArePlain us)
split_plain [] us = (λ h. (tt, h), λ h. h.1)
split_plain (t ∷ ts) us =
    let ih = split_plain ts us in
    (λ h. ((h.0, (ih.0 h.1).0), (ih.0 h.1).1), λ h. (h.0.0, ih.1 (h.0.1, h.1)))

both-IsOk : (r s : Result (Unit {0})) → IsOk (r >> s) ↔ (IsOk r × IsOk s)
both-IsOk (ok a) s = (λ h. (tt, h), λ h. h.1)
both-IsOk (err e) s = (λ h. absurd h, λ h. absurd h.0)

accepted : (b : Bool) → b ≡ true → (Unit {0}) ↔ ((b ≡ true) × Unit {0})
accepted b e = (λ _. (e, tt), λ _. tt)

refused : (b : Bool) → b ≡ false → ⊥ ↔ ((b ≡ true) × Unit {0})
refused b e = (λ o. absurd o, λ h. cc)

keyed :
    (b : Bool) (r : Result (Unit {0})) (P : Type 0)
    → IsOk r ↔ P
    → IsOk (if b then r else unsupported) ↔ ((b ≡ true) × P)
keyed true r P h = (λ o. (refl, h.0 o), λ k. h.1 k.1)
keyed false r P h = (λ o. absurd o, λ k. cc (k.0))

mutual
  unfolding validate_type parts is_plain

  validate_type_iff : (t : DataType) → IsOk (validate_type t) ↔ ArePlain (parts t)
  validate_type_iff (list f) = validate_field_iff f
  validate_type_iff (large_list f) = validate_field_iff f
  validate_type_iff (fixed_size_list f n) = validate_field_iff f
  validate_type_iff (map_type f sorted) = validate_field_iff f
  validate_type_iff (struct fs) = validate_fields_iff fs
  validate_type_iff (dictionary key value) =
      keyed (is_dictionary_key_type key) (validate_type value) (ArePlain (parts value))
        (validate_type_iff value)
  validate_type_iff boolean = accepted true refl
  validate_type_iff int8 = accepted true refl
  validate_type_iff int16 = accepted true refl
  validate_type_iff int32 = accepted true refl
  validate_type_iff int64 = accepted true refl
  validate_type_iff uint8 = accepted true refl
  validate_type_iff uint16 = accepted true refl
  validate_type_iff uint32 = accepted true refl
  validate_type_iff uint64 = accepted true refl
  validate_type_iff float16 = accepted true refl
  validate_type_iff float32 = accepted true refl
  validate_type_iff float64 = accepted true refl
  validate_type_iff utf8 = accepted true refl
  validate_type_iff large_utf8 = accepted true refl
  validate_type_iff binary = accepted true refl
  validate_type_iff large_binary = accepted true refl
  validate_type_iff (fixed_size_binary n) = accepted true refl
  validate_type_iff (decimal128 n) = accepted true refl
  validate_type_iff date32 = accepted true refl
  validate_type_iff date64 = accepted true refl
  validate_type_iff (time32 u) = accepted true refl
  validate_type_iff (time64 u) = accepted true refl
  validate_type_iff (timestamp u _) = accepted true refl
  validate_type_iff null_type = refused false refl
  validate_type_iff utf8_view = refused false refl
  validate_type_iff binary_view = refused false refl
  validate_type_iff (decimal32 n) = refused false refl
  validate_type_iff (decimal64 n) = refused false refl
  validate_type_iff (decimal256 n) = refused false refl
  validate_type_iff (duration u) = refused false refl
  validate_type_iff (interval n) = refused false refl
  validate_type_iff (list_view f) = refused false refl
  validate_type_iff (large_list_view f) = refused false refl
  validate_type_iff (union fs) = refused false refl
  validate_type_iff (run_end_encoded f g) = refused false refl

  validate_field_iff : (f : Field) → IsOk (validate_field f) ↔ ArePlain (parts_of_field f)
  validate_field_iff (field n t nullable meta) = validate_type_iff t

  validate_fields_iff : (fs : Fields) → IsOk (validate_fields fs) ↔ ArePlain (parts_of_fields fs)
  validate_fields_iff no_fields = (λ h. tt, λ h. tt)
  validate_fields_iff (fields f fs) =
      let both = both-IsOk (validate_field f) (validate_fields fs) in
      let halves = split_plain (parts_of_field f) (parts_of_fields fs) in
      let one = validate_field_iff f in
      let rest = validate_fields_iff fs in
      (
        λ o. halves.1 (one.0 (both.0 o).0, rest.0 (both.0 o).1),
        λ h. both.1 (one.1 (halves.0 h).0, rest.1 (halves.0 h).1),
      )

validate_columns_iff :
    (fs : List Field) → IsOk (validate_columns fs) ↔ All (λ f. ArePlain (parts (data_type f))) fs
unfolding validate_columns
validate_columns_iff [] = (λ h. tt, λ h. tt)
validate_columns_iff (f ∷ fs) =
    let both = both-IsOk (validate_type (data_type f)) (validate_columns fs) in
    let one = validate_type_iff (data_type f) in
    let rest = validate_columns_iff fs in
    (λ o. (one.0 (both.0 o).0, rest.0 (both.0 o).1), λ h. both.1 (one.1 h.0, rest.1 h.1))

-- A schema is accepted exactly when it has a column and every part of every column's type is plain, at
-- any depth of lists, maps, structs and dictionaries.
pub validate_schema_iff :
    (fs : List Field)
    → IsOk (validate_schema fs) ↔ ((fs ≢ []) × All (λ f. ArePlain (parts (data_type f))) fs)
unfolding validate_schema
validate_schema_iff [] = (λ o. absurd o, λ h. h.0 refl)
validate_schema_iff (f ∷ fs) =
    let columns = validate_columns_iff (f ∷ fs) in
    (λ o. ((λ e. cc), columns.0 o), λ h. columns.1 h.1)
