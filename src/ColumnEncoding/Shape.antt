-- ===== src/ColumnEncoding/Shape.antt =====
-- What encoding a field changes.
use duckdb_lance_conversion.Base.{
  ◌≡◌, refl, sym, ap, subst, true, false, Option, none, some, List, [], ◌∷◌, Str, same,
  if◌then◌else◌, Bool-cases, inl, inr,
}
use duckdb_lance_conversion.Arrow.{
  DataType, list, large_list, fixed_size_list, struct, Field, binary, binary_view, boolean, date32,
  date64, decimal128, decimal256, decimal32, decimal64, dictionary, duration, fixed_size_binary,
  float16, float32, float64, int16, int32, int64, int8, interval, large_binary, large_list_view,
  large_utf8, list_view, map_type, null_type, run_end_encoded, time32, time64, timestamp, uint16,
  uint32, uint64, uint8, union, utf8, utf8_view, field, Fields, no_fields, fields, name, metadata,
}
use duckdb_lance_conversion.Error.{ok, ◌>>=◌, Yields, Yields-bind, Yields-ok, Yields-map}
use duckdb_lance_conversion.ColumnEncoding.{
  ColumnEncoding, encoded, encode_field, encode_type, encode_fields,
}
use duckdb_lance_conversion.ColumnEncoding.Settings.{Extends, extend-Extends}

-- A field without the metadata of itself and of the fields that a path reaches.
mutual
  pub erase_field : Field → Field
  erase_field (field n t nullable m) = field n (erase_type t) nullable []

  pub erase_type : DataType → DataType
  erase_type (struct fs) = struct (erase_fields fs)
  erase_type (list f) = list (erase_field f)
  erase_type (large_list f) = large_list (erase_field f)
  erase_type (fixed_size_list f n) = fixed_size_list (erase_field f) n
  erase_type t = t

  pub erase_fields : Fields → Fields
  erase_fields no_fields = no_fields
  erase_fields (fields f fs) = fields (erase_field f) (erase_fields fs)

-- The field that a path names below a field.
mutual
  pub field_at : Field → List Str → Option Field
  field_at f [] = some f
  field_at (field n t nullable m) (p ∷ ps) = type_at t p ps

  pub type_at : DataType → Str → List Str → Option Field
  type_at (struct fs) p ps = fields_at fs p ps
  type_at (list f) p ps = field_at f (p ∷ ps)
  type_at (large_list f) p ps = field_at f (p ∷ ps)
  type_at (fixed_size_list f n) p ps = field_at f (p ∷ ps)
  type_at t p ps = none

  pub fields_at : Fields → Str → List Str → Option Field
  fields_at no_fields p ps = none
  fields_at (fields f fs) p ps =
      let this = field_at f ps in
      let rest = fields_at fs p ps in if same (name f) p then this else rest

-- A field without the metadata of the field that a path names; all others keep theirs.
mutual
  pub erase_at : Field → List Str → Field
  erase_at (field n t nullable m) [] = field n t nullable []
  erase_at (field n t nullable m) (p ∷ ps) = field n (erase_type_at t p ps) nullable m

  pub erase_type_at : DataType → Str → List Str → DataType
  erase_type_at (struct fs) p ps = struct (erase_fields_at fs p ps)
  erase_type_at (list f) p ps = list (erase_at f (p ∷ ps))
  erase_type_at (large_list f) p ps = large_list (erase_at f (p ∷ ps))
  erase_type_at (fixed_size_list f n) p ps = fixed_size_list (erase_at f (p ∷ ps)) n
  erase_type_at t p ps = t

  pub erase_fields_at : Fields → Str → List Str → Fields
  erase_fields_at no_fields p ps = no_fields
  erase_fields_at (fields f fs) p ps =
      let this = erase_at f ps in
      let rest = erase_fields_at fs p ps in
      if same (name f) p then fields this fs else fields f rest

-- The named field is there before and after, and got the settings.
abbrev pub HasSettings : Option Field → Option Field → ColumnEncoding → Type 0
HasSettings before after encoding =
    (g : Field) × (g' : Field) × (before ≡ some g)
    × (after ≡ some g')
    × Extends encoding (metadata g) (metadata g')

erase-name : (f g : Field) → erase_field f ≡ erase_field g → name f ≡ name g
unfolding erase_field
erase-name (field n t b m) (field n' t' b' m') e = cc

encoded-erase :
    (f : Field) (encoding : ColumnEncoding) → erase_field (encoded f encoding) ≡ erase_field f
unfolding erase_field
encoded-erase (field n t b m) encoding = refl

abbrev pub KeptField : Field → List Str → ColumnEncoding → Field → Type 0
KeptField f path encoding f' =
    (erase_field f' ≡ erase_field f)
    × (erase_at f' path ≡ erase_at f path)
    × HasSettings (field_at f path) (field_at f' path) encoding

abbrev KeptType : DataType → Str → List Str → ColumnEncoding → DataType → Type 0
KeptType t p ps encoding t' =
    (erase_type t' ≡ erase_type t)
    × (erase_type_at t' p ps ≡ erase_type_at t p ps)
    × HasSettings (type_at t p ps) (type_at t' p ps) encoding

abbrev KeptFields : Fields → Str → List Str → ColumnEncoding → Fields → Type 0
KeptFields fs p ps encoding fs' =
    (erase_fields fs' ≡ erase_fields fs)
    × (erase_fields_at fs' p ps ≡ erase_fields_at fs p ps)
    × HasSettings (fields_at fs p ps) (fields_at fs' p ps) encoding

module _ (encoding : ColumnEncoding) where
  KeptFields-head :
      (f f' : Field) (fs : Fields) (p : Str) (ps : List Str)
      → same (name f) p ≡ true
      → KeptField f ps encoding f'
      → KeptFields (fields f fs) p ps encoding (fields f' fs)
  unfolding erase_fields erase_fields_at fields_at
  KeptFields-head f f' fs p ps e (k, l, h) =
      rw (erase-name f' f k, e) (ap (λ g. fields g (erase_fields fs)) k, ap (λ g. fields g fs) l, h)

  KeptFields-tail :
      (f : Field) (fs fs' : Fields) (p : Str) (ps : List Str)
      → same (name f) p ≡ false
      → KeptFields fs p ps encoding fs'
      → KeptFields (fields f fs) p ps encoding (fields f fs')
  unfolding erase_fields erase_fields_at fields_at
  KeptFields-tail f fs fs' p ps e (k, l, h) =
      rw e (ap (fields (erase_field f)) k, ap (fields f) l, h)

  mutual
    unfolding encode_field erase_field erase_at field_at

    pub encode_field-Kept :
        (f : Field) (path : List Str)
        → Yields (KeptField f path encoding) (encode_field f path encoding)
    encode_field-Kept (field n t b m) [] = (
      refl,
      refl,
      (field n t b m, encoded (field n t b m) encoding, refl, refl, extend-Extends encoding m),
    )
    encode_field-Kept (field n t b m) (p ∷ ps) =
        Yields-bind (KeptType t p ps encoding) (KeptField (field n t b m) (p ∷ ps) encoding)
          (encode_type t p ps encoding) _ (encode_type-Kept t p ps)
          λ t' k. (ap (λ u. field n u b []) k.0, ap (λ u. field n u b m) k.1, k.2)

    encode_type-Kept :
        (t : DataType) (p : Str) (ps : List Str)
        → Yields (KeptType t p ps encoding) (encode_type t p ps encoding)
    encode_type-Kept (struct fs) p ps =
        Yields-bind (KeptFields fs p ps encoding) (KeptType (struct fs) p ps encoding)
          (encode_fields fs p ps encoding) _ (encode_fields-Kept fs p ps)
          λ fs' k. (ap struct k.0, ap struct k.1, k.2)
    encode_type-Kept (list f) p ps =
        Yields-bind (KeptField f (p ∷ ps) encoding) (KeptType (list f) p ps encoding)
          (encode_field f (p ∷ ps) encoding) _ (encode_field-Kept f (p ∷ ps))
          λ f' k. (ap list k.0, ap list k.1, k.2)
    encode_type-Kept (large_list f) p ps =
        Yields-bind (KeptField f (p ∷ ps) encoding) (KeptType (large_list f) p ps encoding)
          (encode_field f (p ∷ ps) encoding) _ (encode_field-Kept f (p ∷ ps))
          λ f' k. (ap large_list k.0, ap large_list k.1, k.2)
    encode_type-Kept (fixed_size_list f n) p ps =
        Yields-bind (KeptField f (p ∷ ps) encoding) (KeptType (fixed_size_list f n) p ps encoding)
          (encode_field f (p ∷ ps) encoding) _ (encode_field-Kept f (p ∷ ps))
          λ f' k. (ap (λ g. fixed_size_list g n) k.0, ap (λ g. fixed_size_list g n) k.1, k.2)
    encode_type-Kept null_type p ps = tt
    encode_type-Kept boolean p ps = tt
    encode_type-Kept int8 p ps = tt
    encode_type-Kept int16 p ps = tt
    encode_type-Kept int32 p ps = tt
    encode_type-Kept int64 p ps = tt
    encode_type-Kept uint8 p ps = tt
    encode_type-Kept uint16 p ps = tt
    encode_type-Kept uint32 p ps = tt
    encode_type-Kept uint64 p ps = tt
    encode_type-Kept float16 p ps = tt
    encode_type-Kept float32 p ps = tt
    encode_type-Kept float64 p ps = tt
    encode_type-Kept utf8 p ps = tt
    encode_type-Kept large_utf8 p ps = tt
    encode_type-Kept utf8_view p ps = tt
    encode_type-Kept binary p ps = tt
    encode_type-Kept large_binary p ps = tt
    encode_type-Kept binary_view p ps = tt
    encode_type-Kept (fixed_size_binary n) p ps = tt
    encode_type-Kept (decimal32 n) p ps = tt
    encode_type-Kept (decimal64 n) p ps = tt
    encode_type-Kept (decimal128 n) p ps = tt
    encode_type-Kept (decimal256 n) p ps = tt
    encode_type-Kept date32 p ps = tt
    encode_type-Kept date64 p ps = tt
    encode_type-Kept (time32 u) p ps = tt
    encode_type-Kept (time64 u) p ps = tt
    encode_type-Kept (duration u) p ps = tt
    encode_type-Kept (timestamp u _) p ps = tt
    encode_type-Kept (interval n) p ps = tt
    encode_type-Kept (list_view f) p ps = tt
    encode_type-Kept (large_list_view f) p ps = tt
    encode_type-Kept (map_type f b) p ps = tt
    encode_type-Kept (union fs) p ps = tt
    encode_type-Kept (dictionary k v) p ps = tt
    encode_type-Kept (run_end_encoded f g) p ps = tt

    encode_fields-Kept :
        (fs : Fields) (p : Str) (ps : List Str)
        → Yields (KeptFields fs p ps encoding) (encode_fields fs p ps encoding)
    encode_fields-Kept no_fields p ps = tt
    encode_fields-Kept (fields f fs) p ps =
        let this = encode_field-Kept f ps in
        let rest = encode_fields-Kept fs p ps in
        elim (Bool-cases (same (name f) p)) [
          | inl e ↦
              subst (Yields (KeptFields (fields f fs) p ps encoding))
                (sym (
                  ap
                    (λ c.
                      if c
                      then encode_field f ps encoding >>= (λ f'. ok (fields f' fs))
                      else encode_fields fs p ps encoding >>= (λ fs'. ok (fields f fs')))
                    e))
                (Yields-bind (KeptField f ps encoding) (KeptFields (fields f fs) p ps encoding)
                  (encode_field f ps encoding) _ this λ f' k. KeptFields-head f f' fs p ps e k)
          | inr e ↦
              subst (Yields (KeptFields (fields f fs) p ps encoding))
                (sym (
                  ap
                    (λ c.
                      if c
                      then encode_field f ps encoding >>= (λ f'. ok (fields f' fs))
                      else encode_fields fs p ps encoding >>= (λ fs'. ok (fields f fs')))
                    e))
                (Yields-bind (KeptFields fs p ps encoding) (KeptFields (fields f fs) p ps encoding)
                  (encode_fields fs p ps encoding) _ rest
                  λ fs' k. KeptFields-tail f fs fs' p ps e k)
        ]

  -- Encoding a field changes nothing but the metadata of the field that the path names, list containers
  -- crossed: there each setting that is given stands under its key, and all other entries are as before.
  pub encode_field-HasSettings :
      (f f' : Field) (path : List Str)
      → encode_field f path encoding ≡ ok f'
      → (erase_at f' path ≡ erase_at f path)
        × HasSettings (field_at f path) (field_at f' path) encoding
  encode_field-HasSettings f f' path e =
      Yields-ok
        (λ (g : Field).
          (erase_at g path ≡ erase_at f path)
          × HasSettings (field_at f path) (field_at g path) encoding)
        (encode_field f path encoding) f' e
        (Yields-map (KeptField f path encoding) _ (encode_field f path encoding) (λ g k. (k.1, k.2))
          (encode_field-Kept f path))
