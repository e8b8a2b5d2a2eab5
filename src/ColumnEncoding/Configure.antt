-- ===== src/ColumnEncoding/Configure.antt =====
-- The shape of a schema under encoding settings.
use duckdb_lance_conversion.Base.{
  ℕ, zero, suc, ◌≡◌, ◌∙◌, refl, ap, true, false, some, List, [], ◌∷◌, map, Str, get_elem?, set,
  if◌then◌else◌, inl, inr, is_empty, ◌&&◌, Option-cases,
}
use duckdb_lance_conversion.Arrow.{Field, Schema}
use duckdb_lance_conversion.Error.{
  ok, Yields, Yields-bind, Yields-ok, Yields-map, Yields-trivial, ok_or, bail_if,
}
use duckdb_lance_conversion.ColumnEncoding.{
  ColumnEncoding, encode_field, encode_column, encode_columns, configure_column_encoding, replace,
  locate, is_some,
}
use duckdb_lance_conversion.ColumnEncoding.Shape.{erase_field, KeptField, encode_field-Kept}

set-erase :
    (fs : List Field) (i : ℕ) (f f' : Field)
    → get_elem? fs i ≡ some f
    → erase_field f' ≡ erase_field f
    → map erase_field (set fs i f') ≡ map erase_field fs
set-erase [] i f f' e k = refl
set-erase (g ∷ gs) zero f f' e k = ap (λ h. h ∷ map erase_field gs) (cc (e, k))
set-erase (g ∷ gs) (suc i) f f' e k = ap (erase_field g ∷◌) (set-erase gs i f f' e k)

abbrev SameShape : List Field → List Field → Type 0
SameShape fs gs = map erase_field gs ≡ map erase_field fs

replace-SameShape :
    (fs : List Field) (i : ℕ) (path : List Str) (encoding : ColumnEncoding)
    → Yields (SameShape fs) (replace fs i path encoding (get_elem? fs i))
replace-SameShape fs i path encoding = elim (Option-cases (get_elem? fs i)) [
  | inl e ↦ rw e refl
  | inr (f, e) ↦ rw e (
      Yields-bind (KeptField f path encoding) (SameShape fs) (encode_field f path encoding) _
        (encode_field-Kept encoding f path) λ f' k. set-erase fs i f f' e k.0)
]

encode_column-SameShape :
    (input : Schema) (fs : List Field) (e : Str × ColumnEncoding)
    → Yields (SameShape fs) (encode_column input fs e)
unfolding encode_column
encode_column-SameShape input fs (n, encoding) =
    Yields-bind _ (SameShape fs) (ok_or (locate input n) _) _
      (Yields-trivial (ok_or (locate input n) _))
      λ found _.
        Yields-bind _ (SameShape fs)
          (bail_if
            ((if is_empty found.1 then false else true) && is_some encoding.structural_encoding) _)
          _ (Yields-trivial (bail_if _ _)) λ _ _. replace-SameShape fs found.0 found.1 encoding

encode_columns-SameShape :
    (input : Schema) (fs : List Field) (es : List (Str × ColumnEncoding))
    → Yields (SameShape fs) (encode_columns input fs es)
unfolding encode_columns
encode_columns-SameShape input fs [] = refl
encode_columns-SameShape input fs (e ∷ es) =
    Yields-bind (SameShape fs) (SameShape fs) (encode_column input fs e) _
      (encode_column-SameShape input fs e)
      λ gs k.
        Yields-map (SameShape gs) (SameShape fs) (encode_columns input gs es) (λ hs j. j ∙ k)
          (encode_columns-SameShape input gs es)

-- Whatever settings are configured, the schema keeps its columns in number, order, name, nullability and
-- type, and its own metadata.
pub configure_column_encoding-shape :
    (input output : Schema) (es : List (Str × ColumnEncoding))
    → configure_column_encoding input es ≡ ok output
    → (map erase_field output.columns ≡ map erase_field input.columns)
      × (output.extra ≡ input.extra)
unfolding configure_column_encoding
configure_column_encoding-shape input output [] e = (cc, cc)
configure_column_encoding-shape input output (e ∷ es) done =
    Yields-ok
      (λ (s : Schema).
        (map erase_field s.columns ≡ map erase_field input.columns) × (s.extra ≡ input.extra))
      (configure_column_encoding input (e ∷ es)) output done
      (Yields-bind (SameShape input.columns) _ (encode_columns input input.columns (e ∷ es)) _
        (encode_columns-SameShape input input.columns (e ∷ es)) λ fs k. (k, refl))
