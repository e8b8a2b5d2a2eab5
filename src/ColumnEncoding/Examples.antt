-- ===== src/ColumnEncoding/Examples.antt =====
-- A nested field and a column of two, with settings.
use duckdb_lance_conversion.Base.{
  ◌≡◌, refl, true, none, some, List, [], ◌∷◌, map, Str, codes, same, split,
}
use duckdb_lance_conversion.Arrow.{
  Field, field, list, struct, no_fields, fields, utf8, Schema, position_of,
}
use duckdb_lance_conversion.Error.{ok}
use duckdb_lance_conversion.ColumnEncoding.{
  ColumnEncoding, pos, encoded, encode_field, configure_column_encoding, encode_column, locate,
}
use duckdb_lance_conversion.ColumnEncoding.Shape.{
  erase_field, erase_at, field_at, HasSettings, encode_field-HasSettings,
}
use duckdb_lance_conversion.ColumnEncoding.Configure.{configure_column_encoding-shape}

abbrev zstd : ColumnEncoding
zstd = record {
  compression = some (codes "zstd");
  compression_level = some (pos 12);
  structural_encoding = none;
}

abbrev leaf : Field
leaf = field (codes "text") utf8 true []

abbrev with_leaf : Field → Field
with_leaf f =
    field (codes "a") (list (field (codes "item") (struct (fields f no_fields)) true [])) true []

abbrev path : List Str
path = codes "text" ∷ []

encode_leaf : encode_field (with_leaf leaf) path zstd ≡ ok (with_leaf (encoded leaf zstd))
unfolding encode_field same
encode_leaf = refl

encode_field-HasSettings_example :
    (erase_at (with_leaf (encoded leaf zstd)) path ≡ erase_at (with_leaf leaf) path)
    × HasSettings
        (field_at (with_leaf leaf) path)
        (field_at (with_leaf (encoded leaf zstd)) path)
        zstd
encode_field-HasSettings_example =
    encode_field-HasSettings zstd (with_leaf leaf) (with_leaf (encoded leaf zstd)) path encode_leaf

abbrev schema_of : Field → Schema
schema_of f = record { columns = with_leaf f ∷ []; extra = [] }

abbrev settings : List (Str × ColumnEncoding)
settings = (codes "a.text", zstd) ∷ []

configure : configure_column_encoding (schema_of leaf) settings ≡ ok (schema_of (encoded leaf zstd))
unfolding configure_column_encoding encode_column locate encode_field same position_of split
configure = refl

configure_column_encoding-shape_example :
    (map erase_field (schema_of (encoded leaf zstd)).columns
      ≡ map erase_field (schema_of leaf).columns)
    × ((schema_of (encoded leaf zstd)).extra ≡ (schema_of leaf).extra)
configure_column_encoding-shape_example =
    configure_column_encoding-shape (schema_of leaf) (schema_of (encoded leaf zstd)) settings
      configure
