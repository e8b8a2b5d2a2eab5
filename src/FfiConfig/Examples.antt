-- ===== src/FfiConfig/Examples.antt =====
-- The settings of two columns.
use duckdb_lance_conversion.Base.{
  ◌≡◌, refl, false, none, some, List, [], ◌∷◌, Str, String, codes, same, length,
}
use duckdb_lance_conversion.Error.{ok}
use duckdb_lance_conversion.ColumnEncoding.{ColumnEncoding, pos, mini_block}
use duckdb_lance_conversion.FfiConfig.{
  LanceColumnEncoding, column_encoding, structural_encoding, has_key, insert_in_order, before,
}
use duckdb_lance_conversion.FfiConfig.Encodings.{HasAll, column_encoding-HasAll}

abbrev setting : String → LanceColumnEncoding
setting column = record {
  column = some (ok (codes column));
  compression = some (ok (codes "zstd"));
  has_compression_level = false;
  compression_level = pos 0;
  structural = pos 1;
}

abbrev values : List LanceColumnEncoding
values = setting "b" ∷ setting "a" ∷ []

abbrev decoded : ColumnEncoding
decoded = record {
  compression = some (codes "zstd");
  compression_level = none;
  structural_encoding = some mini_block;
}

abbrev encodings : List (Str × ColumnEncoding)
encodings = (codes "a", decoded) ∷ (codes "b", decoded) ∷ []

loaded : column_encoding (some values) (length values) ≡ ok encodings
unfolding column_encoding structural_encoding has_key insert_in_order before same
loaded = refl

column_encoding-HasAll_example : HasAll values encodings × (length encodings ≡ length values)
column_encoding-HasAll_example = column_encoding-HasAll values encodings loaded
