-- ===== src/ColumnStorage/Examples.antt =====
-- A column of links, stored as blobs.
use duckdb_lance_conversion.Base.{◌≡◌, refl, Bool, true, none, some, [], ◌∷◌, map, Str, codes, same}
use duckdb_lance_conversion.Arrow.{
  Field, field, utf8, int64, large_binary, name, Schema, position_of, get_meta,
}
use duckdb_lance_conversion.Error.{ok}
use duckdb_lance_conversion.ColumnStorage.{
  BlobFieldOptions, BlobOptions, blob_schema, stored_field, configure_field, blob_field, is_blob,
  is_binary, ensure_uri_column, dedicated_threshold,
}
use duckdb_lance_conversion.ColumnStorage.Names.{blob_schema-names}

abbrev plain_blob : Str → Bool → BlobFieldOptions → Field
plain_blob n nullable options = field n large_binary nullable []

abbrev two_columns : Field → Schema
two_columns link = record { columns = field (codes "id") int64 true [] ∷ link ∷ []; extra = [] }

abbrev link_blobs : BlobOptions
link_blobs = record {
  blob_inline_size_threshold = none;
  blob_dedicated_size_threshold = some 10;
  blob_columns = codes "link" ∷ [];
}

abbrev input : Schema
input = two_columns (field (codes "link") utf8 true [])

abbrev stored : Schema
stored = two_columns (field (codes "link") large_binary true [])

store : blob_schema plain_blob input link_blobs ≡ ok stored
unfolding blob_schema stored_field configure_field blob_field is_blob is_binary ensure_uri_column
    dedicated_threshold position_of get_meta same
store = refl

blob_schema-names_example :
    (map name stored.columns ≡ map name input.columns) × (stored.extra ≡ input.extra)
blob_schema-names_example =
    blob_schema-names plain_blob (λ n b o. refl) input stored link_blobs store
