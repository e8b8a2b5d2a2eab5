-- ===== src/Storage/Examples.antt =====
-- The default policy, with factors counted in halves, and a library with URLs of a scheme, a host and a path.
use duckdb_lance_conversion.Base.{
  ◌≡◌, ℕ, ◌↔◌, Bool, true, false, ltb, Option, none, some, List, [], ◌∷◌, ◌++◌, Str, codes,
  if◌then◌else◌,
}
use duckdb_lance_conversion.Error.{IsOk}
use duckdb_lance_conversion.Storage.{OpendalConfig, validate}
use duckdb_lance_conversion.Storage.Open.{StorageLibrary, Layers, S3Builder, HfBuilder}
use duckdb_lance_conversion.Storage.Input.{InputFile}
use duckdb_lance_conversion.Storage.Provider.{new_provider, store_key, create_store, object_store}
use duckdb_lance_conversion.Storage.Sample.{
  always, below_two, above, default_config, page, bucket, ftp, library,
}
use duckdb_lance_conversion.Storage.Stores.{run, answer, first_store, object_store_refines}
use duckdb_lance_conversion.Storage.Policy.{IsPolicy, validate_iff}

validate_iff_example :
    IsOk (validate always always below_two above default_config)
    ↔ IsPolicy always always below_two above default_config
validate_iff_example = validate_iff always always below_two above default_config

-- A URL of no known scheme, a bucket and a page; the bucket's store is used again.
object_store_refines_example :
    (object_store library
      (run library (new_provider library none default_config) (ftp ∷ bucket ∷ page ∷ []))
      bucket).1
    ≡ answer library
        (first_store library
          (new_provider library none default_config)
          (store_key library bucket)
          (ftp ∷ bucket ∷ page ∷ []))
        (create_store library (new_provider library none default_config) bucket)
object_store_refines_example =
    object_store_refines library none default_config (ftp ∷ bucket ∷ page ∷ []) bucket

abbrev page_input : InputFile library
page_input = record {
  operator = codes "http://h";
  opendal_path = codes "a";
  uri = codes "http://h/a";
}
