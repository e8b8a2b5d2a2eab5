-- ===== src/FfiStorage.antt =====
-- rust/src/ffi.rs: the storage configuration that C++ passes, and the two calls that look for a dataset and
-- clean it up.
mod Cleanup
mod Examples
use duckdb_lance_conversion.Base.{
  ℕ, Bool, true, false, ◌||◌, Option, none, some, List, [], ◌∷◌, ◌++◌, Str, codes, is_empty,
  ends_with, if◌then◌else◌,
}
use duckdb_lance_conversion.Error.{Result, ok, err, ◌>>=◌, ◌>>◌, map_ok, bail_if, fail, lit}
use duckdb_lance_conversion.FfiConfig.{CString, optional_string}
use duckdb_lance_conversion.Storage.Open.{
  StorageLibrary, S3StorageConfig, Config, OpendalStorage, check, storage_at,
}

-- The struct of C++; a flag is set when it is not zero.
pub record LanceS3Config : Type 0 where
  pub endpoint : CString
  pub region : CString
  pub key_id : CString
  pub secret : CString
  pub session_token : CString
  pub use_ssl : Bool
  pub virtual_host_style : Bool

unfoldable pub s3_config : Option LanceS3Config → Result (Option S3StorageConfig)
unfolding optional_string
s3_config none = ok none
s3_config (some config) = do
  endpoint ← optional_string config.endpoint
  region ← optional_string config.region
  key_id ← optional_string config.key_id
  secret ← optional_string config.secret
  session_token ← optional_string config.session_token
  ok (
      some (record {
        endpoint = endpoint;
        region = region;
        key_id = key_id;
        secret = secret;
        session_token = session_token;
        use_ssl = config.use_ssl;
        virtual_host_style = config.virtual_host_style;
      }))

-- What an operator's objects are, and the calls on them. `World` is the contents of all storages.
pub record ObjectLibrary : Type 1 where
  pub storage : StorageLibrary
  pub World : Type 0
  pub holds : World → storage.Operator → Str → Bool
  pub exists : World → storage.Operator → Str → Result Bool
  pub list : World → storage.Operator → Str → Result (List Str)
  pub delete_recursive : World → storage.Operator → Str → World × Result (Unit {0})
  pub default_config : Config storage

module _ (lib : ObjectLibrary) where
  open lib use {storage, World, exists, list, delete_recursive, default_config}

  abbrev or_default_config : Option (Config storage) → Config storage
  or_default_config none = default_config
  or_default_config (some config) = config

  unfoldable pub parse_opendal_config : Option (Config storage) → Result (Config storage)
  parse_opendal_config config = check storage (or_default_config config)

  unfoldable pub dataset_prefix : OpendalStorage storage → Result Str
  unfolding ends_with
  dataset_prefix s = do
    bail_if (if ends_with (codes ".lance") s.object_path then false else true)
        (lit "dataset cleanup requires a .lance destination" ∷ [])
    ok (s.object_path ++ codes "/")

  -- The start of both calls, on a path that is no null pointer: the storage and the dataset's prefix.
  unfoldable pub dataset_at :
      Result Str
      → Option LanceS3Config
      → Option (Config storage)
      → Result (OpendalStorage storage × Str)
  unfolding s3_config parse_opendal_config dataset_prefix
  dataset_at path s3 config = do
    text ← path
    s3' ← s3_config s3
    config' ← parse_opendal_config config
    target ← storage_at storage text s3' config'
    prefix ← dataset_prefix target
    ok (target, prefix)

  abbrev pub found_at : World → OpendalStorage storage × Str → Result Bool
  found_at w (target, prefix) = do
    there ← exists w target.operator prefix
    if there
        then ok true
        else map_ok (λ entries. if is_empty entries then false else true)
            (list w target.operator prefix)

  -- `lance_conversion_dataset_exists`, and what it writes to `exists`.
  unfoldable pub dataset_exists :
      World → CString → Option LanceS3Config → Option (Config storage) → Result Bool
  unfolding dataset_at
  dataset_exists w none s3 config = fail (lit "null dataset existence argument" ∷ [])
  dataset_exists w (some path) s3 config = dataset_at path s3 config >>= found_at w

  abbrev pub remove_at : World → Result (OpendalStorage storage × Str) → World × Result (Unit {0})
  remove_at w (err e) = (w, err e)
  remove_at w (ok (target, prefix)) = delete_recursive w target.operator prefix

  -- `lance_conversion_remove_dataset`.
  unfoldable pub remove_dataset :
      World → CString → Option LanceS3Config → Option (Config storage) → World × Result (Unit {0})
  unfolding dataset_at
  remove_dataset w none s3 config = (w, fail (lit "null dataset cleanup path" ∷ []))
  remove_dataset w (some path) s3 config = remove_at w (dataset_at path s3 config)
