-- ===== src/Storage/Provider.antt =====
-- rust/src/storage.rs: `OpendalStoreProvider`, the stores of one write.
use duckdb_lance_conversion.Base.{
  find, ◌||◌, Option, none, some, List, [], ◌∷◌, ◌++◌, Str, codes, same, if◌then◌else◌,
}
use duckdb_lance_conversion.Error.{Result, ok, err, ◌>>◌, map_ok, fail, bail_if, lit, txt}
use duckdb_lance_conversion.Storage.Open.{
  StorageLibrary, S3StorageConfig, OpendalStorage, Config, default_s3_config, or_default, is_given,
  is_http, from_local_path, from_s3_uri, http_operator,
}

module _ (lib : StorageLibrary) where
  open lib use {
    Factor, can_wait, is_finite, below_one, above_f32, Url, parse_url, scheme, authority, host_str,
    path, query, fragment, url_text, before_path, from_file_path, to_file_path, is_absolute,
    current_dir, join_path, path_from, from_url_path, percent_decode, Operator, fs_operator,
    s3_operator, http_service, hf_service, layer,
  }

  -- `OpendalStoreProvider`: what it was made with, and the stores so far. A store is its operator; the
  -- tracker that wraps it only counts.
  pub record StoreProvider : Type 0 where
    pub s3_config : S3StorageConfig
    pub opendal_config : Config lib
    pub stores : List (Str × Operator)

  unfoldable pub new_provider : Option S3StorageConfig → Config lib → StoreProvider
  unfolding default_s3_config
  new_provider s3 config = record {
    s3_config = or_default s3 default_s3_config;
    opendal_config = config;
    stores = [];
  }

  abbrev pub store_key : Url → Str
  store_key url = scheme url ++ (b'$' ∷ authority url)

  -- The store of a URL that the provider has none for.
  unfoldable pub create_store : StoreProvider → Url → Result Operator
  create_store p url =
      if same (scheme url) (codes "file")
      then map_ok (λ (s : OpendalStorage lib). s.operator) (from_local_path lib (codes "/"))
      else if same (scheme url) (codes "s3")
      then map_ok (λ (s : OpendalStorage lib). s.operator)
          (from_s3_uri lib (url_text url) p.s3_config p.opendal_config)
      else if is_http lib (scheme url)
      then http_operator lib (before_path url) p.opendal_config
      else fail (lit "unsupported storage scheme: " ∷ txt (scheme url) ∷ [])

  abbrev pub insert_store : StoreProvider → Str → Result Operator → StoreProvider × Result Operator
  insert_store p key (err e) = (p, err e)
  insert_store p key (ok store) = (record p { stores = (key, store) ∷ p.stores }, ok store)

  abbrev pub cached_store : StoreProvider → Url → Option Operator → StoreProvider × Result Operator
  cached_store p url (some store) = (p, ok store)
  cached_store p url none = insert_store p (store_key url) (create_store p url)

  -- `object_store`, under the lock of the stores.
  unfoldable pub object_store : StoreProvider → Url → StoreProvider × Result Operator
  object_store p url = cached_store p url (find (store_key url) p.stores)

  abbrev pub extracted : Option Str → Str → Result Str
  extracted none text = fail (lit "invalid path in URI " ∷ txt text ∷ [])
  extracted (some p) text = ok p

  -- `extract_path`.
  unfoldable pub extract_path : Url → Result Str
  extract_path url = do
    bail_if (is_given lib (query url) || is_given lib (fragment url))
        (lit "storage URI must not have a query or fragment: " ∷ txt (url_text url) ∷ [])
    extracted (from_url_path (path url)) (url_text url)
