-- ===== src/Storage/Input.antt =====
-- rust/src/storage.rs: `InputFile`, a file that is read from a path, an `s3://` URI or an HTTP(S) URL.
use duckdb_lance_conversion.Base.{
  ◌||◌, Option, none, some, [], ◌∷◌, Str, trim_start_matches, is_empty, if◌then◌else◌,
}
use duckdb_lance_conversion.Error.{Result, ok, ◌>>=◌, ◌>>◌, map_ok, bail_if, lit, txt}
use duckdb_lance_conversion.Storage.Open.{
  StorageLibrary, S3StorageConfig, OpendalStorage, Config, or_default, is_given, is_http,
  storage_at, http_operator,
}

module _ (lib : StorageLibrary) where
  open lib use {
    Factor, can_wait, is_finite, below_one, above_f32, Url, parse_url, scheme, authority, host_str,
    path, query, fragment, url_text, before_path, from_file_path, to_file_path, is_absolute,
    current_dir, join_path, path_from, from_url_path, percent_decode, Operator, fs_operator,
    s3_operator, http_service, hf_service, layer,
  }

  pub record InputFile : Type 0 where
    pub operator : Operator
    pub opendal_path : Str
    pub uri : Str

  abbrev pub http_input : Str → Url → Config lib → Result InputFile
  http_input p url config = do
    bail_if (is_given lib (query url) || is_given lib (fragment url))
        (lit "HTTP(S) URL must not include a query or fragment: " ∷ txt p ∷ [])
    object_path ← percent_decode (path url)
    operator ← http_operator lib (before_path url) config
    ok (record {
      operator = operator;
      opendal_path = trim_start_matches b'/' object_path;
      uri = url_text url;
    })

  abbrev pub storage_input : OpendalStorage lib → InputFile
  storage_input s = record {
    operator = s.operator;
    opendal_path = s.object_path;
    uri = or_default (to_file_path s.location) (url_text s.location);
  }

  -- The two cases of the `match`: an HTTP(S) URL, and everything else.
  abbrev pub opened_input :
      Str → Option S3StorageConfig → Config lib → Option Url → Result InputFile
  opened_input p s3 config none = map_ok storage_input (storage_at lib p s3 config)
  opened_input p s3 config (some url) =
      if is_http lib (scheme url)
      then http_input p url config
      else map_ok storage_input (storage_at lib p s3 config)

  -- `InputFile::open`.
  unfoldable pub open_input : Str → Option S3StorageConfig → Config lib → Result InputFile
  open_input p s3 config = do
    input ← opened_input p s3 config (parse_url p)
    bail_if (is_empty input.opendal_path) (lit "input must not be a storage root: " ∷ txt p ∷ [])
    ok input
