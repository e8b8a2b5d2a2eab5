-- ===== src/Storage/Inputs.antt =====
-- What an opened input file guarantees.
use duckdb_lance_conversion.Base.{
  All, ◌++◌, ◌≡◌, ◌⊎◌, true, false, Option, none, some, [], ◌∷◌, Str, trim_start_matches, ◌==◌,
}
use duckdb_lance_conversion.Error.{ok}
use duckdb_lance_conversion.Storage.Open.{
  StorageLibrary, S3StorageConfig, OpendalStorage, Config, is_http,
}
use duckdb_lance_conversion.Storage.Backends.{IsLayered, IsStorage}
use duckdb_lance_conversion.Storage.Input.{InputFile}

abbrev pub HasNoLead : Str → Type 0
HasNoLead [] = Unit {0}
HasNoLead (c ∷ cs) = (c == b'/') ≡ false

module _ (lib : StorageLibrary) where
  open lib use {
    Url, parse_url, query, fragment, scheme, url_text, path, before_path, percent_decode,
    to_file_path, Operator, http_service,
  }

  -- The input is the object that an HTTP(S) URL without query and fragment names, read from the URL's own
  -- server: the operator serves what is before the URL's path, and the object is that path, decoded and without its
  -- leading slashes.
  pub record IsHttpInput (p : Str) (config : Config lib) (input : InputFile lib) : Type 0 where
    pub url : Url
    pub parses : parse_url p ≡ some url
    pub remote : is_http lib (scheme url) ≡ true
    pub no_query : query url ≡ none
    pub no_fragment : fragment url ≡ none
    pub text : input.uri ≡ url_text url
    pub service : Operator
    pub served : http_service (before_path url) ≡ ok service
    pub layered : IsLayered lib config service input.operator
    pub slashes : Str
    pub lead_slashes : All (λ c. c ≡ b'/') slashes
    pub decodes : percent_decode (path url) ≡ ok (slashes ++ input.opendal_path)
    pub lead : HasNoLead input.opendal_path

  -- The input is the object of a bucket or a file of the machine, under its local path or its URL.
  abbrev pub IsStorageInput : Str → Option S3StorageConfig → Config lib → InputFile lib → Type 0
  IsStorageInput p s3 config input =
      (s : OpendalStorage lib) × IsStorage lib p s3 config s
      × (input.operator ≡ s.operator)
      × (input.opendal_path ≡ s.object_path)
      × ((to_file_path s.location ≡ some input.uri)
          ⊎ ((to_file_path s.location ≡ none) × (input.uri ≡ url_text s.location)))

  -- The path is no HTTP(S) URL.
  abbrev pub IsNoHttp : Str → Type 0
  IsNoHttp p = (url : Url) → parse_url p ≡ some url → is_http lib (scheme url) ≡ false

  abbrev input_at : Url → Str → lib.Operator → InputFile lib
  input_at url object_path o = record {
    operator = o;
    opendal_path = trim_start_matches b'/' object_path;
    uri = url_text url;
  }
