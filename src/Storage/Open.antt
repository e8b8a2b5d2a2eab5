-- ===== src/Storage/Open.antt =====
-- rust/src/storage.rs: the operators behind local paths, `s3://` URIs and HTTP(S) URLs.
use duckdb_lance_conversion.Base.{
  ℕ, Bool, true, false, ◌&&◌, ◌||◌, Option, none, some, [], ◌∷◌, ◌++◌, Str, codes, same,
  contains_text, trim_start_matches, if◌then◌else◌,
}
use duckdb_lance_conversion.Error.{
  Result, ok, err, ◌>>=◌, ◌>>◌, map_ok, bail_if, ok_or, context, lit, txt, from_cause, parse_error,
}
use duckdb_lance_conversion.Storage.{OpendalConfig, validate, from_path}

pub record S3StorageConfig : Type 0 where
  pub endpoint : Option Str
  pub region : Option Str
  pub key_id : Option Str
  pub secret : Option Str
  pub session_token : Option Str
  pub use_ssl : Bool
  pub virtual_host_style : Bool

unfoldable pub default_s3_config : S3StorageConfig
default_s3_config = record {
  endpoint = none;
  region = none;
  key_id = none;
  secret = none;
  session_token = none;
  use_ssl = true;
  virtual_host_style = false;
}

-- The calls that the code makes on the S3 builder of OpenDAL, beside those it always makes.
pub record S3Builder : Type 0 where
  pub bucket : Str
  pub region : Str
  pub endpoint : Option Str
  pub access_key_id : Option Str
  pub secret_access_key : Option Str
  pub session_token : Option Str
  pub skip_signature : Bool
  pub virtual_host_style : Bool

-- The calls that it makes on the builder of a Hugging Face operator, beside those it always makes.
pub record HfBuilder : Type 0 where
  pub repo_id : Str
  pub revision : Str
  pub token : Option Str

-- The settings of the timeout and retry layers, in the order in which the operator gets them.
pub record Layers (Factor : Type 0) : Type 0 where
  pub timeout : ℕ
  pub io_timeout : ℕ
  pub max_times : ℕ
  pub min_delay : ℕ
  pub max_delay : ℕ
  pub factor : Factor

-- What the code uses of the crates `url`, `opendal`, `object_store` and of the standard library's paths.
pub record StorageLibrary : Type 1 where
  pub Factor : Type 0
  pub can_wait : ℕ → Bool
  pub is_finite : Factor → Bool
  pub below_one : Factor → Bool
  pub above_f32 : Factor → Bool
  pub Url : Type 0
  pub parse_url : Str → Option Url
  pub scheme : Url → Str
  pub authority : Url → Str
  pub host_str : Url → Option Str
  pub path : Url → Str
  pub query : Url → Option Str
  pub fragment : Url → Option Str
  pub url_text : Url → Str
  pub before_path : Url → Str
  pub from_file_path : Str → Option Url
  pub to_file_path : Url → Option Str
  pub is_absolute : Str → Bool
  pub current_dir : Result Str
  pub join_path : Str → Str → Str
  pub path_from : Str → Str
  pub from_url_path : Str → Option Str
  pub percent_decode : Str → Result Str
  pub Operator : Type 0
  pub fs_operator : Result Operator
  pub s3_operator : S3Builder → Result Operator
  pub http_service : Str → Result Operator
  pub hf_service : HfBuilder → Result Operator
  pub layer : Layers Factor → Operator → Operator

abbrev pub nonempty_text : Option Str → Option Str
nonempty_text none = none
nonempty_text (some []) = none
nonempty_text (some (c ∷ cs)) = some (c ∷ cs)

abbrev pub or_default : {A : Type 0} → Option A → A → A
or_default none d = d
or_default (some a) d = a

abbrev is_none : {A : Type 0} → Option A → Bool
is_none none = true
is_none (some a) = false

unfoldable pub endpoint_url : Bool → Str → Str
endpoint_url use_ssl endpoint =
    if contains_text (codes "://") endpoint
    then endpoint
    else if use_ssl
    then codes "https://" ++ endpoint
    else codes "http://" ++ endpoint

abbrev map_endpoint : Bool → Option Str → Option Str
map_endpoint use_ssl none = none
map_endpoint use_ssl (some endpoint) = some (endpoint_url use_ssl endpoint)

-- The builder of an S3 operator.
unfoldable pub s3_builder : Str → S3StorageConfig → S3Builder
s3_builder bucket c = record {
  bucket = bucket;
  region = or_default c.region (codes "us-east-1");
  endpoint = map_endpoint c.use_ssl c.endpoint;
  access_key_id = c.key_id;
  secret_access_key = c.secret;
  session_token = c.session_token;
  skip_signature = is_none c.key_id && (is_none c.secret && is_none c.session_token);
  virtual_host_style = c.virtual_host_style;
}

module _ (lib : StorageLibrary) where
  open lib use {
    Factor, can_wait, is_finite, below_one, above_f32, Url, parse_url, scheme, authority, host_str,
    path, query, fragment, url_text, before_path, from_file_path, to_file_path, is_absolute,
    current_dir, join_path, path_from, from_url_path, percent_decode, Operator, fs_operator,
    s3_operator, http_service, hf_service, layer,
  }

  -- `OpendalStorage`; its object store is the operator in another wrapping.
  pub record OpendalStorage : Type 0 where
    pub operator : Operator
    pub object_path : Str
    pub location : Url

  abbrev pub Config : Type 0
  Config = OpendalConfig Factor

  abbrev pub check : Config → Result Config
  check = validate can_wait is_finite below_one above_f32

  abbrev pub layers : Config → Layers Factor
  layers c = record {
    timeout = c.timeout_ms;
    io_timeout = c.io_timeout_ms;
    max_times = c.retry_max_times;
    min_delay = c.retry_min_delay_ms;
    max_delay = c.retry_max_delay_ms;
    factor = c.retry_factor;
  }

  -- `OpendalConfig::apply`.
  unfoldable pub apply : Config → Operator → Result Operator
  apply c operator = check c >>= (λ c'. ok (layer (layers c') operator))

  abbrev pub absolute_path : Str → Result Str
  absolute_path p = if is_absolute p then ok p else map_ok (λ dir. join_path dir p) current_dir

  unfoldable pub from_local_path : Str → Result OpendalStorage
  from_local_path p = do
    absolute ← absolute_path p
    location ←
        ok_or (from_file_path absolute) (lit "invalid local storage path: " ∷ txt absolute ∷ [])
    operator ← context fs_operator (lit "initializing OpenDAL local storage" ∷ [])
    ok (record {
      operator = operator;
      object_path = path_from (trim_start_matches b'/' absolute);
      location = location;
    })

  abbrev pub parsed : Option Url → Result Url
  parsed none = err (from_cause (parse_error []))
  parsed (some u) = ok u

  unfoldable pub from_s3_uri : Str → S3StorageConfig → Config → Result OpendalStorage
  unfolding s3_builder
  from_s3_uri uri s3 config = do
    location ← context (parsed (parse_url uri)) (lit "invalid S3 URI" ∷ [])
    bail_if (if same (scheme location) (codes "s3") then false else true)
        (lit "expected an s3:// URI" ∷ [])
    bucket ← ok_or (nonempty_text (host_str location)) (lit "S3 URI must include a bucket" ∷ [])
    built ←
        context (s3_operator (s3_builder bucket s3)) (lit "initializing OpenDAL S3 storage" ∷ [])
    operator ← apply config built
    object_path ← ok_or (from_url_path (path location)) (lit "invalid S3 object path" ∷ [])
    ok (record { operator = operator; object_path = object_path; location = location })

  abbrev pub done : {A : Type 0} → Result A → Result (Unit {0})
  done (ok a) = ok tt
  done (err e) = err e

  -- `OpendalStorage::from_path` with its constructors.
  abbrev pub storage_at : Str → Option S3StorageConfig → Config → Result OpendalStorage
  storage_at p s3 config =
      from_path (done (check config)) (λ uri c. from_s3_uri uri c config) from_local_path p s3

  unfoldable pub http_operator : Str → Config → Result Operator
  unfolding apply
  http_operator endpoint config = http_service endpoint >>= (λ operator. apply config operator)

  unfoldable pub huggingface_operator : Str → Str → Option Str → Config → Result Operator
  unfolding apply
  huggingface_operator dataset revision token config =
      hf_service (record { repo_id = dataset; revision = revision; token = token })
      >>= (λ operator. apply config operator)

  abbrev pub is_http : Str → Bool
  is_http s = same s (codes "http") || same s (codes "https")

  abbrev pub is_given : Option Str → Bool
  is_given none = false
  is_given (some s) = true
