-- ===== src/Storage/Sample.antt =====
-- A small library of URLs with a scheme, a host and a path, for the tests.
use duckdb_lance_conversion.Base.{
  ℕ, Bool, true, ltb, Option, none, some, [], ◌++◌, Str, codes, same, if◌then◌else◌,
}
use duckdb_lance_conversion.Error.{ok}
use duckdb_lance_conversion.Storage.{OpendalConfig}
use duckdb_lance_conversion.Storage.Open.{StorageLibrary}

abbrev pub always : ℕ → Bool
always n = true

abbrev pub below_two : ℕ → Bool
below_two n = ltb n 2

abbrev pub above : ℕ → Bool
above n = ltb 1000 n

abbrev pub default_config : OpendalConfig ℕ
default_config = record {
  timeout_ms = 60000;
  io_timeout_ms = 10000;
  retry_max_times = 3;
  retry_min_delay_ms = 1000;
  retry_max_delay_ms = 60000;
  retry_factor = 4;
}

pub record PlainUrl : Type 0 where
  pub scheme : Str
  pub host : Str
  pub path : Str

abbrev pub page : PlainUrl
page = record { scheme = codes "http"; host = codes "h"; path = codes "/a" }

abbrev pub bucket : PlainUrl
bucket = record { scheme = codes "s3"; host = codes "b"; path = codes "/x" }

abbrev pub ftp : PlainUrl
ftp = record { scheme = codes "ftp"; host = codes "h"; path = codes "/x" }

abbrev pub before : PlainUrl → Str
before u = u.scheme ++ (codes "://" ++ u.host)

abbrev pub whole : PlainUrl → Str
whole u = before u ++ u.path

abbrev pub parse_plain : Str → Option PlainUrl
parse_plain s =
    if same s (whole page) then some page else if same s (whole bucket) then some bucket else none

-- An operator is named by its service.
abbrev pub library : StorageLibrary
library = record {
  Factor = ℕ;
  can_wait = always;
  is_finite = always;
  below_one = below_two;
  above_f32 = above;
  Url = PlainUrl;
  parse_url = parse_plain;
  scheme = λ u. u.scheme;
  authority = λ u. u.host;
  host_str = λ u. some u.host;
  path = λ u. u.path;
  query = λ u. none;
  fragment = λ u. none;
  url_text = whole;
  before_path = before;
  from_file_path = λ s. some (record { scheme = codes "file"; host = []; path = s });
  to_file_path = λ u. if same u.scheme (codes "file") then some u.path else none;
  is_absolute = λ s. true;
  current_dir = ok (codes "/");
  join_path = λ a b. a ++ b;
  path_from = λ s. s;
  from_url_path = λ s. some s;
  percent_decode = λ s. ok s;
  Operator = Str;
  fs_operator = ok (codes "fs");
  s3_operator = λ b. ok b.bucket;
  http_service = λ e. ok e;
  hf_service = λ b. ok b.repo_id;
  layer = λ l o. o;
}
