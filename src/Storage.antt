-- ===== src/Storage.antt =====
-- rust/src/storage.rs: the policy of the storage operators, and the backend that a path selects.
mod Policy
pub mod Open
pub mod Input
pub mod Provider
mod Stores
mod Backends
mod Inputs
pub mod Sample
mod Examples
use duckdb_lance_conversion.Base.{
  ℕ, Bool, true, false, ◌&&◌, ◌||◌, Option, none, some, List, [], ◌∷◌, Str, String, codes, same,
  ltb, ◌==◌, if◌then◌else◌, u64_max, to_ascii_lowercase, starts_with,
}
use duckdb_lance_conversion.Error.{Result, ok, err, ◌>>=◌, ◌>>◌, fail, bail_if, ok_or, lit, Message}

-- `OpendalConfig`. A factor is a floating-point number, of which the code makes three tests.
pub record OpendalConfig (Factor : Type 0) : Type 0 where
  pub timeout_ms : ℕ
  pub io_timeout_ms : ℕ
  pub retry_max_times : ℕ
  pub retry_min_delay_ms : ℕ
  pub retry_max_delay_ms : ℕ
  pub retry_factor : Factor

abbrev storage_message : String → String → Message
storage_message name m = lit "lance_conversion_storage_" ∷ lit name ∷ lit m ∷ []

-- `can_wait` is whether the clock can add so many milliseconds to now; the others are `is_finite`, `< 1.0` and
-- `> f32::MAX`.
module _ {Factor : Type 0} (can_wait : ℕ → Bool)
    (is_finite below_one above_f32 : Factor → Bool) where
  -- The loop over the durations.
  unfoldable pub check_durations : List (String × ℕ) → Result (Unit {0})
  check_durations [] = ok tt
  check_durations ((name, value) ∷ rest) = do
    bail_if (value == 0) (storage_message name " must be positive")
    bail_if (if can_wait value then false else true) (storage_message name " is too large")
    check_durations rest

  unfoldable pub validate : OpendalConfig Factor → Result (OpendalConfig Factor)
  unfolding check_durations
  validate c = do
    _ ← check_durations (
        ("timeout_ms", c.timeout_ms)
        ∷ ("io_timeout_ms", c.io_timeout_ms)
        ∷ ("retry_min_delay_ms", c.retry_min_delay_ms)
        ∷ ("retry_max_delay_ms", c.retry_max_delay_ms)
        ∷ [])
    bail_if (ltb c.retry_max_delay_ms c.retry_min_delay_ms)
        (storage_message "retry_max_delay_ms" " must be at least retry_min_delay_ms")
    bail_if
        ((if is_finite c.retry_factor then false else true)
          || (below_one c.retry_factor || above_f32 c.retry_factor))
        (storage_message "retry_factor" " must be finite and between 1 and f32::MAX")
    bail_if (ltb u64_max c.retry_max_times) (storage_message "retry_max_times" " is too large")
    ok c

-- `is_s3_uri`. The first five bytes are the first five characters where those are ASCII.
unfoldable pub is_s3_uri : Str → Bool
is_s3_uri path = starts_with (codes "s3://") (to_ascii_lowercase path)

-- `OpendalStorage::from_path`, with the two constructors and the validation of the policy as parameters.
module _ {S3Config Storage : Type 0} (validated : Result (Unit {0}))
    (from_s3_uri : Str → S3Config → Result Storage) (from_local_path : Str → Result Storage) where
  abbrev is_given : Option S3Config → Bool
  is_given none = false
  is_given (some c) = true

  abbrev pub backend : Bool → Str → Option S3Config → Result Storage
  backend true path s3 =
      ok_or s3 (lit "S3 path requires S3 storage configuration" ∷ []) >>= (λ c. from_s3_uri path c)
  backend false path s3 =
      bail_if (is_given s3)
        (lit "S3 storage configuration can only be used with an s3:// path" ∷ [])
      >> from_local_path path

  unfoldable pub from_path : Str → Option S3Config → Result Storage
  unfolding is_s3_uri
  from_path path s3 = validated >> backend (is_s3_uri path) path s3
