-- ===== src/Source.antt =====
-- rust/src/source.rs: what the sources share. The streams and the gzip reader are other crates'.
use duckdb_lance_conversion.Base.{
  ℕ, Bool, Str, codes, ends_with, to_ascii_lowercase, ◌==◌, [], ◌∷◌, if◌then◌else◌,
}
use duckdb_lance_conversion.Error.{Result, ok, fail, lit}

abbrev pub default_max_read_parallelism : ℕ
default_max_read_parallelism = 8

unfoldable pub is_gzipped : Str → Bool
unfolding ends_with
is_gzipped path = ends_with (codes ".gz") (to_ascii_lowercase path)

pub record SourceReadOptions : Type 0 where
  pub max_read_parallelism : ℕ

unfoldable pub validate_read_options : SourceReadOptions → Result SourceReadOptions
validate_read_options o =
    if o.max_read_parallelism == 0
    then fail (lit "max_read_parallelism must be positive" ∷ [])
    else ok o
