-- ===== src/ParquetRead/Open/Examples.antt =====
-- One file of two row groups and three columns.
use duckdb_lance_conversion.Base.{
  ℕ, ◌+◌, ◌<◌, ◌≡◌, refl, Bool, true, false, ◌||◌, ◌⊎◌, inl, inr, Option, none, some, List, [], ◌∷◌,
  length, Str, same, ◌≤◌, u64_max, All, codes, ◌==◌, arith,
}
use duckdb_lance_conversion.Error.{Result, ok, err, Message}
use duckdb_lance_conversion.Metrics.{default_metrics, snapshot}
use duckdb_lance_conversion.ParquetRead.{project}
use duckdb_lance_conversion.ParquetRead.Open.{
  ParquetLibrary, count_reads, load_files, open_parquet_paths,
}
use duckdb_lance_conversion.ParquetRead.Open.Progress.{open_parquet_paths-progress}

abbrev contains : List ℕ → ℕ → Bool
contains [] n = false
contains (x ∷ xs) n = x == n || contains xs n

abbrev one_batch : ℕ → List ℕ
one_batch index = index ∷ (index + 10) ∷ (index + 20) ∷ []

abbrev masked : Result (List ℕ) → Message ⊎ List ℕ
masked (ok batch) = inr batch
masked (err e) = inl []

abbrev read_group : Option (List ℕ) → ℕ → Message ⊎ List (Message ⊎ List ℕ)
read_group none index = inr (inr (one_batch index) ∷ [])
read_group (some roots) index = inr (masked (project (one_batch index) roots) ∷ [])

abbrev library : ParquetLibrary
library = record {
  Field = ℕ;
  Array = ℕ;
  Metadata = Unit {0};
  same_schema = same;
  load_async = λ path. (100 ∷ [], inr tt);
  schema = λ metadata. codes "abc";
  chunk_sizes = λ metadata. (5 ∷ 6 ∷ 7 ∷ []) ∷ (1 ∷ 2 ∷ 3 ∷ []) ∷ [];
  leaf_included = λ metadata roots leaf. contains roots leaf;
  build = λ path metadata roots batch_size index. read_group roots index;
  flatten_unordered = λ parallelism streams. [];
}

abbrev paths : List Str
paths = codes "a" ∷ []

abbrev all_columns : List (Result (List ℕ))
all_columns = ok (one_batch 0) ∷ ok (one_batch 1) ∷ []

abbrev opened : List ℕ × List (Result (List ℕ))
opened = (codes "a", ok (0 ∷ []) ∷ ok (1 ∷ []) ∷ [])

opens : (open_parquet_paths library paths 10 true 2 (some (0 ∷ [])) default_metrics).1 ≡ ok opened
unfolding open_parquet_paths duckdb_lance_conversion.ParquetRead.common_schema
    duckdb_lance_conversion.ParquetRead.project_columns
    duckdb_lance_conversion.ParquetRead.new_projection project
    duckdb_lance_conversion.ParquetRead.partition_point
    duckdb_lance_conversion.ParquetRead.Open.try_flatten
    duckdb_lance_conversion.ParquetRead.Open.group_streams
opens = refl

counts :
    (open_parquet_paths library paths 10 true 2 (some (0 ∷ [])) default_metrics).0.bytes_read + 6
    ≤ u64_max
unfolding open_parquet_paths duckdb_lance_conversion.ParquetRead.common_schema
    duckdb_lance_conversion.ParquetRead.project_columns
    duckdb_lance_conversion.ParquetRead.new_projection project
    duckdb_lance_conversion.ParquetRead.partition_point
    duckdb_lance_conversion.Metrics.set_total_bytes duckdb_lance_conversion.Base.wrapping_add
counts = omega arith

loads : (load_files library default_metrics paths).1 ≡ ok ((codes "a", tt) ∷ [])
unfolding load_files
loads = refl

open_parquet_paths-progress_example :
    (snapshot (
      count_reads
        (open_parquet_paths library paths 10 true 2 (some (0 ∷ [])) default_metrics).0
        (5 ∷ 1 ∷ []))).bytes_read
    ≡ (snapshot (
        count_reads
          (open_parquet_paths library paths 10 true 2 (some (0 ∷ [])) default_metrics).0
          (5 ∷ 1 ∷ []))).total_bytes
unfolding duckdb_lance_conversion.ParquetRead.new_projection
open_parquet_paths-progress_example =
    open_parquet_paths-progress library 10 true 2 (some (0 ∷ [])) paths default_metrics
      ((codes "a", tt) ∷ []) opened (5 ∷ 1 ∷ []) loads opens refl counts
