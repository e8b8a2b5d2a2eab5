-- ===== src/ParquetRead/Open/Projected.antt =====
-- A projected scan against the scan of all columns.
use duckdb_lance_conversion.Base.{ℕ, ◌≡◌, true, Option, List, ◌∷◌, map, Str, All}
use duckdb_lance_conversion.Error.{Result, ok, ◌>>=◌, IsOk}
use duckdb_lance_conversion.Metrics.{and_then, ReadMetrics}
use duckdb_lance_conversion.ParquetRead.{ColumnProjection, project, project_columns}
use duckdb_lance_conversion.ParquetRead.Open.{ParquetLibrary, open_files, Stream}
use duckdb_lance_conversion.ParquetRead.Open.Requested.{projected, HasMasks}
use duckdb_lance_conversion.ParquetRead.Open.Stream.{HasSchema}

module _ (lib : ParquetLibrary) where
  open lib use {Field, Array, Metadata, schema, same_schema}

  -- The crate's comparison of schemas is exact.
  abbrev pub IsExact : Type 0
  IsExact = (a b : List Field) → same_schema a b ≡ true → a ≡ b

  module _ (exact : IsExact) where
    abbrev Common : List Field × List (Str × Metadata) → Type 0
    Common (fields, files) = HasSchema lib fields files

    module _ (masks : HasMasks lib) (c : ℕ) (cs : List ℕ) (batch_size parallelism : ℕ) where
      abbrev finish :
          Option ColumnProjection
          → ReadMetrics × Result (List Field × List (Str × Metadata))
          → ReadMetrics × Result (List Field × Stream lib)
      finish projection l = and_then l (λ m loaded.
          and_then (m, project_columns loaded.0 projection)
            (open_files lib batch_size true parallelism projection loaded.1))

      -- The second result is the first one, which yields no error, with the requested columns.
      abbrev Projects : Result (List Field × Stream lib) → Result (List Field × Stream lib) → Type 0
      Projects all some_columns =
          (o : List Field × Stream lib)
          → all ≡ ok o
          → All IsOk o.1
          → some_columns ≡ (project o.0 (c ∷ cs) >>= (λ fs. ok (fs, map (projected (c ∷ cs)) o.1)))
