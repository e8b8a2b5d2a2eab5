-- ===== src/Atif/Reader.antt =====
-- rust/src/source/atif.rs, `AtifSource`: opening a file of trajectories.
use duckdb_lance_conversion.Base.{
  ℕ, Bool, true, false, ◌||◌, ◌==◌, Option, none, some, List, [], ◌∷◌, Str, if◌then◌else◌,
}
use duckdb_lance_conversion.Error.{Result, ok, ◌>>=◌, ok_or, lit}
use duckdb_lance_conversion.Arrow.{Field, Schema, index_of}
use duckdb_lance_conversion.Base.{codes}
use duckdb_lance_conversion.Metrics.{ReadMetrics, set_total_bytes, and_then}
use duckdb_lance_conversion.ParquetRead.{project}
use duckdb_lance_conversion.Source.{is_gzipped}
use duckdb_lance_conversion.Storage.Open.{S3StorageConfig, Config}
use duckdb_lance_conversion.Storage.Input.{InputFile, open_input}
use duckdb_lance_conversion.Atif.{InputFormat, input_format}
use duckdb_lance_conversion.Atif.Media.{MediaLibrary, MediaResolver}
use duckdb_lance_conversion.Atif.Schema.{embedded_schema}

abbrev batch_size : ℕ
batch_size = 256

module _ (lib : MediaLibrary) (trajectory_schema : Schema) (available_parallelism : ℕ) where
  open lib use {storage, stat, object}

  pub record AtifSource : Type 0 where
    pub path : Str
    pub format : Option Str
    pub s3_config : Option S3StorageConfig
    pub opendal_config : Config storage
    pub projection : Option (List ℕ)

  unfoldable pub new_source : Config storage → Str → AtifSource
  new_source default_config path = record {
    path = path;
    format = none;
    s3_config = none;
    opendal_config = default_config;
    projection = none;
  }

  -- What the reader of trajectories is made with, and the resolver of their media.
  pub record Trajectories : Type 0 where
    pub chunks : List (List ℕ)
    pub gzipped : Bool
    pub format : InputFormat
    pub rows_per_batch : ℕ
    pub source_uri : Str
    pub projection : Option (List ℕ)
    pub resolver : MediaResolver lib
    pub parallelism : ℕ

  abbrev nonempty : Option (List ℕ) → Option (List ℕ)
  nonempty none = none
  nonempty (some []) = none
  nonempty (some (c ∷ cs)) = some (c ∷ cs)

  abbrev projected : List Field → Option (List ℕ) → Result (List Field)
  projected columns none = ok columns
  projected columns (some is) = project columns is

  abbrev contains : List ℕ → ℕ → Bool
  contains [] i = false
  contains (c ∷ cs) i = c == i || contains cs i

  abbrev includes : Option (List ℕ) → ℕ → Bool
  includes none i = true
  includes (some columns) i = contains columns i

  -- Media are read for one whole document at a time.
  abbrev trajectories :
      AtifSource → InputFile storage → InputFormat → Bool → List (List ℕ) → Trajectories
  trajectories s input format needs_media chunks = record {
    chunks = chunks;
    gzipped = is_gzipped input.opendal_path;
    format = format;
    rows_per_batch = if needs_media then 1 else batch_size;
    source_uri = input.uri;
    projection = nonempty s.projection;
    resolver = record {
      document = input.uri;
      s3_config = s.s3_config;
      opendal_config = s.opendal_config;
    };
    parallelism = if needs_media then 1 else available_parallelism;
  }

  abbrev checked : AtifSource → Result (InputFile storage × InputFormat × List Field)
  checked s = do
    input ← open_input storage s.path s.s3_config s.opendal_config
    format ← input_format input.opendal_path s.format
    columns ← projected (embedded_schema trajectory_schema).columns (nonempty s.projection)
    ok (input, format, columns)

  abbrev open_checked :
      AtifSource
      → ReadMetrics
      → InputFile storage × InputFormat × List Field
      → ReadMetrics × Result (List Field × Trajectories)
  open_checked s m (input, format, columns) =
      and_then (m, stat input.operator input.opendal_path)
        (λ m size.
          and_then (set_total_bytes m size, object input.operator input.opendal_path size)
            (λ m chunks. (
              m,
              (ok_or (index_of (embedded_schema trajectory_schema) (codes "steps"))
                    (lit "Arrow error" ∷ [])
                  >>= (λ media_index. ok (
                    columns,
                    trajectories s input format (includes (nonempty s.projection) media_index)
                        chunks,
                  ))),
            )))

  -- `open`, up to the parser of the trajectories.
  unfoldable pub open_atif :
      AtifSource → ReadMetrics → ReadMetrics × Result (List Field × Trajectories)
  unfolding embedded_schema
  open_atif s m = and_then (m, checked s) (open_checked s)
