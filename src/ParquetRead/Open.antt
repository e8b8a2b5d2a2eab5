-- ===== src/ParquetRead/Open.antt =====
-- rust/src/source/parquet.rs, `open_parquet_paths`, and rust/src/source/parquet_metadata.rs: the footers of
-- the files, and the stream over their row groups.
mod Progress
mod Requested
mod Stream
mod Projected
mod Examples
use duckdb_lance_conversion.Base.{
  ℕ, zero, suc, ◌+◌, Bool, true, false, ◌⊎◌, inl, inr, Option, none, some, List, [], ◌∷◌, ◌++◌, map,
  length, Str, saturating_add, ◌==◌, if◌then◌else◌,
}
use duckdb_lance_conversion.Error.{Result, ok, err, ◌>>=◌, ◌>>◌, map_ok, bail_if, lit, Message}
use duckdb_lance_conversion.Metrics.{
  and_then, ReadMetrics, set_total_bytes, add_bytes_read, snapshot,
}
use duckdb_lance_conversion.ParquetRead.{
  ColumnProjection, new_projection, project, project_columns, column_chunk_bytes, common_schema,
}
use duckdb_lance_conversion.ParquetRead.RowGroup.{item_of}

-- What the code uses of the crates `parquet` and `futures`. A batch is the list of its arrays, and a schema that
-- of its fields. `load_async` gives the lengths of the reads that it makes of a file, and the footer.
pub record ParquetLibrary : Type 1 where
  pub Field : Type 0
  pub Array : Type 0
  pub Metadata : Type 0
  pub same_schema : List Field → List Field → Bool
  pub load_async : Str → List ℕ × (Message ⊎ Metadata)
  pub schema : Metadata → List Field
  pub chunk_sizes : Metadata → List (List ℕ)
  pub leaf_included : Metadata → List ℕ → ℕ → Bool
  pub build : Str → Metadata → Option (List ℕ) → ℕ → ℕ → Message ⊎ List (Message ⊎ List Array)
  pub flatten_unordered :
      ℕ → List (Result (List (Result (List Array)))) → List (Result (List Array))

-- The reads of `OpendalParquetReader`, each counted once it is done.
unfoldable pub count_reads : ReadMetrics → List ℕ → ReadMetrics
unfolding add_bytes_read
count_reads m [] = m
count_reads m (bytes ∷ reads) = count_reads (add_bytes_read m bytes) reads

-- `try_flatten`: the items of each stream, and the error of one that was not opened.
unfoldable pub try_flatten : {A : Type 0} → List (Result (List (Result A))) → List (Result A)
try_flatten [] = []
try_flatten (err e ∷ streams) = err e ∷ try_flatten streams
try_flatten (ok items ∷ streams) = items ++ try_flatten streams

abbrev pub roots_of : Option ColumnProjection → Option (List ℕ)
roots_of none = none
roots_of (some p) = some p.roots

abbrev pub requested_projection : Option (List ℕ) → Option ColumnProjection
requested_projection none = none
requested_projection (some columns) = new_projection columns

module _ (lib : ParquetLibrary) where
  open lib use {
    Field, Array, Metadata, same_schema, load_async, schema, chunk_sizes, leaf_included, build,
    flatten_unordered,
  }

  abbrev pub Stream : Type 0
  Stream = List (Result (List Array))

  -- The loaded footers in the order of the paths, up to the first that fails.
  unfoldable pub load_files : ReadMetrics → List Str → ReadMetrics × Result (List (Str × Metadata))
  unfolding count_reads
  load_files m [] = (m, ok [])
  load_files m (path ∷ paths) =
      and_then (count_reads m (load_async path).0, item_of (load_async path).1)
        (λ m metadata.
          and_then (load_files m paths) (λ m files. (m, ok ((path, metadata) ∷ files))))

  abbrev pub schemas : List (Str × Metadata) → List (Str × List Field)
  schemas [] = []
  schemas ((path, metadata) ∷ files) = (path, schema metadata) ∷ schemas files

  unfoldable pub load_parquet_metadata :
      ReadMetrics → List Str → ReadMetrics × Result (List Field × List (Str × Metadata))
  unfolding load_files
  load_parquet_metadata m paths =
      and_then (load_files m paths)
        (λ m files. (m, map_ok (λ s. (s, files)) (common_schema same_schema (schemas files))))

  abbrev pub includes : Metadata → Option (List ℕ) → ℕ → Bool
  includes metadata none leaf = true
  includes metadata (some roots) leaf = leaf_included metadata roots leaf

  abbrev pub selected_bytes : Option (List ℕ) → Metadata → ℕ
  selected_bytes roots metadata =
      column_chunk_bytes (chunk_sizes metadata) (includes metadata roots)

  -- The sum over the files.
  unfoldable pub unread_bytes : Option (List ℕ) → List (Str × Metadata) → ℕ → ℕ
  unread_bytes roots [] total = total
  unread_bytes roots ((path, metadata) ∷ files) total =
      unread_bytes roots files (saturating_add total (selected_bytes roots metadata))

  abbrev pub stream_of : Message ⊎ List (Message ⊎ List Array) → Result Stream
  stream_of reader = map_ok (map item_of) (item_of reader)

  -- The streams of a file's row groups: so many of them, from an index. With read-ahead and without, a
  -- stream yields the reader's items in order, unless its task panics.
  unfoldable pub group_streams : Option (List ℕ) → ℕ → Str → Metadata → ℕ → ℕ → List (Result Stream)
  group_streams roots batch_size path metadata index zero = []
  group_streams roots batch_size path metadata index (suc n) =
      stream_of (build path metadata roots batch_size index)
      ∷ group_streams roots batch_size path metadata (suc index) n

  unfoldable pub row_group_streams :
      Option (List ℕ) → ℕ → List (Str × Metadata) → List (Result Stream)
  row_group_streams roots batch_size [] = []
  row_group_streams roots batch_size ((path, metadata) ∷ files) =
      group_streams roots batch_size path metadata 0 (length (chunk_sizes metadata))
      ++ row_group_streams roots batch_size files

  abbrev pub combine : Bool → ℕ → List (Result Stream) → Stream
  combine true parallelism streams = try_flatten streams
  combine false parallelism streams = flatten_unordered parallelism streams

  abbrev pub reorder : Option ColumnProjection → Stream → Stream
  reorder none batches = batches
  reorder (some p) batches = map (λ batch. batch >>= (λ arrays. project arrays p.order)) batches

  abbrev pub open_files :
      ℕ
      → Bool
      → ℕ
      → Option ColumnProjection
      → List (Str × Metadata)
      → ReadMetrics
      → List Field
      → ReadMetrics × Result (List Field × Stream)
  open_files batch_size ordered parallelism projection files m fields = (
    set_total_bytes m
        (saturating_add (snapshot m).bytes_read (unread_bytes (roots_of projection) files 0)),
    ok (
      fields,
      reorder projection
          (combine ordered parallelism (row_group_streams (roots_of projection) batch_size files)),
    ),
  )

  unfoldable pub open_parquet_paths :
      List Str
      → ℕ
      → Bool
      → ℕ
      → Option (List ℕ)
      → ReadMetrics
      → ReadMetrics × Result (List Field × Stream)
  unfolding load_parquet_metadata unread_bytes row_group_streams
  open_parquet_paths paths batch_size ordered parallelism columns m =
      let projection = requested_projection columns in
      and_then (m, bail_if (batch_size == 0) (lit "batch_size must be positive" ∷ []))
        (λ m passed.
          and_then
            (m, bail_if (parallelism == 0) (lit "max_read_parallelism must be positive" ∷ []))
            (λ m passed. and_then (load_parquet_metadata m paths) (λ m loaded.
              and_then (m, project_columns loaded.0 projection)
                (open_files batch_size ordered parallelism projection loaded.1))))
