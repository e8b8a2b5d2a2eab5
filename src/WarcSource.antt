-- ===== src/WarcSource.antt =====
-- rust/src/source/warc.rs, `WarcSource`, rust/src/source/warc_index.rs, `open_indexed_warc`, and `read_object` of
-- rust/src/source/metrics.rs: how a WARC input is opened, and what its stream reads and yields.
mod Progress
mod Examples
use duckdb_lance_conversion.Base.{
  ℕ, suc, ◌+◌, ◌-◌, ◌*◌, Bool, true, false, Option, none, some, List, [], ◌∷◌, ◌++◌, map, length,
  Str, is_empty, saturating_add, ◌==◌, if◌then◌else◌,
}
use duckdb_lance_conversion.Arrow.{Field}
use duckdb_lance_conversion.Error.{
  Error, Result, ok, err, ◌>>=◌, ◌>>◌, map_ok, bail_if, context, lit, txt, error_message, Cause,
}
use duckdb_lance_conversion.Metrics.{
  and_then, ReadMetrics, default_metrics, set_total_bytes, add_bytes_read, add_object,
}
use duckdb_lance_conversion.Source.{
  SourceReadOptions, default_max_read_parallelism, is_gzipped, validate_read_options,
}
use duckdb_lance_conversion.Storage.Open.{
  StorageLibrary, S3StorageConfig, Config, OpendalStorage, storage_at,
}
use duckdb_lance_conversion.Storage.Input.{InputFile, open_input}
use duckdb_lance_conversion.WarcSegment.{WarcSegment, parse, files}
use duckdb_lance_conversion.WarcIndex.{JsonLibrary, Range, parse_warc_index, build_index_work_units}
use duckdb_lance_conversion.WarcSchema.{projected_schema}
use duckdb_lance_conversion.WarcBatch.{WarcRecord, ProjectedColumnBuilder}
use duckdb_lance_conversion.WarcStream.{
  RecordBatch, Ending, finished, dropped, failed, stream_records,
}

-- What the source uses of its crates: the operator's calls, the decoders and the WARC parser. `object` is the
-- chunks that a sequential read of an object receives, and `lines` the decoded lines of an index.
pub record WarcLibrary : Type 1 where
  pub storage : StorageLibrary
  pub json : JsonLibrary
  pub Bytes : Type 0
  pub byte_length : Bytes → ℕ
  pub stat : storage.Operator → Str → Result ℕ
  pub read : storage.Operator → Str → Result Bytes
  pub read_range : storage.Operator → Str → Range → Result Bytes
  pub object : storage.Operator → Str → ℕ → Result (List Bytes)
  pub gunzip : Bytes → Option Str
  pub lines : Bool → Bytes → List (Option Str)
  pub records : Bool → List Bytes → List (Option WarcRecord)
  pub refuses : List Field → List ProjectedColumnBuilder → Option Cause

-- The loop over the units' lengths.
abbrev pub source_length : List Range → ℕ → ℕ
source_length [] total = total
source_length (unit ∷ units) total =
    source_length units (saturating_add total (unit.end - unit.start))

module _ (lib : WarcLibrary) where
  open lib use {
    storage, json, Bytes, byte_length, stat, read, read_range, object, gunzip, lines, records,
    refuses,
  }
  open storage use {Operator}

  pub record WarcSource : Type 0 where
    pub path : Str
    pub batch_size : ℕ
    pub s3_config : Option S3StorageConfig
    pub opendal_config : Config storage
    pub projection : Option (List ℕ)
    pub read_options : SourceReadOptions
    pub index_path : Option Str

  unfoldable pub new_source : Config storage → Str → WarcSource
  new_source default_config path = record {
    path = path;
    batch_size = 8192;
    s3_config = none;
    opendal_config = default_config;
    projection = none;
    read_options = record { max_read_parallelism = default_max_read_parallelism };
    index_path = none;
  }

  abbrev pub Items : Type 0
  Items = List (Result RecordBatch)

  abbrev items_of : List RecordBatch × Ending → Items
  items_of (sent, finished) = map ok sent
  items_of (sent, dropped) = map ok sent
  items_of (sent, failed e) = map ok sent ++ (err e ∷ [])

  -- `spawn_records`, for a consumer that takes all batches: a record sends two at most.
  unfoldable pub spawn_records : ℕ → List ℕ → List Field → List (Option WarcRecord) → Items
  spawn_records batch_size projection schema rs =
      items_of (stream_records refuses batch_size projection schema (2 * length rs + 1) rs)

  -- The counting of `read_object`, chunk by chunk.
  unfoldable pub count_chunks : ReadMetrics → List Bytes → ReadMetrics
  unfolding add_bytes_read
  count_chunks m [] = m
  count_chunks m (chunk ∷ chunks) = count_chunks (add_bytes_read m (byte_length chunk)) chunks

  -- The stream of `read_object`. Its chunks are counted while it is read.
  abbrev pub read_object : Operator → Str → ℕ → Result (List Bytes)
  read_object operator path size = object operator path size

  module _ (operator : Operator) (batch_size : ℕ) (projection : List ℕ) (schema : List Field) where
    abbrev pub unit_items : ReadMetrics → Bool → Result Bytes → ReadMetrics × Items
    unit_items m gzipped (err e) = (m, err e ∷ [])
    unit_items m gzipped (ok bytes) = (
      add_bytes_read m (byte_length bytes),
      spawn_records batch_size projection schema (records gzipped (bytes ∷ [])),
    )

    -- The units' reads and batches, in archive order.
    unfoldable pub indexed_items : ReadMetrics → Str → Bool → List Range → ReadMetrics × Items
    unfolding spawn_records
    indexed_items m path gzipped [] = (m, [])
    indexed_items m path gzipped (unit ∷ units) =
        let (m1, here) = unit_items m gzipped (read_range operator path unit) in
        let (m2, rest) = indexed_items m1 path gzipped units in (m2, here ++ rest)

    abbrev file_items : Str → ReadMetrics → Result (List Bytes) → ReadMetrics × Items
    file_items file m (err e) = (m, context (err e) (txt file ∷ []) ∷ [])
    file_items file m (ok chunks) = (
      count_chunks m chunks,
      map (λ batch. context batch (txt file ∷ []))
          (spawn_records batch_size projection schema (records (is_gzipped file) chunks)),
    )

    abbrev stat_items : ReadMetrics → Str → ℕ → Result ℕ → ReadMetrics × Items
    stat_items m file file_count (err e) = (m, context (err e) (txt file ∷ []) ∷ [])
    stat_items m file file_count (ok size) =
        file_items file (add_object m size file_count) (read_object operator file size)

    -- One file of a segment. The files' streams interleave; each keeps its order.
    unfoldable pub segment_file : ReadMetrics → ℕ → Str → ReadMetrics × Items
    unfolding spawn_records count_chunks
    segment_file m file_count file = stat_items m file file_count (stat operator file)

    unfoldable pub whole_items : ReadMetrics → Bool → List Bytes → ReadMetrics × Items
    unfolding spawn_records count_chunks
    whole_items m gzipped chunks =
        (count_chunks m chunks, spawn_records batch_size projection schema (records gzipped chunks))

  -- What an opened source still has to read.
  pub data Opened : Type 0 where
    segment_files : Operator → List Str → Opened
    work_units : Operator → Str → Bool → List Range → Opened
    whole_file : Bool → List Bytes → Opened

  abbrev pub index_location :
      Str → Option S3StorageConfig → Config storage → Result (Operator × Str)
  index_location index_path s3 config = do
    index ← storage_at storage index_path s3 config
    bail_if (is_empty index.object_path) (lit "WARC index must not be a storage root" ∷ [])
    ok (index.operator, index.object_path)

  abbrev pub planned : Bytes → Bool → Str → ℕ → Result (List Range)
  planned bytes index_gzipped path parallelism =
      parse_warc_index json (lines index_gzipped bytes) path
      >>= (λ entries. build_index_work_units entries parallelism)

  abbrev pub plan_units :
      Operator → Str → ReadMetrics → Bytes → Result (List Range) → ReadMetrics × Result Opened
  plan_units operator path m bytes (err e) = (m, err e)
  plan_units operator path m bytes (ok units) = (
    set_total_bytes m (saturating_add (byte_length bytes) (source_length units 0)),
    ok (work_units operator path (is_gzipped path) units),
  )

  unfoldable pub open_indexed_warc :
      ReadMetrics
      → Operator
      → Str
      → Str
      → Option S3StorageConfig
      → Config storage
      → ℕ
      → ReadMetrics × Result Opened
  open_indexed_warc m operator path index_path s3 config parallelism =
      and_then (m, index_location index_path s3 config)
        (λ m index.
          and_then (m, read index.0 index.1)
            (λ m bytes.
              plan_units operator path (add_bytes_read m (byte_length bytes)) bytes
                (planned bytes (is_gzipped index.1) path parallelism)))

  abbrev pub given : Option Str → Bool
  given none = false
  given (some s) = true

  unfoldable pub open_segment :
      WarcSource → ReadMetrics → WarcSegment → Operator → ReadMetrics × Result Opened
  open_segment s m segment operator = (
    m,
    (bail_if (given s.index_path) (lit "index_path is not supported for WARC segments" ∷ [])
        >> map_ok (segment_files operator) (files (read operator) gunzip segment)),
  )

  abbrev pub open_whole : ReadMetrics → Operator → Str → ReadMetrics × Result Opened
  open_whole m operator path =
      and_then (m, stat operator path)
        (λ m size.
          and_then (set_total_bytes m size, read_object operator path size)
            (λ m chunks. (m, ok (whole_file (is_gzipped path) chunks))))

  abbrev pub open_located :
      WarcSource
      → ReadMetrics
      → Operator
      → Str
      → Option WarcSegment
      → Option Str
      → ReadMetrics × Result Opened
  open_located s m operator path (some segment) index_path = open_segment s m segment operator
  open_located s m operator path none (some index_path) =
      open_indexed_warc m operator path index_path s.s3_config s.opendal_config
        s.read_options.max_read_parallelism
  open_located s m operator path none none = open_whole m operator path

  -- The checks before the input is opened, with its location.
  abbrev pub checked : WarcSource → Result ((List ℕ × List Field) × InputFile storage)
  checked s = do
    bail_if (s.batch_size == 0) (lit "batch_size must be positive" ∷ [])
    _ ← validate_read_options s.read_options
    columns ← projected_schema s.projection
    input ← open_input storage s.path s.s3_config s.opendal_config
    ok (columns, input)

  abbrev pub with_columns :
      List ℕ × List Field
      → ReadMetrics
      → Opened
      → ReadMetrics × Result ((List ℕ × List Field) × Opened)
  with_columns columns m opened = (m, ok (columns, opened))

  abbrev pub open_checked :
      WarcSource
      → ReadMetrics
      → (List ℕ × List Field) × InputFile storage
      → ReadMetrics × Result ((List ℕ × List Field) × Opened)
  open_checked s m c =
      and_then
        (open_located s m c.1.operator c.1.opendal_path (parse c.1.opendal_path) s.index_path)
        (with_columns c.0)

  -- `open`: the columns, the schema, and what is to be read.
  unfoldable pub open_warc :
      WarcSource → ReadMetrics → ReadMetrics × Result ((List ℕ × List Field) × Opened)
  unfolding open_segment open_indexed_warc
  open_warc s m = and_then (m, checked s) (open_checked s)
