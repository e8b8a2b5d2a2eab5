-- ===== src/LanceDataset.antt =====
-- rust/src/sink/lance/dataset.rs and rust/src/sink/lance.rs: the checks before a dataset write, and its commit.
-- The concurrent fragment writers are those of LanceWriter.
mod Generated
mod Publish
mod Created
mod Examples
use duckdb_lance_conversion.Base.{
  find, ℕ, Bool, true, false, ◌&&◌, Option, none, some, List, [], ◌∷◌, ◌++◌, map, Str, codes, same,
  is_empty, if◌then◌else◌,
}
use duckdb_lance_conversion.Arrow.{Field, Schema, Metadata, name, metadata, get_meta}
use duckdb_lance_conversion.Error.{
  Result, ok, err, ◌>>=◌, ◌>>◌, map_ok, bail_if, ok_or, fail, context, lit, Message,
}
use duckdb_lance_conversion.LanceSchema.{validate_schema}
use duckdb_lance_conversion.ColumnStorage.{BlobOptions, BlobFieldOptions, blob_schema}
use duckdb_lance_conversion.ColumnEncoding.{ColumnEncoding, configure_column_encoding}
use duckdb_lance_conversion.FfiConfig.{IndexKind}
use duckdb_lance_conversion.LanceIndex.{new_plan, create}
use duckdb_lance_conversion.LanceWriter.{Operation, DatasetWrite, count_batch, commit_transaction}
use duckdb_lance_conversion.Storage.{is_s3_uri}
use duckdb_lance_conversion.Storage.Open.{
  StorageLibrary, S3StorageConfig, Config, OpendalStorage, storage_at,
}

pub data WriteMode : Type 0 where
  create_mode append_mode overwrite_mode : WriteMode

-- A field of a dataset, as far as the checks look.
abbrev pub Named : Type 0
Named = Str × Metadata

abbrev generated_key : Str
generated_key = codes "lance_conversion:generated_expression"

abbrev add_expression : Str → Option Str → List (Str × Str) → List (Str × Str)
add_expression n none m = m
add_expression n (some expression) m = (n, expression) ∷ m

-- The generated columns with their expressions, in a map: of equal names the last one counts, and stands first.
unfoldable pub generated : List (Str × Str) → List Named → List (Str × Str)
generated m [] = m
generated m ((n, md) ∷ fields) = generated (add_expression n (get_meta generated_key md) m) fields

abbrev same_entry : Option Str → Option Str → Bool
same_entry none none = true
same_entry none (some b) = false
same_entry (some a) none = false
same_entry (some a) (some b) = same a b

-- `==` on maps, asked of each key of a list.
unfoldable pub agree_on : List (Str × Str) → List (Str × Str) → List (Str × Str) → Bool
agree_on a b [] = true
agree_on a b ((k, v) ∷ keys) = same_entry (find k a) (find k b) && agree_on a b keys

abbrev pub same_map : List (Str × Str) → List (Str × Str) → Bool
same_map a b = agree_on a b (a ++ b)

unfoldable pub validate_generated_columns : List Named → List Named → Result (Unit {0})
unfolding generated agree_on
validate_generated_columns dataset schema =
    bail_if (if same_map (generated [] dataset) (generated [] schema) then false else true)
      (lit "GENERATED_COLUMNS definitions differ from the existing Lance dataset" ∷ [])

abbrev pub named : Field → Named
named f = (name f, metadata f)

unfoldable pub write_context : WriteMode → Message
write_context create_mode = lit "creating Lance dataset" ∷ []
write_context append_mode = lit "appending to Lance dataset" ∷ []
write_context overwrite_mode = lit "overwriting Lance dataset" ∷ []

-- What loading the destination finds.
pub data Loaded (Dataset : Type 0) : Type 0 where
  found : Dataset → Loaded Dataset
  not_found : Loaded Dataset
  load_failed : Message → Loaded Dataset

-- How writing data files ends: `execute_uncommitted_stream` panics or returns.
pub data Inserted (Fragment : Type 0) : Type 0 where
  panicked : Inserted Fragment
  inserted : Result (Operation Fragment) → Inserted Fragment

-- What became a version of the dataset: the rows of a write, or an index.
pub data Publication (Fragment : Type 0) : Type 0 where
  rows_published : Operation Fragment → Publication Fragment
  index_published : Str × IndexKind → Publication Fragment

-- What the code uses of the crate `lance`.
pub record LanceLibrary : Type 1 where
  pub storage : StorageLibrary
  pub Dataset : Type 0
  pub Fragment : Type 0
  pub Version : Type 0
  pub blob_field_with_options : Str → Bool → BlobFieldOptions → Field
  pub dataset_fields : Dataset → List Named
  pub load : storage.Url → Loaded Dataset
  pub parse_version : Str → Result Version
  pub insert_empty : Option Dataset → Schema → Inserted Fragment
  pub execute : Option Dataset → Operation Fragment → Result Dataset
  pub create_index : Dataset → Str → IndexKind → ℕ → Result Dataset
  pub count_rows : Dataset → Result ℕ
  pub stats : ℕ × ℕ

module _ (lib : LanceLibrary) where
  open lib use {
    storage, Dataset, Fragment, Version, blob_field_with_options, dataset_fields, load,
    parse_version, insert_empty, execute, create_index, count_rows, stats,
  }

  pub record WriteOptions : Type 0 where
    pub mode : WriteMode
    pub s3_config : Option S3StorageConfig
    pub opendal_config : Config storage
    pub blobs : BlobOptions
    pub target_file_size : ℕ
    pub storage_version : Str
    pub column_encoding : List (Str × ColumnEncoding)
    pub indexes : List (Str × IndexKind)

  unfoldable pub default_options : Config storage → WriteOptions
  default_options opendal_config = record {
    mode = create_mode;
    s3_config = none;
    opendal_config = opendal_config;
    blobs = record {
      blob_inline_size_threshold = some 2_097_152;
      blob_dedicated_size_threshold = some 16_777_216;
      blob_columns = [];
    };
    target_file_size = 536_870_912;
    storage_version = codes "2.2";
    column_encoding = [];
    indexes = [];
  }

  -- The schema of `configure_column_storage`'s stream.
  unfoldable pub stored_schema : Schema → WriteOptions → Result Schema
  stored_schema schema options = do
    blobs ← blob_schema blob_field_with_options schema options.blobs
    configure_column_encoding blobs options.column_encoding

  abbrev pub existing : Loaded Dataset → Result (Option Dataset)
  existing (found dataset) = ok (some dataset)
  existing not_found = ok none
  existing (load_failed m) = context (fail m) (lit "opening Lance destination" ∷ [])

  abbrev pub check_appended : WriteMode → Option Dataset → Schema → Result (Unit {0})
  check_appended create_mode dataset schema = ok tt
  check_appended overwrite_mode dataset schema = ok tt
  check_appended append_mode none schema = ok tt
  check_appended append_mode (some dataset) schema =
      validate_generated_columns (dataset_fields dataset) (map named schema.columns)

  -- `ExternalBlobMode`.
  pub data BlobMode : Type 0 where
    reference ingest : BlobMode

  -- `LanceDatasetWriter`, before any fragment is written.
  pub record DatasetWriter : Type 0 where
    pub location : storage.Url
    pub dataset : Option Dataset
    pub options : WriteOptions
    pub max_bytes_per_file : ℕ
    pub data_storage_version : Version
    pub external_blob_mode : BlobMode
    pub schema : Schema
    pub indexes : List (Str × IndexKind)

  abbrev pub s3_for : Str → Option S3StorageConfig → Option S3StorageConfig
  s3_for path config = if is_s3_uri path then config else none

  -- `LanceDatasetWriter::create`; a destination that is not UTF-8 is `none`.
  unfoldable pub create_writer : Option Str → Schema → WriteOptions → Result DatasetWriter
  unfolding stored_schema
  create_writer destination schema options = do
    _ ← validate_schema schema.columns
    path ← ok_or destination (lit "destination must be valid UTF-8" ∷ [])
    target ← storage_at storage path (s3_for path options.s3_config) options.opendal_config
    bail_if (is_empty target.object_path) (lit "Lance destination must not be a storage root" ∷ [])
    stored ← stored_schema schema options
    indexes ← new_plan stored options.indexes
    dataset ← existing (load target.location)
    _ ← check_appended options.mode dataset schema
    version ← parse_version options.storage_version
    ok (record {
      location = target.location;
      dataset = dataset;
      options = options;
      max_bytes_per_file = options.target_file_size;
      data_storage_version = version;
      external_blob_mode = if is_empty options.blobs.blob_columns then reference else ingest;
      schema = schema;
      indexes = indexes;
    })

  unfoldable pub count_batches : DatasetWrite Fragment → List ℕ → DatasetWrite Fragment
  unfolding count_batch
  count_batches w [] = w
  count_batches w (rows ∷ batches) = count_batches (count_batch w rows) batches

  abbrev pub write_result : WriteMode → Inserted Fragment → Result (Operation Fragment)
  write_result mode panicked = fail (lit "Lance writer task panicked" ∷ [])
  write_result mode (inserted r) = context r (write_context mode)

  abbrev pub written :
      WriteMode
      → DatasetWrite Fragment
      → List ℕ
      → (Schema → Inserted Fragment)
      → Result Schema
      → DatasetWrite Fragment × Result (Operation Fragment)
  written mode w batches insert (err e) = (w, err e)
  written mode w batches insert (ok stored) =
      (count_batches w batches, write_result mode (insert stored))

  -- `write_fragments`, on the numbers of rows of the batches that the builder takes from its stream, and on how the
  -- builder ends for the stored schema.
  unfoldable pub write_fragments :
      DatasetWriter
      → DatasetWrite Fragment
      → List ℕ
      → (Schema → Inserted Fragment)
      → DatasetWrite Fragment × Result (Operation Fragment)
  unfolding count_batches stored_schema write_context
  write_fragments writer w batches insert =
      written writer.options.mode w batches insert (stored_schema writer.schema writer.options)

  pub record WriteSummary : Type 0 where
    pub rows_written : ℕ
    pub bytes_read : ℕ
    pub bytes_written : ℕ

  abbrev pub summary : ℕ → WriteSummary
  summary rows = record { rows_written = rows; bytes_read = stats.0; bytes_written = stats.1 }

  abbrev pub summarise :
      ℕ
      → Operation Fragment
      → List (Str × IndexKind) × Result Dataset
      → List (Publication Fragment) × Result WriteSummary
  summarise rows operation (built, result) =
      (rows_published operation ∷ map index_published built, map_ok (λ d. summary rows) result)

  abbrev pub executed :
      DatasetWriter
      → ℕ
      → Operation Fragment
      → Result Dataset
      → List (Publication Fragment) × Result WriteSummary
  executed writer rows operation (err e) = ([], context (err e) (write_context writer.options.mode))
  executed writer rows operation (ok dataset) =
      summarise rows operation (create create_index count_rows dataset writer.indexes)

  abbrev pub publish :
      DatasetWriter
      → ℕ
      → Result (Operation Fragment)
      → List (Publication Fragment) × Result WriteSummary
  publish writer rows (err e) = ([], err e)
  publish writer rows (ok operation) =
      executed writer rows operation (execute writer.dataset operation)

  -- The write of the empty stream that `commit` makes where no transaction is there.
  abbrev pub write_empty : DatasetWriter → DatasetWrite Fragment → Result (Operation Fragment)
  write_empty writer w = (write_fragments writer w [] (insert_empty writer.dataset)).1

  -- `commit`: the versions of the dataset that it publishes, in order, and the result.
  unfoldable pub commit :
      DatasetWriter → DatasetWrite Fragment → List (Publication Fragment) × Result WriteSummary
  unfolding write_context
  commit writer w = publish writer w.rows_written (commit_transaction w (write_empty writer w)).1
