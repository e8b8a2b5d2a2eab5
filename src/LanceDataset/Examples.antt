-- ===== src/LanceDataset/Examples.antt =====
-- Rows with a generated column, appended to a dataset that has it.
use duckdb_lance_conversion.Base.{
  ◌≡◌, ◌≢◌, ◌≤◌, ◌↔◌, ◌⊎◌, refl, ℕ, same, true, Option, none, some, List, [], ◌∷◌, Str, codes, All,
  map,
}
use duckdb_lance_conversion.Arrow.{Field, field, int64, Schema, Metadata}
use duckdb_lance_conversion.Error.{Result, ok, IsOk}
use duckdb_lance_conversion.ColumnStorage.{BlobFieldOptions}
use duckdb_lance_conversion.FfiConfig.{IndexKind, scalar}
use duckdb_lance_conversion.LanceIndex.Planned.{IsIndexable, indexes_of}
use duckdb_lance_conversion.LanceSchema.{validate_schema}
use duckdb_lance_conversion.LanceWriter.{append, DatasetWrite, or_empty}
use duckdb_lance_conversion.Storage.Sample.{default_config, library, PlainUrl}
use duckdb_lance_conversion.LanceDataset.{
  LanceLibrary, found, Named, named, generated_key, append_mode, WriteOptions, DatasetWriter,
  default_options, reference, create_writer, stored_schema, validate_generated_columns, commit,
  inserted, panicked, rows_published, index_published, summary, write_empty, write_fragments,
}
use duckdb_lance_conversion.LanceDataset.Generated.{expression_of, validate_generated_columns_iff}
use duckdb_lance_conversion.LanceDataset.Publish.{
  CanPublish, PublishesNothing, PublishesRows, commit_once,
}
use duckdb_lance_conversion.LanceDataset.Created.{
  IsDestination, IsLoaded, AppendsAlike, create_writer-checks,
}

abbrev doubled : Metadata
doubled = (generated_key, codes "2 * n") ∷ []

abbrev dataset_columns : List Named
dataset_columns = (codes "twice", doubled) ∷ (codes "n", []) ∷ []

abbrev rows : Schema
rows = record {
  columns = field (codes "n") int64 true [] ∷ field (codes "twice") int64 true doubled ∷ [];
  extra = [];
}

abbrev lance : LanceLibrary
lance = record {
  storage = library;
  Dataset = List Named;
  Fragment = ℕ;
  Version = Unit {0};
  blob_field_with_options = λ n nullable options. field n int64 nullable [];
  dataset_fields = λ d. d;
  load = λ url. found dataset_columns;
  parse_version = λ s. ok tt;
  insert_empty = λ d stored. inserted (ok (append []));
  execute = λ d operation. ok dataset_columns;
  create_index = λ d column kind partitions. ok d;
  count_rows = λ d. ok 0;
  stats = (0, 10);
}

abbrev options : WriteOptions lance
options = record (default_options lance default_config) {
  mode = append_mode;
  blobs = record {
    blob_inline_size_threshold = none;
    blob_dedicated_size_threshold = none;
    blob_columns = [];
  };
  indexes = (codes "n", scalar) ∷ [];
}

abbrev place : PlainUrl
place = record { scheme = codes "file"; host = []; path = codes "/d" }

abbrev writer : DatasetWriter lance
writer = record {
  location = place;
  dataset = some dataset_columns;
  options = options;
  max_bytes_per_file = 536_870_912;
  data_storage_version = tt;
  external_blob_mode = reference;
  schema = rows;
  indexes = (codes "n", scalar) ∷ [];
}

creates : create_writer lance (some (codes "/d")) rows options ≡ ok writer
unfolding create_writer default_options same validate_schema validate_generated_columns
    duckdb_lance_conversion.LanceSchema.validate_type duckdb_lance_conversion.Storage.from_path
    duckdb_lance_conversion.Storage.validate duckdb_lance_conversion.Base.starts_with
    duckdb_lance_conversion.Storage.Open.from_local_path duckdb_lance_conversion.Error.context
    duckdb_lance_conversion.Base.trim_start_matches
    duckdb_lance_conversion.ColumnStorage.blob_schema
    duckdb_lance_conversion.ColumnStorage.dedicated_threshold
    duckdb_lance_conversion.ColumnStorage.stored_field
    duckdb_lance_conversion.ColumnStorage.configure_field
    duckdb_lance_conversion.ColumnStorage.is_blob duckdb_lance_conversion.Arrow.get_meta
    duckdb_lance_conversion.ColumnStorage.is_binary
    duckdb_lance_conversion.ColumnEncoding.configure_column_encoding
    duckdb_lance_conversion.LanceIndex.new_plan duckdb_lance_conversion.Arrow.position_of
    duckdb_lance_conversion.LanceIndex.insert_index
    duckdb_lance_conversion.LanceIndex.scalar_supported
    duckdb_lance_conversion.LanceIndex.validate_index_type
    duckdb_lance_conversion.LanceIndex.supported duckdb_lance_conversion.FfiConfig.before
creates = refl

create_writer-checks_example :
    IsOk (validate_schema rows.columns)
    × IsDestination lance (some (codes "/d")) options writer
    × ((stored : Schema) × (stored_schema lance rows options ≡ ok stored)
        × All (IsIndexable stored) options.indexes
        × ((k : Str) → indexes_of k options.indexes ≤ 1))
    × IsLoaded lance writer
    × AppendsAlike lance options.mode writer.dataset rows
create_writer-checks_example =
    create_writer-checks lance (some (codes "/d")) rows options writer creates

validate_generated_columns_iff_example :
    IsOk (validate_generated_columns dataset_columns (map named rows.columns))
    ↔ ((k : Str) → expression_of k dataset_columns ≡ expression_of k (map named rows.columns))
validate_generated_columns_iff_example =
    validate_generated_columns_iff dataset_columns (map named rows.columns)

abbrev written : DatasetWrite ℕ
written = record { rows_written = 3; transactions = append (1 ∷ []) ∷ append (2 ∷ []) ∷ [] }

commit_once_example :
    ((¬ CanPublish lance writer (or_empty written.transactions (write_empty lance writer written)))
      × PublishesNothing lance (commit lance writer written))
    ⊎ PublishesRows lance writer 3
        (or_empty written.transactions (write_empty lance writer written))
        (commit lance writer written)
commit_once_example = commit_once lance writer written

-- The rows and the index of the column `n`.
commits : commit lance writer written ≡ (
  rows_published (append (1 ∷ 2 ∷ [])) ∷ index_published (codes "n", scalar) ∷ [],
  ok (summary lance 3),
)
unfolding commit duckdb_lance_conversion.LanceWriter.commit_transaction
    duckdb_lance_conversion.LanceWriter.merge_transactions duckdb_lance_conversion.LanceIndex.create
    duckdb_lance_conversion.LanceIndex.has_vector duckdb_lance_conversion.LanceIndex.create_each
    duckdb_lance_conversion.Error.context duckdb_lance_conversion.LanceWriter.merge_rest
    duckdb_lance_conversion.LanceWriter.merge_operation
commits = refl

-- Two batches of the stream that a worker reads, and a worker that panics behind them.
counts_before_panic :
    (write_fragments lance writer written (4 ∷ 5 ∷ []) (λ stored. panicked)).0.rows_written ≡ 12
unfolding write_fragments duckdb_lance_conversion.LanceWriter.count_batch stored_schema
    duckdb_lance_conversion.Base.wrapping_add duckdb_lance_conversion.ColumnStorage.blob_schema
    duckdb_lance_conversion.ColumnStorage.dedicated_threshold
    duckdb_lance_conversion.ColumnStorage.stored_field
    duckdb_lance_conversion.ColumnStorage.configure_field
    duckdb_lance_conversion.ColumnStorage.is_blob duckdb_lance_conversion.Arrow.get_meta same
    duckdb_lance_conversion.ColumnStorage.is_binary
    duckdb_lance_conversion.ColumnEncoding.configure_column_encoding default_options
counts_before_panic = refl
