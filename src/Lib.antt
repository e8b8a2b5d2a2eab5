-- ===== src/Lib.antt =====
-- Verification of the Rust crate behind the DuckDB extension that converts datasets to Lance.
--
-- The crate (rust/src) reads a source into Arrow batches and writes them as one version of a Lance dataset.
-- The C++ side opens a source and a dataset through the C interface, pulls batches from the source and
-- pushes them into any number of fragment writers; the dataset handle then commits what they wrote.
--
-- Which file models what:
--   Base            numbers, lists and texts that the components share
--   Error           rust/src/error.rs: `Error`, its conversions, `context`; `Result` is its monad
--   Source          rust/src/source.rs: `is_gzipped`, `SourceReadOptions::validate`
--   Metrics         rust/src/source/metrics.rs: the methods of `ReadMetrics`
--   WarcIndex       rust/src/source/warc_index.rs: `parse_warc_index` (Parse) and `build_index_work_units`
--                   (Plan, Cover, Order, Balance)
--   WarcSegment     rust/src/source/warc_segment.rs: `WarcSegment::parse` (Address) and `files` (Files)
--   Arrow           the types of the crate `arrow_schema` that the code matches on
--   WarcSchema      rust/src/source/warc.rs: the columns and `projected_schema` (Projection)
--   WarcBatch       rust/src/source/warc.rs: `WarcBatchBuilder` (Columns, BodyColumn, Append)
--   WarcStream      rust/src/source/warc.rs: `stream_records` and `send_batch` (Chunks)
--   WarcSource      rust/src/source/warc.rs and warc_index.rs: `WarcSource::open` and `open_indexed_warc` (Progress)
--   ParquetRead     rust/src/source/parquet.rs and parquet_metadata.rs: `ColumnProjection` (Projection),
--                   `ReadAheadBudget` (Budget), the check of the footers' schemas
--   ParquetRead.RowGroup   `spawn_row_group` as steps of the task and its consumer (Progress, Length, Delivery)
--   ParquetRead.Open       `load_parquet_metadata` and `open_parquet_paths` (Requested, Stream, Projected, Progress)
--   HuggingFace     rust/src/source/huggingface.rs: `parquet_files` (Shards) and `open`, over ParquetRead.Open
--   Atif            rust/src/source/atif.rs: `input_format`; Atif.Reader: `AtifSource::open` up to the parser
--   Atif.Media      rust/src/source/atif/media.rs: `resolve_uri` and `MediaResolver` (Atif.Object, Atif.Origin)
--   Atif.Schema     rust/src/source/atif/media.rs: `embedded_schema` (Names)
--   LanceWriter     rust/src/sink/lance/fragment.rs (Lifecycle) and the transactions of
--                   rust/src/sink/lance/dataset.rs (Merge)
--   LanceDataset    rust/src/sink/lance/dataset.rs: `validate_generated_columns` (Generated),
--                   `LanceDatasetWriter::create` (Created) and `commit` (Publish), over LanceWriter and LanceIndex
--   LanceSchema     rust/src/schema.rs: `validate_schema` (Accepted)
--   LanceIndex      rust/src/sink/lance/index.rs: `LanceIndexPlan` (Planned, Built)
--   ColumnEncoding  rust/src/sink/lance/column_encoding.rs: `encode_field` (Settings, Shape) and
--                   `configure_column_encoding` (Configure)
--   ColumnStorage   rust/src/sink/lance/column_storage.rs and column_storage/atif.rs: `blob_schema` (Names)
--   Storage         rust/src/storage.rs: `OpendalConfig::validate` (Policy), the choice of a backend
--   Storage.Open    rust/src/storage.rs: the backends behind paths and URIs
--   Storage.Input   rust/src/storage.rs: `InputFile::open` (Storage.Backends, Storage.Inputs)
--   Storage.Provider   rust/src/storage.rs: `OpendalStoreProvider` (Storage.Stores)
--   Storage.Sample  a small library of URLs, for the tests
--   FfiConfig       rust/src/ffi.rs: the decoders of configuration values (Encodings)
--   FfiHandles      rust/src/ffi.rs: `SourceStreamFactory` (Scans) and `LanceConversionDataset` (Commits)
--   FfiStorage      rust/src/ffi.rs: `s3_config`, and the calls that find and remove a dataset (Cleanup)
-- The modules named Examples hold runs on concrete inputs.
--
-- How the code is rendered. A struct is a record and an enum a data type. A method that changes its object
-- returns the new state. An `async` call is one step, and threads that share an object are a list of their
-- calls in the order in which they take effect. A fallible function returns `Result`; the text of a message
-- is kept as the pieces that `format!` joins, without the printed types and the errors of other crates. A
-- 64-bit sum is written with its wrap-around, its saturation or its check, as in the code; `usize` has 64
-- bits. A text is the list of its code points. Loops are structural recursion on the list that they run
-- over; the only fuel is the ten digits of a printed 32-bit number. A spawned task and the consumer of its
-- stream are steps of one state, in any order.
--
-- What other crates do is a parameter, in a record for each component (StorageLibrary, ParquetLibrary, WarcLibrary,
-- LanceLibrary, HuggingFaceLibrary, MediaLibrary, ObjectLibrary): URLs and paths, the operators and their
-- reads, the JSON library, decoders, the readers of Parquet and WARC, Arrow's check of a finished batch, what a
-- worker task returns when it is joined, how a write of data files ends, the dataset and its commit, the creation of an index, the fields of a
-- blob. Where a theorem relies on what such a call promises, the promise is a hypothesis of its own.
--
-- Not modelled: the reader of trajectories, the arrays that rust/src/source/atif/media.rs and
-- rust/src/sink/lance/column_storage.rs rewrite, the Arrow arrays that cross the C interface, the C++
-- extension under src, the capacities of buffers, the text that `Display` prints, the order in which an
-- unordered scan yields its batches, and panics of other crates.
pub mod Base
pub mod Error
pub mod Metrics
pub mod Source
pub mod ParquetRead
pub mod WarcIndex
pub mod WarcSegment
pub mod Arrow
pub mod Atif
pub mod WarcSchema
pub mod WarcBatch
pub mod WarcStream
pub mod WarcSource
pub mod LanceWriter
pub mod LanceDataset
pub mod LanceSchema
pub mod ColumnEncoding
pub mod FfiConfig
pub mod FfiHandles
pub mod FfiStorage
pub mod HuggingFace
pub mod LanceIndex
pub mod ColumnStorage
pub mod Storage
