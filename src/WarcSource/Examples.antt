-- ===== src/WarcSource/Examples.antt =====
-- A page with an index of one entry; a buffer is its length.
use duckdb_lance_conversion.Base.{
  ℕ, ◌+◌, ◌-◌, ◌≤◌, ◌≡◌, refl, true, false, Option, none, some, List, [], ◌∷◌, Str, codes, same,
  min, u64_max, arith, if◌then◌else◌,
}
use duckdb_lance_conversion.Arrow.{Field}
use duckdb_lance_conversion.Error.{Result, ok, err, fail}
use duckdb_lance_conversion.Metrics.{default_metrics, snapshot}
use duckdb_lance_conversion.Storage.Sample.{default_config, library}
use duckdb_lance_conversion.WarcSchema.{warc_columns, project_columns}
use duckdb_lance_conversion.WarcIndex.{JsonLibrary, Range}
use duckdb_lance_conversion.WarcSource.{
  WarcLibrary, WarcSource, new_source, work_units, indexed_items, open_warc,
}
use duckdb_lance_conversion.WarcSource.Progress.{lengths, open_warc-progress}

abbrev field_of : Str → Option Str
field_of k =
    if same k (codes "offset")
    then some (codes "7")
    else if same k (codes "length")
    then some (codes "5")
    else none

abbrev json : JsonLibrary
json = record {
  Value = Str;
  from_str = λ s. some s;
  get = λ v. field_of;
  as_u64 = λ v. none;
  as_str = λ v. some v;
}

abbrev buffers : WarcLibrary
buffers = record {
  storage = library;
  json = json;
  Bytes = ℕ;
  byte_length = λ b. min b u64_max;
  stat = λ operator path. ok 12;
  read = λ operator path. ok 30;
  read_range = λ operator path range. ok (range.end - range.start);
  object = λ operator path size. ok (size ∷ []);
  gunzip = λ b. none;
  lines = λ gzipped b. some (codes "k {}") ∷ [];
  records = λ gzipped bs. [];
  refuses = λ fields columns. none;
}

abbrev source : WarcSource buffers
source = record (new_source buffers default_config (codes "http://h/a")) {
  index_path = some (codes "/i");
  projection = some (0 ∷ []);
}

abbrev unit : Range
unit = record { start = 7; end = 12 }

abbrev columns : List ℕ × List Field
columns = (0 ∷ [], project_columns warc_columns (0 ∷ []))

opens :
    (open_warc buffers source default_metrics).1
    ≡ ok (columns, work_units (codes "http://h") (codes "a") false (unit ∷ []))
unfolding open_warc new_source same duckdb_lance_conversion.Source.validate_read_options
    duckdb_lance_conversion.WarcSchema.projected_schema
    duckdb_lance_conversion.Storage.Input.open_input
    duckdb_lance_conversion.Storage.Open.http_operator duckdb_lance_conversion.Storage.validate
    duckdb_lance_conversion.Base.trim_start_matches duckdb_lance_conversion.WarcSegment.parse
    duckdb_lance_conversion.Base.split duckdb_lance_conversion.Storage.from_path
    duckdb_lance_conversion.Base.starts_with duckdb_lance_conversion.Storage.Open.from_local_path
    duckdb_lance_conversion.Error.context duckdb_lance_conversion.WarcIndex.parse_warc_index
    duckdb_lance_conversion.WarcIndex.parse_index_line duckdb_lance_conversion.Base.trim
    duckdb_lance_conversion.WarcIndex.build_index_work_units
    duckdb_lance_conversion.WarcIndex.from_brace duckdb_lance_conversion.Base.parse_unsigned
    duckdb_lance_conversion.Base.checked_add duckdb_lance_conversion.Base.div_ceil
    duckdb_lance_conversion.WarcIndex.push_entry duckdb_lance_conversion.Source.is_gzipped
opens = refl

fits : (b : ℕ) → min b u64_max ≤ u64_max
fits b = omega arith

counts : (open_warc buffers source default_metrics).0.bytes_read + lengths (unit ∷ []) ≤ u64_max
unfolding open_warc new_source same duckdb_lance_conversion.Source.validate_read_options
    duckdb_lance_conversion.WarcSchema.projected_schema
    duckdb_lance_conversion.Storage.Input.open_input
    duckdb_lance_conversion.Storage.Open.http_operator duckdb_lance_conversion.Storage.validate
    duckdb_lance_conversion.Base.trim_start_matches duckdb_lance_conversion.WarcSegment.parse
    duckdb_lance_conversion.Base.split duckdb_lance_conversion.Storage.from_path
    duckdb_lance_conversion.Base.starts_with duckdb_lance_conversion.Storage.Open.from_local_path
    duckdb_lance_conversion.Error.context duckdb_lance_conversion.WarcIndex.parse_warc_index
    duckdb_lance_conversion.WarcIndex.parse_index_line duckdb_lance_conversion.Base.trim
    duckdb_lance_conversion.WarcIndex.build_index_work_units
    duckdb_lance_conversion.WarcIndex.from_brace duckdb_lance_conversion.Base.parse_unsigned
    duckdb_lance_conversion.Base.checked_add duckdb_lance_conversion.Base.div_ceil
    duckdb_lance_conversion.WarcIndex.push_entry duckdb_lance_conversion.Source.is_gzipped
    duckdb_lance_conversion.Base.wrapping_add duckdb_lance_conversion.Metrics.set_total_bytes
    duckdb_lance_conversion.Metrics.add_bytes_read
counts = omega arith

open_warc-progress_example :
    (snapshot
      (indexed_items buffers
        (codes "http://h")
        source.batch_size
        columns.0
        columns.1
        (open_warc buffers source default_metrics).0
        (codes "a")
        false
        (unit ∷ [])).0).bytes_read
    ≡ (snapshot
        (indexed_items buffers
          (codes "http://h")
          source.batch_size
          columns.0
          columns.1
          (open_warc buffers source default_metrics).0
          (codes "a")
          false
          (unit ∷ [])).0).total_bytes
open_warc-progress_example =
    open_warc-progress buffers fits default_metrics source columns (codes "http://h") (codes "a")
      false (unit ∷ []) refl opens ((5, refl, refl), tt) counts
