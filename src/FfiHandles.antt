-- ===== src/FfiHandles.antt =====
-- rust/src/ffi.rs: the handles that C++ holds. A source factory opens a reader for each scan, and a dataset
-- handle is written to and then finished. A call on a handle is a step on its state.
mod Scans
mod Commits
mod Examples
use duckdb_lance_conversion.Base.{
  ℕ, zero, suc, ◌≡◌, Bool, true, false, ◌||◌, ◌&&◌, Option, none, some, List, [], ◌∷◌, ◌++◌, Str,
  length, ◌==◌, is_empty, if◌then◌else◌,
}
use duckdb_lance_conversion.Arrow.{Field, position_of}
use duckdb_lance_conversion.Error.{Result, ok, err, ◌>>=◌, map_ok, fail, ok_or, lit, txt}

-- `projection.iter().copied().eq(0..n)`, from `i` on.
unfoldable pub eq_range : ℕ → ℕ → List ℕ → Bool
eq_range i zero [] = true
eq_range i zero (p ∷ ps) = false
eq_range i (suc n) [] = false
eq_range i (suc n) (p ∷ ps) = let rest = eq_range (suc i) n ps in (p == i) && rest

-- `SourceStreamFactory`: its schema, and the reader opened at bind time, until a scan takes it.
pub record SourceStreamFactory (Reader : Type 0) : Type 0 where
  pub schema : List Field
  pub bound : Option Reader

unfoldable pub reads_every_column : List Field → List ℕ → Bool
unfolding eq_range
reads_every_column schema projection = is_empty projection || eq_range 0 (length schema) projection

-- The positions of the named columns.
unfoldable pub column_positions : List Field → List Str → Result (List ℕ)
column_positions schema [] = ok []
column_positions schema (name ∷ names) = do
  p ← ok_or (position_of name schema) (lit "unknown source column: " ∷ txt name ∷ [])
  ps ← column_positions schema names
  ok (p ∷ ps)

-- `make_reader` opens the source with a projection, and `reader_schema` is a reader's schema.
module _ {Reader : Type 0} (make_reader : List ℕ → Result Reader) where
  abbrev take_bound :
      SourceStreamFactory Reader
      → Option Reader
      → Result Reader
      → SourceStreamFactory Reader × Result Reader
  take_bound f none fresh = (f, fresh)
  take_bound f (some reader) fresh = (record f { bound = none }, ok reader)

  unfoldable pub open_reader :
      SourceStreamFactory Reader → List ℕ → SourceStreamFactory Reader × Result Reader
  open_reader f projection =
      if reads_every_column f.schema projection
      then take_bound f f.bound (make_reader projection)
      else (f, make_reader projection)

  -- `bind`: a reader of every column is opened now and kept.
  abbrev bind_reader :
      (Reader → List Field)
      → SourceStreamFactory Reader × Result Reader
      → Result (SourceStreamFactory Reader)
  bind_reader reader_schema (f, opened) =
      map_ok (λ reader. record { schema = reader_schema reader; bound = some reader }) opened

  unfoldable pub bind :
      (Reader → List Field) → SourceStreamFactory Reader → Result (SourceStreamFactory Reader)
  unfolding open_reader
  bind reader_schema f = bind_reader reader_schema (open_reader f [])

  -- `lance_source_get_stream`, on the names of the columns.
  abbrev get_projected :
      SourceStreamFactory Reader → Result (List ℕ) → SourceStreamFactory Reader × Result Reader
  get_projected f (err e) = (f, err e)
  get_projected f (ok projection) = open_reader f projection

  unfoldable pub get_stream :
      SourceStreamFactory Reader → List Str → SourceStreamFactory Reader × Result Reader
  get_stream f names = get_projected f (column_positions f.schema names)

-- `LanceConversionDataset`: its writer until it is finished, and the summary of the commit. What the writer
-- does itself is modelled in LanceWriter.
pub record DatasetHandle (Summary : Type 0) : Type 0 where
  pub writer : Bool
  pub summary : Option Summary

module _ {Summary : Type 0} where
  -- `lance_conversion_open` once the writer is created.
  abbrev pub opened : DatasetHandle Summary
  opened = record { writer = true; summary = none }

  -- `lance_conversion_writer_open`.
  unfoldable pub writer_open : DatasetHandle Summary → Result (Unit {0})
  writer_open h =
      if h.writer then ok tt else fail (lit "Lance dataset writer is already finished" ∷ [])

  abbrev summarise :
      DatasetHandle Summary → Result Summary → DatasetHandle Summary × Result (Unit {0})
  summarise h (ok s) = (record { writer = false; summary = some s }, ok tt)
  summarise h (err e) = (record { writer = false; summary = h.summary }, err e)

  -- `lance_conversion_finish`, where the commit would return `committed`. The writer is taken first.
  unfoldable pub finish_dataset :
      DatasetHandle Summary → Result Summary → DatasetHandle Summary × Result (Unit {0})
  finish_dataset h committed =
      if h.writer
      then summarise h committed
      else (h, fail (lit "Lance dataset writer is already finished" ∷ []))
