-- ===== src/WarcStream/Examples.antt =====
-- Two records, read in batches of one.
use mathlib.Core.List.{flatten}
use duckdb_lance_conversion.Base.{
  ℕ, ◌≡◌, refl, Option, none, some, List, [], ◌∷◌, ◌++◌, map, All, Str, codes, arith,
}
use duckdb_lance_conversion.Arrow.{Field}
use duckdb_lance_conversion.Error.{ok, Cause}
use duckdb_lance_conversion.WarcSchema.Projection.{IsDistinct}
use duckdb_lance_conversion.WarcBatch.{
  WarcRecord, ProjectedColumnBuilder, pos, position, is_some, append_record,
}
use duckdb_lance_conversion.WarcBatch.Columns.{IsColumn}
use duckdb_lance_conversion.WarcBatch.Append.{IsGood, batch_of, append_record-batch_of}
use duckdb_lance_conversion.WarcStream.{stream_records, finished}
use duckdb_lance_conversion.WarcStream.Bodies.{batch_record}
use duckdb_lance_conversion.WarcStream.Chunks.{IsChunk, stream_records-chunks}

abbrev named : Str → WarcRecord
named id = record {
  warc_id = id;
  content_length = 2;
  date = pos 1;
  warc_type = codes "response";
  header = λ h. none;
  body = some (b'o' ∷ b'k' ∷ []);
}

named-IsGood : (id : Str) → IsGood (named id)
named-IsGood id = record {
  numbers = (tt, tt);
  content = b'o' ∷ b'k' ∷ [];
  buffered = refl;
  announced = refl;
  fits = omega arith;
}

abbrev two_records : List WarcRecord
two_records = named (codes "a") ∷ named (codes "b") ∷ []

abbrev some_columns : List ℕ
some_columns = 19 ∷ 0 ∷ []

columns-IsColumn : All IsColumn some_columns
columns-IsColumn = (omega arith, (omega arith, tt))

columns-IsDistinct : IsDistinct some_columns
columns-IsDistinct = ((omega arith, tt), (tt, tt))

append_record-batch_of_example :
    append_record
      (is_some (position 19 some_columns))
      (batch_of some_columns [] (named (codes "a") ∷ []))
      (named (codes "b"))
    ≡ ok (batch_of some_columns [] ((named (codes "a") ∷ []) ++ (named (codes "b") ∷ [])))
append_record-batch_of_example =
    append_record-batch_of some_columns [] (named (codes "a") ∷ []) (named (codes "b"))
      columns-IsColumn columns-IsDistinct (named-IsGood (codes "b"))

abbrev refuses_nothing : List Field → List ProjectedColumnBuilder → Option Cause
refuses_nothing schema columns = none

stream_records-chunks_example :
    (cs : List (List WarcRecord)) × (stream_records refuses_nothing 1 some_columns [] 2
        (map some two_records)
      ≡ (map (batch_record some_columns []) cs, finished))
    × (flatten cs ≡ two_records)
    × All (IsChunk refuses_nothing some_columns [] 1) cs
stream_records-chunks_example =
    stream_records-chunks refuses_nothing some_columns [] 1 two_records 2 (λ rs. refl)
      columns-IsColumn columns-IsDistinct (omega arith) (omega arith)
      (named-IsGood (codes "a"), (named-IsGood (codes "b"), tt))
