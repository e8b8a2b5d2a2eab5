-- ===== src/FfiHandles/Examples.antt =====
-- Three scans of a source of two columns, and a dataset that is finished twice.
use duckdb_lance_conversion.Base.{ℕ, true, some, List, [], ◌∷◌, length}
use duckdb_lance_conversion.Arrow.{Field, field, utf8}
use duckdb_lance_conversion.Error.{Result, ok}
use duckdb_lance_conversion.FfiHandles.{opened}
use duckdb_lance_conversion.FfiHandles.Scans.{scans, FirstTakes, bound_reader_once}
use duckdb_lance_conversion.FfiHandles.Commits.{Call, opens, finishes, run, Outcome, finished_once}

abbrev open_length : List ℕ → Result ℕ
open_length projection = ok (length projection)

abbrev two_columns : List Field
two_columns = field [] utf8 true [] ∷ field [] utf8 true [] ∷ []

abbrev projections : List (List ℕ)
projections = (1 ∷ []) ∷ (0 ∷ 1 ∷ []) ∷ [] ∷ []

bound_reader_once_example :
    FirstTakes open_length two_columns 7 (scans open_length two_columns (some 7) projections)
bound_reader_once_example = bound_reader_once open_length two_columns 7 projections

abbrev calls : List (Call ℕ)
calls = opens ∷ finishes (ok 5) ∷ opens ∷ finishes (ok 6) ∷ []

finished_once_example : Outcome calls (run opened calls).0 (run opened calls).1
finished_once_example = finished_once calls
