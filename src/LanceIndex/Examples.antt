-- ===== src/LanceIndex/Examples.antt =====
-- The indexes of two columns.
use duckdb_lance_conversion.Base.{◌≤◌, ◌↔◌, true, List, [], ◌∷◌, All, Str, codes}
use duckdb_lance_conversion.Arrow.{field, utf8, int64, Schema}
use duckdb_lance_conversion.Error.{IsOk}
use duckdb_lance_conversion.FfiConfig.{IndexKind, scalar, text}
use duckdb_lance_conversion.LanceIndex.{new_plan}
use duckdb_lance_conversion.LanceIndex.Planned.{IsIndexable, indexes_of, new_plan_iff}

abbrev schema : Schema
schema = record {
  columns = field (codes "id") int64 true [] ∷ field (codes "body") utf8 true [] ∷ [];
  extra = [];
}

abbrev requested : List (Str × IndexKind)
requested = (codes "id", scalar) ∷ (codes "body", text) ∷ []

new_plan_iff_example :
    IsOk (new_plan schema requested)
    ↔ (All (IsIndexable schema) requested × ((k : Str) → indexes_of k requested ≤ 1))
new_plan_iff_example = new_plan_iff schema requested
