-- ===== src/WarcSchema/Examples.antt =====
-- A scan of two columns.
use duckdb_lance_conversion.Base.{ℕ, ◌<◌, ◌≡◌, ◌↔◌, refl, some, List, [], ◌∷◌, All, length}
use duckdb_lance_conversion.Arrow.{Field}
use duckdb_lance_conversion.Error.{ok, IsOk}
use duckdb_lance_conversion.WarcSchema.{projected_schema, requested, warc_columns, project_columns}
use duckdb_lance_conversion.WarcSchema.Projection.{
  IsDistinct, Selects, projected_schema-IsOk, projected_schema-Selects,
}

abbrev two_columns : List ℕ
two_columns = 19 ∷ 0 ∷ []

abbrev two_fields : List Field
two_fields = project_columns warc_columns two_columns

projected : projected_schema (some two_columns) ≡ ok (two_columns, two_fields)
unfolding projected_schema
projected = refl

projected_schema-IsOk_example : IsOk (projected_schema (some two_columns)) ↔ (
    All (λ i. i < length warc_columns) (requested (some two_columns))
    × IsDistinct (requested (some two_columns)))
projected_schema-IsOk_example = projected_schema-IsOk (some two_columns)

projected_schema-Selects_example :
    (two_columns ≡ requested (some two_columns)) × Selects two_columns two_fields
projected_schema-Selects_example =
    projected_schema-Selects (some two_columns) two_columns two_fields projected
