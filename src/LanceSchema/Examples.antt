-- ===== src/LanceSchema/Examples.antt =====
-- A schema of a list of strings.
use duckdb_lance_conversion.Base.{◌≢◌, ◌↔◌, true, false, List, [], ◌∷◌, All}
use duckdb_lance_conversion.Arrow.{Field, field, list, utf8, data_type}
use duckdb_lance_conversion.Error.{IsOk}
use duckdb_lance_conversion.LanceSchema.{validate_schema}
use duckdb_lance_conversion.LanceSchema.Accepted.{ArePlain, parts, validate_schema_iff}

abbrev nested : List Field
nested = field [] (list (field [] utf8 true [])) false [] ∷ []

validate_schema_iff_example :
    IsOk (validate_schema nested)
    ↔ ((nested ≢ []) × All (λ f. ArePlain (parts (data_type f))) nested)
validate_schema_iff_example = validate_schema_iff nested
