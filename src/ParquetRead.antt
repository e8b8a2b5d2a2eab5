-- ===== src/ParquetRead.antt =====
-- rust/src/source/parquet.rs and rust/src/source/parquet_metadata.rs: the projection of a Parquet scan, the
-- bytes that it expects to read, the check of the footers, and the budget of a row group's read-ahead.
pub mod Projection
mod Budget
pub mod RowGroup
pub mod Open
mod Examples
use duckdb_lance_conversion.Base.{
  ℕ, zero, suc, ◌+◌, ◌-◌, ◌≡◌, Bool, true, false, ◌&&◌, ◌||◌, Option, none, some, List, [], ◌∷◌,
  ◌++◌, map, Str, length, get_elem?, min, max, u32_max, u64_max, saturating_add, ltb, leb, ◌==◌,
  if◌then◌else◌, is_empty,
}
use duckdb_lance_conversion.Error.{
  Error, Result, ok, err, ◌>>=◌, ◌>>◌, fail, bail_if, ok_or, lit, txt, Message,
}

pub record ColumnProjection : Type 0 where
  pub roots : List ℕ
  pub order : List ℕ

-- `sort_unstable` and then `dedup`: a column that is there already is not inserted again.
unfoldable pub insert_column : ℕ → List ℕ → List ℕ
insert_column c [] = c ∷ []
insert_column c (r ∷ rs) =
    if ltb c r then c ∷ r ∷ rs else if c == r then r ∷ rs else r ∷ insert_column c rs

unfoldable pub sort_dedup : List ℕ → List ℕ
unfolding insert_column
sort_dedup [] = []
sort_dedup (c ∷ cs) = insert_column c (sort_dedup cs)

-- `roots.partition_point(|root| root < column)` on the sorted roots.
unfoldable pub partition_point : ℕ → List ℕ → ℕ
partition_point column [] = 0
partition_point column (r ∷ rs) = if ltb r column then suc (partition_point column rs) else 0

-- `ColumnProjection::new`.
unfoldable pub new_projection : List ℕ → Option ColumnProjection
unfolding sort_dedup
new_projection [] = none
new_projection (c ∷ cs) =
    let roots = sort_dedup (c ∷ cs) in
    some (record { roots = roots; order = map (λ column. partition_point column roots) (c ∷ cs) })

-- `Schema::project` and `RecordBatch::project` of the crate `arrow`: the items at the positions, and an error
-- for a position out of range.
unfoldable pub project {ℓ} : {A : Type ℓ} → List A → List ℕ → Result (List A)
project items [] = ok []
project items (i ∷ is) = do
  item ← ok_or (get_elem? items i) (lit "project index out of bounds" ∷ [])
  rest ← project items is
  ok (item ∷ rest)

-- The file-order columns that the reader yields, put back into the requested order.
unfoldable pub project_columns {ℓ} :
    {A : Type ℓ} → List A → Option ColumnProjection → Result (List A)
project_columns items none = ok items
project_columns items (some p) =
    project items p.roots >>= (λ in_file_order. project in_file_order p.order)

-- The byte ranges of one row group's column chunks, with the leaves that the mask includes.
abbrev pub chunk_bytes : (ℕ → Bool) → ℕ → List ℕ → ℕ → ℕ
chunk_bytes included leaf [] total = total
chunk_bytes included leaf (bytes ∷ chunks) total =
    chunk_bytes included (suc leaf) chunks
      (if included leaf then saturating_add total bytes else total)

abbrev pub add_row_groups : (ℕ → Bool) → List (List ℕ) → ℕ → ℕ
add_row_groups included [] total = total
add_row_groups included (chunks ∷ rest) total =
    add_row_groups included rest (chunk_bytes included 0 chunks total)

unfoldable pub column_chunk_bytes : List (List ℕ) → (ℕ → Bool) → ℕ
column_chunk_bytes row_groups included = add_row_groups included row_groups 0

-- The check of `load_parquet_metadata`: each footer has the first one's schema. `same_schema` is the equality of
-- Arrow schemas.
module _ {Schema : Type 0} (same_schema : Schema → Schema → Bool) where
  unfoldable pub check_schemas : Schema → List (Str × Schema) → Result (Unit {0})
  check_schemas schema [] = ok tt
  check_schemas schema ((path, other) ∷ files) = do
    bail_if (if same_schema other schema then false else true)
        (lit "Parquet schema does not match the first file: " ∷ txt path ∷ [])
    check_schemas schema files

  unfoldable pub common_schema : List (Str × Schema) → Result Schema
  unfolding check_schemas
  common_schema [] = fail (lit "Parquet source contains no .parquet files" ∷ [])
  common_schema ((path, schema) ∷ files) = check_schemas schema files >> ok schema

-- The permits of the semaphore that are free, of `capacity`.
pub record ReadAheadBudget : Type 0 where
  pub available : ℕ
  pub capacity : ℕ

unfoldable pub new_budget : ℕ → ReadAheadBudget
new_budget bytes =
    let capacity = max (min bytes u32_max) 1 in record { available = capacity; capacity = capacity }

-- The permits that a batch of `bytes` takes: `u32::try_from(..).unwrap_or(u32::MAX).clamp(1, capacity)`.
unfoldable pub permits_for : ReadAheadBudget → ℕ → ℕ
permits_for b bytes = min (max (min bytes u32_max) 1) b.capacity

-- `reserve`: the state once the batch fits, with its permits, or `none` while it waits.
unfoldable pub reserve : ReadAheadBudget → ℕ → Option (ReadAheadBudget × ℕ)
unfolding permits_for
reserve b bytes =
    if leb (permits_for b bytes) b.available
    then some (record b { available = b.available - permits_for b bytes }, permits_for b bytes)
    else none

-- Dropping a permit.
unfoldable pub release : ReadAheadBudget → ℕ → ReadAheadBudget
release b permit = record b { available = b.available + permit }
