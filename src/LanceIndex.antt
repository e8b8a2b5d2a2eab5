-- ===== src/LanceIndex.antt =====
-- rust/src/sink/lance/index.rs: the indexes that a write builds once it is committed.
pub mod Planned
pub mod Built
mod Examples
use duckdb_lance_conversion.Base.{
  ℕ, Bool, true, false, ◌||◌, Option, none, some, List, [], ◌∷◌, ◌++◌, Str, String, codes, same,
  div_ceil, min, max, if◌then◌else◌,
}
use duckdb_lance_conversion.Arrow.{
  DataType, boolean, int8, int16, int32, int64, uint8, uint16, uint32, uint64, float16, float32,
  float64, utf8, large_utf8, utf8_view, decimal128, date32, date64, time32, time64, timestamp,
  fixed_size_list, Field, data_type, Schema, index_of,
}
use duckdb_lance_conversion.Base.{get_elem?}
use duckdb_lance_conversion.Error.{
  Result, ok, err, ◌>>=◌, ◌>>◌, fail, bail_if, ok_or, context, lit, txt, Message,
}
use duckdb_lance_conversion.FfiConfig.{IndexKind, scalar, vector, text, bloom_filter, before}

abbrev pub target_vector_partition_rows : ℕ
target_vector_partition_rows = 8192

unfoldable pub scalar_supported : DataType → Bool
scalar_supported boolean = true
scalar_supported int8 = true
scalar_supported int16 = true
scalar_supported int32 = true
scalar_supported int64 = true
scalar_supported uint8 = true
scalar_supported uint16 = true
scalar_supported uint32 = true
scalar_supported uint64 = true
scalar_supported float16 = true
scalar_supported float32 = true
scalar_supported float64 = true
scalar_supported (decimal128 n) = true
scalar_supported utf8 = true
scalar_supported large_utf8 = true
scalar_supported utf8_view = true
scalar_supported date32 = true
scalar_supported date64 = true
scalar_supported (time32 u) = true
scalar_supported (time64 u) = true
scalar_supported (timestamp u _) = true
scalar_supported _ = false

abbrev vector_item : DataType → Bool
vector_item int8 = true
vector_item uint8 = true
vector_item float16 = true
vector_item float32 = true
vector_item float64 = true
vector_item _ = false

unfoldable pub vector_supported : DataType → Bool
vector_supported (fixed_size_list f n) = vector_item (data_type f)
vector_supported _ = false

unfoldable pub text_supported : DataType → Bool
text_supported utf8 = true
text_supported large_utf8 = true
text_supported utf8_view = true
text_supported _ = false

unfoldable pub bloom_filter_supported : DataType → Bool
bloom_filter_supported int8 = true
bloom_filter_supported int16 = true
bloom_filter_supported int32 = true
bloom_filter_supported int64 = true
bloom_filter_supported uint8 = true
bloom_filter_supported uint16 = true
bloom_filter_supported uint32 = true
bloom_filter_supported uint64 = true
bloom_filter_supported float32 = true
bloom_filter_supported float64 = true
bloom_filter_supported utf8 = true
bloom_filter_supported large_utf8 = true
bloom_filter_supported date32 = true
bloom_filter_supported date64 = true
bloom_filter_supported (time32 u) = true
bloom_filter_supported (time64 u) = true
bloom_filter_supported (timestamp u _) = true
bloom_filter_supported _ = false

unfoldable pub supported : IndexKind → DataType → Bool
unfolding scalar_supported vector_supported text_supported bloom_filter_supported
supported scalar t = scalar_supported t
supported vector t = vector_supported t
supported text t = text_supported t
supported bloom_filter t = bloom_filter_supported t

-- The printed type in the message is left out.
unfoldable pub validate_index_type : DataType → Str → IndexKind → Result (Unit {0})
validate_index_type t column kind =
    if supported kind t
    then ok tt
    else fail (lit "cannot create the requested index on column " ∷ txt column ∷ [])

abbrev column_at : Schema → Option ℕ → Option Field
column_at schema none = none
column_at schema (some i) = get_elem? schema.columns i

-- `Schema::field_with_name`.
abbrev pub field_with_name : Schema → Str → Option Field
field_with_name schema column = column_at schema (index_of schema column)

-- The loop over the requested indexes.
unfoldable pub validate_indexes : Schema → List (Str × IndexKind) → Result (Unit {0})
unfolding validate_index_type
validate_indexes schema [] = ok tt
validate_indexes schema ((column, kind) ∷ indexes) = do
  f ← ok_or (field_with_name schema column) (lit "index column not found: " ∷ txt column ∷ [])
  _ ← validate_index_type (data_type f) column kind
  validate_indexes schema indexes

-- `sort_by`, which is stable, on the columns.
unfoldable pub insert_index : Str × IndexKind → List (Str × IndexKind) → List (Str × IndexKind)
insert_index i [] = i ∷ []
insert_index i (j ∷ js) = if before j.0 i.0 then j ∷ insert_index i js else i ∷ j ∷ js

unfoldable pub sort_indexes : List (Str × IndexKind) → List (Str × IndexKind)
unfolding insert_index
sort_indexes [] = []
sort_indexes (i ∷ is) = insert_index i (sort_indexes is)

-- `windows(2).any(..)`.
unfoldable pub has_neighbours : List (Str × IndexKind) → Bool
has_neighbours [] = false
has_neighbours (i ∷ []) = false
has_neighbours (i ∷ j ∷ js) = same i.0 j.0 || has_neighbours (j ∷ js)

-- `LanceIndexPlan::new`.
unfoldable pub new_plan : Schema → List (Str × IndexKind) → Result (List (Str × IndexKind))
unfolding validate_indexes sort_indexes has_neighbours
new_plan schema indexes = do
  _ ← validate_indexes schema indexes
  bail_if (has_neighbours (sort_indexes indexes))
      (lit "a column cannot have multiple indexes in one write" ∷ [])
  ok (sort_indexes indexes)

abbrev is_vector : IndexKind → Bool
is_vector vector = true
is_vector scalar = false
is_vector text = false
is_vector bloom_filter = false

unfoldable pub has_vector : List (Str × IndexKind) → Bool
has_vector [] = false
has_vector (i ∷ is) = is_vector i.1 || has_vector is

-- The partitions of the vector indexes, of so many rows.
unfoldable pub vector_partitions : List (Str × IndexKind) → ℕ → ℕ
unfolding has_vector
vector_partitions indexes rows =
    if has_vector indexes then min (max (div_ceil rows target_vector_partition_rows) 1) 4096 else 0

abbrev label : IndexKind → String
label scalar = "BTree"
label vector = "vector"
label text = "text"
label bloom_filter = "Bloom filter"

-- What building one index makes of the dataset, of the column, the kind and, for a vector index, the partitions. Each
-- index is a version of the dataset; the results name those that were built.
module _ {Dataset : Type 0} (create_index : Dataset → Str → IndexKind → ℕ → Result Dataset) where
  abbrev pub and_built :
      Str × IndexKind
      → Result Dataset
      → (Dataset → List (Str × IndexKind) × Result Dataset)
      → List (Str × IndexKind) × Result Dataset
  and_built index (err e) rest = ([], err e)
  and_built index (ok dataset) rest = let (built, result) = rest dataset in (index ∷ built, result)

  -- The loop over the indexes.
  unfoldable pub create_each :
      ℕ → Dataset → List (Str × IndexKind) → List (Str × IndexKind) × Result Dataset
  create_each partitions dataset [] = ([], ok dataset)
  create_each partitions dataset ((column, kind) ∷ indexes) =
      and_built (column, kind)
        (context (create_index dataset column kind partitions)
          (lit "creating " ∷ lit (label kind) ∷ lit " index on '" ∷ txt column ∷ lit "'" ∷ []))
        (λ built. create_each partitions built indexes)

  abbrev pub create_counted :
      Dataset → List (Str × IndexKind) → Result ℕ → List (Str × IndexKind) × Result Dataset
  create_counted dataset indexes (err e) = ([], err e)
  create_counted dataset indexes (ok n) = create_each (vector_partitions indexes n) dataset indexes

  -- `LanceIndexPlan::create`. The rows are counted only for a vector index.
  unfoldable pub create :
      (Dataset → Result ℕ)
      → Dataset
      → List (Str × IndexKind)
      → List (Str × IndexKind) × Result Dataset
  unfolding create_each
  create count_rows dataset indexes =
      if has_vector indexes
      then create_counted dataset indexes (count_rows dataset)
      else create_each 0 dataset indexes
