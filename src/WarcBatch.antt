-- ===== src/WarcBatch.antt =====
-- rust/src/source/warc.rs: the builder of one batch of records, column by column.
pub mod Columns
pub mod BodyColumn
pub mod Append
use duckdb_lance_conversion.Base.{
  ℕ, zero, suc, ◌+◌, ◌*◌, ◌≡◌, Bool, true, false, ◌&&◌, ◌||◌, Option, none, some, List, [], ◌∷◌,
  ◌++◌, Str, length, get_elem?, set, u32_max, u64_max, saturating_add, parse_unsigned, ltb, leb,
  ◌==◌, if◌then◌else◌,
}
use duckdb_lance_conversion.Arrow.{Field}
use duckdb_lance_conversion.Error.{
  Result, ok, err, ◌>>=◌, ◌>>◌, fail, bail_if, ok_or, lit, num, txt, Message,
}
use duckdb_lance_conversion.WarcSchema.{
  WarcHeader, segment_number, segment_total_length, string_header, body_column_index,
}

abbrev pub max_batch_body_bytes : ℕ
max_batch_body_bytes = 16 * 1024 * 1024

-- A signed count of milliseconds.
pub data Millis : Type 0 where
  pos : ℕ → Millis
  negsuc : ℕ → Millis

-- What the builder reads of a record of the crate `warc_rs`. The body is what its buffering returns, `none`
-- for an error.
pub record WarcRecord : Type 0 where
  pub warc_id : Str
  pub content_length : ℕ
  pub date : Millis
  pub warc_type : Str
  pub header : WarcHeader → Option Str
  pub body : Option (List ℕ)

unfoldable pub optional_u64 : Option Str → Message → Result (Option ℕ)
optional_u64 none name = ok none
optional_u64 (some value) name = elim (parse_unsigned u64_max value) [
  | none ↦ fail (lit "invalid WARC " ∷ (name ++ (lit ": " ∷ txt value ∷ [])))
  | some n ↦ ok (some n)
]

-- `ProjectedColumnBuilder`, with the values appended so far.
pub data ProjectedColumnBuilder : Type 0 where
  utf8_column : List (Option Str) → ProjectedColumnBuilder
  uint64_column : List (Option ℕ) → ProjectedColumnBuilder
  timestamp_column : List Millis → ProjectedColumnBuilder
  body_column : List (List ℕ) → ProjectedColumnBuilder

abbrev pub is_some {ℓ} : {A : Type ℓ} → Option A → Bool
is_some none = false
is_some (some a) = true

-- The reserved capacity has no effect on the values.
unfoldable pub new_column : ℕ → Result ProjectedColumnBuilder
new_column index =
    if index == 0 || index == 3 || is_some (string_header index)
    then ok (utf8_column [])
    else if index == 1 || index == 16 || index == 18
    then ok (uint64_column [])
    else if index == 2
    then ok (timestamp_column [])
    else if index == body_column_index
    then ok (body_column [])
    else fail (lit "invalid WARC column index: " ∷ num index ∷ [])

pub record WarcBatchBuilder : Type 0 where
  pub len : ℕ
  pub body_bytes : ℕ
  pub projection : List ℕ
  pub schema : List Field
  pub columns : List ProjectedColumnBuilder
  pub body_position : Option ℕ

unfoldable pub new_columns : List ℕ → Result (List ProjectedColumnBuilder)
unfolding new_column
new_columns [] = ok []
new_columns (index ∷ rest) = do
  column ← new_column index
  columns ← new_columns rest
  ok (column ∷ columns)

-- `Iterator::position` of an index.
unfoldable pub position : ℕ → List ℕ → Option ℕ
position index [] = none
position index (i ∷ is) =
    if i == index then some 0 else elim (position index is) [ none ↦ none | some p ↦ some (suc p) ]

unfoldable pub new_batch : List ℕ → List Field → Result WarcBatchBuilder
unfolding new_columns position
new_batch projection schema = do
  columns ← new_columns projection
  ok (record {
    len = 0;
    body_bytes = 0;
    projection = projection;
    schema = schema;
    columns = columns;
    body_position = position body_column_index projection;
  })

unfoldable pub would_exceed_body_limit : WarcBatchBuilder → ℕ → Bool
would_exceed_body_limit b body_len =
    is_some b.body_position && ltb max_batch_body_bytes (saturating_add b.body_bytes body_len)

-- The batch taken out, and the empty one left in its place.
unfoldable pub take_empty : WarcBatchBuilder → Result (WarcBatchBuilder × WarcBatchBuilder)
take_empty b = do replacement ← new_batch b.projection b.schema; ok (b, replacement)

-- The cases of the `match` on a string column.
abbrev append_string :
    Option WarcHeader → WarcRecord → ℕ → List (Option Str) → Result ProjectedColumnBuilder
append_string none r index values = fail (lit "invalid WARC string column index: " ∷ num index ∷ [])
append_string (some h) r index values = ok (utf8_column (values ++ (r.header h ∷ [])))

unfoldable pub append_cell : WarcRecord → ℕ → ProjectedColumnBuilder → Result ProjectedColumnBuilder
unfolding optional_u64
append_cell r index (utf8_column values) =
    if index == 0
    then ok (utf8_column (values ++ (some r.warc_id ∷ [])))
    else if index == 3
    then ok (utf8_column (values ++ (some r.warc_type ∷ [])))
    else append_string (string_header index) r index values
append_cell r index (uint64_column values) =
    let append = λ (o : Option ℕ). uint64_column (values ++ (o ∷ [])) in
    if index == 1
    then ok (append (some r.content_length))
    else if index == 16
    then optional_u64 (r.header segment_number) (lit "segment number" ∷ []) >>= (λ o. ok (append o))
    else if index == 18
    then optional_u64 (r.header segment_total_length) (lit "segment total length" ∷ [])
      >>= (λ o. ok (append o))
    else fail (lit "WARC column builder type mismatch" ∷ [])
append_cell r index (timestamp_column values) =
    if index == 2
    then ok (timestamp_column (values ++ (r.date ∷ [])))
    else fail (lit "WARC column builder type mismatch" ∷ [])
append_cell r index (body_column values) =
    if index == body_column_index
    then ok (body_column values)
    else fail (lit "WARC column builder type mismatch" ∷ [])

-- The loop over the columns and their indices, in step.
unfoldable pub append_cells :
    WarcRecord → List ℕ → List ProjectedColumnBuilder → Result (List ProjectedColumnBuilder)
unfolding append_cell
append_cells r [] columns = ok columns
append_cells r (index ∷ is) [] = ok []
append_cells r (index ∷ is) (column ∷ columns) = do
  column' ← append_cell r index column
  columns' ← append_cells r is columns
  ok (column' ∷ columns')

unfoldable pub append_metadata : WarcBatchBuilder → WarcRecord → Result WarcBatchBuilder
unfolding append_cells
append_metadata b r = do
  columns ← append_cells r b.projection b.columns
  ok (record b { columns = columns })

abbrev find_column : Option ℕ → List ProjectedColumnBuilder → Option (ℕ × ProjectedColumnBuilder)
find_column none columns = none
find_column (some p) columns = elim (get_elem? columns p) [ none ↦ none | some c ↦ some (p, c) ]

abbrev push_body : WarcBatchBuilder → List ℕ → ℕ × ProjectedColumnBuilder → Result WarcBatchBuilder
push_body b body (p, body_column values) = ok (record b {
  columns = set b.columns p (body_column (values ++ (body ∷ [])));
  body_bytes = b.body_bytes + length body;
})
push_body b body (p, utf8_column values) = fail (lit "WARC body column builder type mismatch" ∷ [])
push_body b body (p, uint64_column values) =
    fail (lit "WARC body column builder type mismatch" ∷ [])
push_body b body (p, timestamp_column values) =
    fail (lit "WARC body column builder type mismatch" ∷ [])

-- The body becomes a block of its own and a view of the whole block.
unfoldable pub append_body : WarcBatchBuilder → List ℕ → Result WarcBatchBuilder
append_body b body = do
  bail_if (ltb u32_max (length body)) (lit "WARC body exceeds Arrow BinaryView limit" ∷ [])
  column ←
      ok_or (find_column b.body_position b.columns) (lit "WARC body column is not projected" ∷ [])
  push_body b body column

-- One round of the reading loop between its two flushes: the metadata, the body and the count.
unfoldable pub append_record : Bool → WarcBatchBuilder → WarcRecord → Result WarcBatchBuilder
append_record include_body b r = do
  with_metadata ← append_metadata b r
  with_body ←
      (if include_body
        then (ok_or r.body (lit "WARC body error" ∷ [])
            >>= (λ body. append_body with_metadata body))
        else ok with_metadata)
  ok (record with_body { len = with_body.len + 1 })
