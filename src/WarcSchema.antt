-- ===== src/WarcSchema.antt =====
-- rust/src/source/warc.rs: the columns of a WARC table, and the projection of a scan.
pub mod Projection
mod Examples
use duckdb_lance_conversion.Base.{
  ℕ, zero, suc, ◌≡◌, Bool, true, false, ◌&&◌, ◌||◌, Option, none, some, List, [], ◌∷◌, Str, String,
  codes, is_empty, length, get_elem?, set, if◌then◌else◌,
}
use duckdb_lance_conversion.Arrow.{
  Field, field, DataType, utf8, uint64, timestamp, millisecond, binary_view, Schema,
}
use duckdb_lance_conversion.Error.{Result, ok, err, ◌>>=◌, ◌>>◌, fail, bail_if, ok_or, lit, num}

abbrev pub body_column_index : ℕ
body_column_index = 19

abbrev column : String → DataType → Bool → Field
column n t nullable = field (codes n) t nullable []

unfoldable pub warc_columns : List Field
warc_columns =
    column "id" utf8 false
    ∷ column "content_length" uint64 false
    ∷ column "date" (timestamp millisecond none) false
    ∷ column "type" utf8 false
    ∷ column "content_type" utf8 true
    ∷ column "concurrent_to" utf8 true
    ∷ column "block_digest" utf8 true
    ∷ column "payload_digest" utf8 true
    ∷ column "ip_address" utf8 true
    ∷ column "refers_to" utf8 true
    ∷ column "target_uri" utf8 true
    ∷ column "truncated" utf8 true
    ∷ column "warc_info_id" utf8 true
    ∷ column "filename" utf8 true
    ∷ column "profile" utf8 true
    ∷ column "identified_payload_type" utf8 true
    ∷ column "segment_number" uint64 true
    ∷ column "segment_origin_id" utf8 true
    ∷ column "segment_total_length" uint64 true
    ∷ column "body" binary_view false
    ∷ []

pub data WarcHeader : Type 0 where
  content_type concurrent_to block_digest payload_digest ip_address refers_to : WarcHeader
  target_uri truncated warc_info_id filename profile identified_payload_type : WarcHeader
  segment_number segment_origin_id segment_total_length : WarcHeader

-- The header behind a string column, by its index.
abbrev string_headers : List (Option WarcHeader)
string_headers =
    none
    ∷ none
    ∷ none
    ∷ none
    ∷ some content_type
    ∷ some concurrent_to
    ∷ some block_digest
    ∷ some payload_digest
    ∷ some ip_address
    ∷ some refers_to
    ∷ some target_uri
    ∷ some truncated
    ∷ some warc_info_id
    ∷ some filename
    ∷ some profile
    ∷ some identified_payload_type
    ∷ none
    ∷ some segment_origin_id
    ∷ []

abbrev flatten_option : Option (Option WarcHeader) → Option WarcHeader
flatten_option none = none
flatten_option (some o) = o

unfoldable pub string_header : ℕ → Option WarcHeader
string_header index = flatten_option (get_elem? string_headers index)

-- `0..n`, from `i` on.
unfoldable pub range_from : ℕ → ℕ → List ℕ
range_from i zero = []
range_from i (suc n) = i ∷ range_from (suc i) n

unfoldable pub all_false : ℕ → List Bool
all_false zero = []
all_false (suc n) = false ∷ all_false n

-- One round of the loop over the projection: the mark of the column before, and the marks after.
abbrev mark : Option Bool → ℕ → List Bool → Result (List Bool)
mark none index seen = fail (lit "invalid WARC column index: " ∷ num index ∷ [])
mark (some true) index seen = fail (lit "duplicate WARC column index: " ∷ num index ∷ [])
mark (some false) index seen = ok (set seen index true)

unfoldable pub check_columns : List Bool → List ℕ → Result (List Bool)
check_columns seen [] = ok seen
check_columns seen (index ∷ rest) = do
  seen' ← mark (get_elem? seen index) index seen
  check_columns seen' rest

-- An absent or empty projection reads every column.
unfoldable pub requested : Option (List ℕ) → List ℕ
unfolding warc_columns range_from
requested none = range_from 0 (length warc_columns)
requested (some []) = range_from 0 (length warc_columns)
requested (some (i ∷ is)) = i ∷ is

-- `full_schema.field(index)` panics out of range, which the checks before exclude.
unfoldable pub project_columns : List Field → List ℕ → List Field
project_columns columns [] = []
project_columns columns (i ∷ is) = elim (get_elem? columns i) [
  | none ↦ project_columns columns is
  | some f ↦ f ∷ project_columns columns is
]

unfoldable pub projected_schema : Option (List ℕ) → Result (List ℕ × List Field)
unfolding requested check_columns project_columns all_false
projected_schema projection = do
  let columns = requested projection
  _ ← check_columns (all_false (length warc_columns)) columns
  ok (columns, project_columns warc_columns columns)
