-- ===== src/Atif.antt =====
-- rust/src/source/atif.rs, rust/src/source/atif/media.rs and rust/src/atif.rs: ATIF trajectories. Here is the format of a
-- file; the children are the media that are read into the trajectories, the schema, and the source.
pub mod Media
pub mod Schema
pub mod Reader
mod Object
mod Origin
mod Examples
use duckdb_lance_conversion.Base.{
  ℕ, Bool, true, false, ◌&&◌, ◌||◌, Option, none, some, List, [], ◌∷◌, ◌++◌, Str, codes, same,
  is_empty, length, sum, map, ◌==◌, starts_with, ends_with, to_ascii_lowercase, if◌then◌else◌,
}
use duckdb_lance_conversion.Error.{
  Result, ok, err, ◌>>=◌, ◌>>◌, map_ok, bail_if, ok_or, fail, context, lit, txt, from_cause,
  parse_error,
}
use duckdb_lance_conversion.Metrics.{ReadMetrics, add_total_bytes, add_bytes_read, set_total_bytes}
use duckdb_lance_conversion.Source.{is_gzipped}
use duckdb_lance_conversion.Storage.Open.{StorageLibrary, S3StorageConfig, Config}
use duckdb_lance_conversion.Storage.Input.{InputFile, open_input}
use duckdb_lance_conversion.WarcIndex.{file_name}

pub data InputFormat : Type 0 where
  json json_lines : InputFormat

-- The last dot of a file name: what is before it, and after it.
unfoldable pub last_dot : Str → Option (Str × Str)
last_dot [] = none
last_dot (c ∷ cs) = elim (last_dot cs) [
  | some (before, after) ↦ some (c ∷ before, after)
  | none ↦ if c == b'.' then some ([], cs) else none
]

-- `Path::file_stem` and `Path::extension` of a file name. A dot in front begins no extension.
abbrev stem_of : Str → Option (Str × Str) → Str
stem_of name none = name
stem_of name (some ([], after)) = name
stem_of name (some (c ∷ before, after)) = c ∷ before

abbrev extension_of : Option (Str × Str) → Option Str
extension_of none = none
extension_of (some ([], after)) = none
extension_of (some (c ∷ before, after)) = some after

abbrev and_then : {A B : Type 0} → Option A → (A → Option B) → Option B
and_then none f = none
and_then (some a) f = f a

abbrev file_stem : Str → Option Str
file_stem path = and_then (file_name path) (λ name. some (stem_of name (last_dot name)))

abbrev extension : Str → Option Str
extension path = and_then (file_name path) (λ name. extension_of (last_dot name))

abbrev inferred : Str → Option Str
inferred path = if is_gzipped path then and_then (file_stem path) extension else extension path

abbrev or_inferred : Option Str → Option Str → Str
or_inferred (some format) other = format
or_inferred none (some format) = format
or_inferred none none = []

abbrev format_named : Str → Str → Result InputFormat
format_named path format =
    if same format (codes "json")
    then ok json
    else if same format (codes "jsonl") || same format (codes "ndjson")
    then ok json_lines
    else fail (
        lit "unsupported ATIF format '"
        ∷ txt format
        ∷ lit "' for '"
        ∷ txt path
        ∷ lit "'; set format to 'json' or 'jsonl'"
        ∷ [])

unfoldable pub input_format : Str → Option Str → Result InputFormat
unfolding last_dot
input_format path format =
    format_named path (to_ascii_lowercase (or_inferred format (inferred path)))
