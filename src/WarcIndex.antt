-- ===== src/WarcIndex.antt =====
-- rust/src/source/warc_index.rs: the index of a WARC archive, and the range reads planned from it.
mod Plan
mod Order
mod Cover
mod Balance
mod Parse
mod Examples
use mathlib.Core.List.{reverse}
use duckdb_lance_conversion.Base.{
  ℕ, suc, ◌+◌, ◌-◌, ◌≡◌, Bool, true, false, ◌&&◌, ◌||◌, Option, none, some, List, [], ◌∷◌, ◌++◌,
  Str, codes, same, starts_with, ends_with, trim, parse_unsigned, split, is_empty, u64_max,
  checked_add, ltb, leb, ◌==◌, if◌then◌else◌, div_ceil,
}
use duckdb_lance_conversion.Error.{
  Result, ok, err, ◌>>=◌, ◌>>◌, map_ok, fail, bail_if, ok_or, lit, txt, num, Message,
}

-- `Range<u64>`: the bytes from `start` up to, and without, `end`.
pub record Range : Type 0 where
  pub start : ℕ
  pub end : ℕ

-- `Path::file_name` on Unix: the last component, unless it is `..`.
real_parts : List Str → List Str
real_parts [] = []
real_parts (p ∷ ps) = if is_empty p || same p (codes ".") then real_parts ps else p ∷ real_parts ps

last_name : List Str → Option Str
last_name [] = none
last_name (p ∷ []) = if same p (codes "..") then none else some p
last_name (p ∷ q ∷ ps) = last_name (q ∷ ps)

unfoldable pub file_name : Str → Option Str
unfolding real_parts last_name
file_name path = last_name (real_parts (split b'/' path))

same_name : Option Str → Option Str → Bool
same_name none none = true
same_name none (some b) = false
same_name (some a) none = false
same_name (some a) (some b) = same a b

unfoldable pub index_filename_matches : Str → Str → Bool
unfolding same_name file_name
index_filename_matches source_path filename =
    ends_with filename source_path || same_name (file_name source_path) (file_name filename)

-- What the code uses of `serde_json`: a value, its parser and its accessors.
pub record JsonLibrary : Type 1 where
  pub Value : Type 0
  pub from_str : Str → Option Value
  pub get : Value → Str → Option Value
  pub as_u64 : Value → Option ℕ
  pub as_str : Value → Option Str

-- The text from the first `{` on: `&line[line.find('{')?..]`.
unfoldable pub from_brace : Str → Option Str
from_brace [] = none
from_brace (c ∷ cs) = if c == b'{' then some (c ∷ cs) else from_brace cs

-- `object.get("filename").and_then(Value::as_str)` names another file than the source.
abbrev other_file : Option Str → Str → Bool
other_file none source_path = false
other_file (some filename) source_path =
    if index_filename_matches source_path filename then false else true

abbrev line_message : ℕ → Message → Message
line_message n m = lit "WARC index line " ∷ num n ∷ m

abbrev or_else : Option ℕ → Option ℕ → Option ℕ
or_else none b = b
or_else (some a) b = some a

abbrev parse_text : Option Str → Option ℕ
parse_text none = none
parse_text (some s) = parse_unsigned u64_max s

abbrev push_option : Option Range → List Range → List Range
push_option none entries = entries
push_option (some r) entries = r ∷ entries

module _ (json : JsonLibrary) where
  open json use {Value, from_str, get, as_u64, as_str}

  abbrev bind_option {κ} : {B : Type κ} → Option Value → (Value → Option B) → Option B
  bind_option none f = none
  bind_option (some v) f = f v

  unfoldable pub json_u64 : Value → Str → ℕ → Result ℕ
  json_u64 object name n = do
    value ← ok_or (get object name) (line_message n (lit " has no " ∷ txt name ∷ []))
    ok_or (or_else (as_u64 value) (parse_text (as_str value)))
        (line_message n (lit " has invalid " ∷ txt name ∷ []))

  -- The range of one JSON object: the end of the loop's body.
  unfoldable pub entry_range : Value → ℕ → Result Range
  unfolding json_u64 checked_add
  entry_range object n = do
    offset ← json_u64 object (codes "offset") n
    length ← json_u64 object (codes "length") n
    bail_if (length == 0) (line_message n (lit " has zero length" ∷ []))
    end ← ok_or (checked_add offset length) (lit "WARC index offset plus length overflows u64" ∷ [])
    ok (record { start = offset; end = end })

  -- An object that names another file is skipped: `none` is a `continue`.
  unfoldable pub parse_object : Str → ℕ → Value → Result (Option Range)
  unfolding entry_range
  parse_object source_path n object =
      if other_file (bind_option (get object (codes "filename")) as_str) source_path
      then ok none
      else map_ok some (entry_range object n)

  -- A line that is not blank and no comment. The parser's own text in the message is left out.
  unfoldable pub parse_json_line : Str → ℕ → Str → Result (Option Range)
  unfolding parse_object
  parse_json_line source_path n line = do
    body ← ok_or (from_brace line) (line_message n (lit " is not JSON or CDXJ" ∷ []))
    object ← ok_or (from_str body) (lit "invalid WARC index line " ∷ num n ∷ [])
    parse_object source_path n object

  -- One round of the loop, on a trimmed line.
  unfoldable pub parse_index_line : Str → ℕ → Str → Result (Option Range)
  unfolding parse_json_line
  parse_index_line source_path n line =
      if is_empty line || starts_with (codes "#") line
      then ok none
      else parse_json_line source_path n line

  -- The loop over the numbered lines, `n` lines before these. A line that cannot be read is `none`.
  parse_lines : Str → ℕ → List (Option Str) → Result (List Range)
  parse_lines source_path n [] = ok []
  parse_lines source_path n (line ∷ lines) = do
    text ← ok_or line (lit "reading WARC index line " ∷ num (suc n) ∷ [])
    entry ← parse_index_line source_path (suc n) (trim text)
    entries ← parse_lines source_path (suc n) lines
    ok (push_option entry entries)

  unfoldable pub parse_warc_index : List (Option Str) → Str → Result (List Range)
  unfolding parse_lines
  parse_warc_index lines source_path = do
    entries ← parse_lines source_path 0 lines
    bail_if (is_empty entries) (lit "WARC index contains no entries for the source file" ∷ [])
    ok entries

-- `try_fold` with `checked_add` over the lengths.
unfoldable pub total_length : ℕ → List Range → Result ℕ
unfolding checked_add
total_length total [] = ok total
total_length total (e ∷ es) = do
  total' ←
      ok_or (checked_add total (e.end - e.start)) (lit "WARC index total length overflows u64" ∷ [])
  total_length total' es

-- `sort_unstable_by_key(|entry| entry.start)`.
unfoldable pub insert_by_start : Range → List Range → List Range
insert_by_start r [] = r ∷ []
insert_by_start r (x ∷ xs) = if leb r.start x.start then r ∷ x ∷ xs else x ∷ insert_by_start r xs

unfoldable pub sort_by_start : List Range → List Range
unfolding insert_by_start
sort_by_start [] = []
sort_by_start (r ∷ rs) = insert_by_start r (sort_by_start rs)

-- One round of the loop. The units stand newest first, so `units.last_mut()` is the head.
unfoldable pub push_entry : ℕ → List Range → Range → Result (List Range)
push_entry target [] entry = ok (entry ∷ [])
push_entry target (unit ∷ units) entry =
    if ltb entry.start unit.end
    then fail (lit "WARC index entries overlap" ∷ [])
    else if entry.start == unit.end && ltb (unit.end - unit.start) target
    then ok (record unit { end = entry.end } ∷ units)
    else ok (entry ∷ unit ∷ units)

unfoldable pub merge_entries : ℕ → List Range → List Range → Result (List Range)
merge_entries target units [] = ok units
merge_entries target units (e ∷ es) = do
  units' ← push_entry target units e
  merge_entries target units' es

unfoldable pub build_index_work_units : List Range → ℕ → Result (List Range)
unfolding total_length sort_by_start merge_entries
build_index_work_units entries max_read_parallelism = do
  total ← total_length 0 entries
  units ← merge_entries (div_ceil total max_read_parallelism) [] (sort_by_start entries)
  ok (reverse units)
