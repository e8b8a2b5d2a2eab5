-- ===== src/WarcIndex/Parse.antt =====
-- What the parser of the index lets through.
use duckdb_lance_conversion.Base.{
  ℕ, suc, ◌≤◌, ◌<◌, ◌≡◌, ◌≢◌, Option, none, some, List, [], ◌∷◌, All, Str, codes, Bool-cases, arith,
  inl, inr, u64_max, checked_add, is_empty, trim, starts_with, ◌||◌,
}
use duckdb_lance_conversion.Error.{
  ok, Yields, Yields-bind, Yields-ok, Yields-trivial, ok_or, bail_if, ◌>>◌, lit,
}
use duckdb_lance_conversion.WarcIndex.{
  Range, JsonLibrary, entry_range, parse_object, parse_json_line, parse_index_line, parse_lines,
  parse_warc_index, push_option, from_brace,
}

-- A range that `entry.end - entry.start` measures: not empty, and within 64 bits.
abbrev pub IsValid : Range → Type 0
IsValid r = (r.start < r.end) × (r.end ≤ u64_max)

abbrev IsValidOption : Option Range → Type 0
IsValidOption none = Unit {0}
IsValidOption (some r) = IsValid r

push_option-IsValid :
    (o : Option Range) (entries : List Range)
    → IsValidOption o
    → All IsValid entries
    → All IsValid (push_option o entries)
push_option-IsValid none entries v vs = vs
push_option-IsValid (some r) entries v vs = (v, vs)

nonempty_entries :
    (es : List Range)
    → All IsValid es
    → Yields
        (λ es. All IsValid es × (es ≢ []))
        (bail_if (is_empty es) (lit "WARC index contains no entries for the source file" ∷ [])
          >> ok es)
nonempty_entries [] v = tt
nonempty_entries (e ∷ es) v = (v, λ p. cc)

module _ (json : JsonLibrary) where
  entry_range-IsValid : (object : json.Value) (n : ℕ) → Yields IsValid (entry_range json object n)
  unfolding entry_range checked_add
  entry_range-IsValid object n = ground arith

  parse_object-IsValid :
      (source_path : Str) (n : ℕ) (object : json.Value)
      → Yields IsValidOption (parse_object json source_path n object)
  unfolding parse_object
  parse_object-IsValid source_path n object = ground (arith, entry_range-IsValid object n)

  parse_json_line-IsValid :
      (source_path : Str) (n : ℕ) (line : Str)
      → Yields IsValidOption (parse_json_line json source_path n line)
  unfolding parse_json_line
  parse_json_line-IsValid source_path n line =
      Yields-bind _ IsValidOption (ok_or (from_brace line) _) _
        (Yields-trivial (ok_or (from_brace line) _))
        λ body _.
          Yields-bind _ IsValidOption (ok_or (json.from_str body) _) _
            (Yields-trivial (ok_or (json.from_str body) _))
            λ object _. parse_object-IsValid source_path n object

  parse_index_line-IsValid :
      (source_path : Str) (n : ℕ) (line : Str)
      → Yields IsValidOption (parse_index_line json source_path n line)
  unfolding parse_index_line
  parse_index_line-IsValid source_path n line =
      elim (Bool-cases (is_empty line || starts_with (codes "#") line)) [
        | inl skipped ↦ rw skipped tt
        | inr kept ↦ rw kept (parse_json_line-IsValid source_path n line)
      ]

  parse_lines-IsValid :
      (source_path : Str) (n : ℕ) (lines : List (Option Str))
      → Yields (All IsValid) (parse_lines json source_path n lines)
  unfolding parse_lines
  parse_lines-IsValid source_path n [] = tt
  parse_lines-IsValid source_path n (none ∷ lines) = tt
  parse_lines-IsValid source_path n (some text ∷ lines) =
      Yields-bind IsValidOption (All IsValid)
        (parse_index_line json source_path (suc n) (trim text)) _
        (parse_index_line-IsValid source_path (suc n) (trim text))
        λ entry v.
          Yields-bind (All IsValid) (All IsValid) (parse_lines json source_path (suc n) lines) _
            (parse_lines-IsValid source_path (suc n) lines)
            λ entries vs. push_option-IsValid entry entries v vs

  -- Every range that the parser returns is not empty and ends within 64 bits, and there is one.
  pub parse_warc_index-IsValid :
      (lines : List (Option Str)) (source_path : Str) (entries : List Range)
      → parse_warc_index json lines source_path ≡ ok entries
      → All IsValid entries × (entries ≢ [])
  unfolding parse_warc_index
  parse_warc_index-IsValid lines source_path entries e =
      Yields-ok (λ es. All IsValid es × (es ≢ [])) (parse_warc_index json lines source_path) entries
        e
        (Yields-bind (All IsValid) (λ es. All IsValid es × (es ≢ []))
          (parse_lines json source_path 0 lines) _ (parse_lines-IsValid source_path 0 lines)
          λ es v. nonempty_entries es v)
