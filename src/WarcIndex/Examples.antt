-- ===== src/WarcIndex/Examples.antt =====
-- The plan of a small index, and an index file of one line.
use duckdb_lance_conversion.Base.{
  ℕ, ◌+◌, ◌-◌, ◌<◌, ◌≤◌, ◌≡◌, ◌≢◌, ◌↔◌, refl, Option, none, some, List, [], ◌∷◌, All, Str, codes,
  same, arith, u64_max, div_ceil, trim, starts_with, parse_unsigned, if◌then◌else◌,
}
use duckdb_lance_conversion.Error.{ok, IsOk}
use duckdb_lance_conversion.WarcIndex.{
  Range, JsonLibrary, build_index_work_units, parse_warc_index, push_entry, parse_index_line,
  from_brace,
}
use duckdb_lance_conversion.WarcIndex.Plan.{IsNonempty, IsAscending, covers}
use duckdb_lance_conversion.WarcIndex.Order.{bytes_of, count, work_units-IsOk}
use duckdb_lance_conversion.WarcIndex.Cover.{work_units_cover}
use duckdb_lance_conversion.WarcIndex.Balance.{work_units_short}
use duckdb_lance_conversion.WarcIndex.Parse.{IsValid, parse_warc_index-IsValid}

abbrev first : Range
first = record { start = 0; end = 10 }

abbrev rest : List Range
rest = record { start = 30; end = 45 } ∷ record { start = 10; end = 30 } ∷ []

abbrev planned : List Range
planned = record { start = 0; end = 30 } ∷ record { start = 30; end = 45 } ∷ []

plan : build_index_work_units (first ∷ rest) 2 ≡ ok planned
unfolding build_index_work_units div_ceil push_entry
plan = refl

entries-IsNonempty : All IsNonempty (first ∷ rest)
entries-IsNonempty = (omega arith, (omega arith, (omega arith, tt)))

work_units_cover_example :
    ((b : ℕ) → covers planned b ≡ covers (first ∷ rest) b)
    × All IsNonempty planned
    × IsAscending planned
work_units_cover_example = work_units_cover (first ∷ rest) 2 planned entries-IsNonempty plan

work_units-IsOk_example :
    IsOk (build_index_work_units (first ∷ rest) 2)
    ↔ ((bytes_of (first ∷ rest) ≤ u64_max) × ((b : ℕ) → count (first ∷ rest) b ≤ 1))
work_units-IsOk_example = work_units-IsOk (first ∷ rest) 2 entries-IsNonempty

work_units_short_example :
    All (λ u. u.end - u.start < div_ceil (bytes_of (first ∷ rest)) 2 + 20) planned
work_units_short_example =
    work_units_short 20 first rest 2 planned (omega arith)
      ((omega arith, omega arith), ((omega arith, omega arith), ((omega arith, omega arith), tt)))
      plan

-- A parser that knows one object, and reads nothing else.
abbrev tiny_field : Str → Option Str
tiny_field k =
    if same k (codes "offset")
    then some (codes "7")
    else if same k (codes "length")
    then some (codes "5")
    else none

abbrev tiny_json : JsonLibrary
tiny_json = record {
  Value = Str;
  from_str = λ s. if same s (codes "{}") then some s else none;
  get = λ v. tiny_field;
  as_u64 = λ v. none;
  as_str = λ v. some v;
}

abbrev parsed : List Range
parsed = record { start = 7; end = 12 } ∷ []

abbrev index_lines : List (Option Str)
index_lines = some (codes "# comment") ∷ some (codes "key {}") ∷ some [] ∷ []

parse : parse_warc_index tiny_json index_lines (codes "a.warc.gz") ≡ ok parsed
unfolding parse_warc_index parse_index_line trim starts_with from_brace same parse_unsigned
parse = refl

parse_warc_index-IsValid_example : All IsValid parsed × (parsed ≢ [])
parse_warc_index-IsValid_example =
    parse_warc_index-IsValid tiny_json index_lines (codes "a.warc.gz") parsed parse
