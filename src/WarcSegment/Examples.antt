-- ===== src/WarcSegment/Examples.antt =====
-- An address of a segment, and a manifest of two files.
use duckdb_lance_conversion.Base.{
  ◌≡◌, ◌≢◌, ◌↔◌, refl, true, Option, none, some, List, [], ◌∷◌, Str, codes, lines, arith, ends_with,
  trim, starts_with,
}
use duckdb_lance_conversion.Error.{Result, ok, context}
use duckdb_lance_conversion.WarcSegment.{WarcSegment, parse, root_of, files, manifest_path}
use duckdb_lance_conversion.WarcSegment.Address.{parse-segment, address, segment_parts}
use duckdb_lance_conversion.WarcSegment.Files.{files_of_manifest, Selects, folder}

parse-segment_example :
    parse (address true (segment_parts (codes "mirror" ∷ []) (codes "CC-1") (codes "17") true))
    ≡ some (record {
      root = root_of (codes "mirror" ∷ []);
      crawl = codes "CC-1";
      segment = some (codes "17");
    })
unfolding ends_with
parse-segment_example =
    parse-segment (codes "mirror" ∷ []) (codes "CC-1") (codes "17") true true (ground arith, tt)
      (ground arith) (ground arith) refl refl refl

abbrev crawl : WarcSegment
crawl = record { root = codes "r/"; crawl = codes "C"; segment = none }

abbrev manifest : Str
manifest = codes "crawl-data/C/a\ncrawl-data/D/b\n"

abbrev read_text : Str → Result Str
read_text path = ok manifest

abbrev plain : Str → Option Str
plain text = some text

abbrev crawl_files : List Str
crawl_files = codes "r/crawl-data/C/a" ∷ []

read_files : files read_text plain crawl ≡ ok crawl_files
unfolding files context lines trim starts_with
read_files = refl

files_of_manifest_example : (files read_text plain crawl ≡ ok crawl_files) ↔ (
    (blob : Str) × (text : Str) × (read_text (manifest_path crawl) ≡ ok blob)
    × (plain blob ≡ some text)
    × Selects crawl.root (folder crawl) (lines text) crawl_files
    × (crawl_files ≢ []))
files_of_manifest_example = files_of_manifest read_text plain crawl crawl_files
