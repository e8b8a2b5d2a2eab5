-- ===== src/ColumnEncoding/Settings.antt =====
-- The metadata of a field that got encoding settings.
use duckdb_lance_conversion.Base.{
  ◌≡◌, ◌∙◌, refl, false, Option, none, some, Str, String, codes, same,
}
use duckdb_lance_conversion.Arrow.{Metadata, get_meta, get-insert_meta, get-insert_other}
use duckdb_lance_conversion.ColumnEncoding.{
  ColumnEncoding, as_str, level_text, map_text, insert_some, extend,
}

-- A setting where it is given, or else what was there.
abbrev pub or_kept : Option Str → Option Str → Option Str
or_kept none kept = kept
or_kept (some value) kept = some value

abbrev compression_key : Str
compression_key = codes "lance-encoding:compression"

abbrev level_key : Str
level_key = codes "lance-encoding:compression-level"

abbrev structural_key : Str
structural_key = codes "lance-encoding:structural-encoding"

-- The metadata hold each setting that is given under its key, and otherwise what they held before.
pub record Extends (encoding : ColumnEncoding) (before after : Metadata) : Type 0 where
  pub compression :
      get_meta compression_key after
      ≡ or_kept encoding.compression (get_meta compression_key before)
  pub level :
      get_meta level_key after
      ≡ or_kept (map_text level_text encoding.compression_level) (get_meta level_key before)
  pub structural :
      get_meta structural_key after
      ≡ or_kept (map_text as_str encoding.structural_encoding) (get_meta structural_key before)
  pub others :
      (k : Str)
      → same compression_key k ≡ false
      → same level_key k ≡ false
      → same structural_key k ≡ false
      → get_meta k after ≡ get_meta k before

get-insert_some :
    (key : String) (o : Option Str) (m : Metadata)
    → get_meta (codes key) (insert_some key o m) ≡ or_kept o (get_meta (codes key) m)
get-insert_some key none m = refl
get-insert_some key (some value) m = get-insert_meta (codes key) value m

get-skip_some :
    (key : String) (o : Option Str) (m : Metadata) (k : Str)
    → same (codes key) k ≡ false
    → get_meta k (insert_some key o m) ≡ get_meta k m
get-skip_some key none m k d = refl
get-skip_some key (some value) m k d = get-insert_other k (codes key) value m d

abbrev with_compression : ColumnEncoding → Metadata → Metadata
with_compression encoding m = insert_some "lance-encoding:compression" encoding.compression m

abbrev with_level : ColumnEncoding → Metadata → Metadata
with_level encoding m =
    insert_some "lance-encoding:compression-level" (map_text level_text encoding.compression_level)
      (with_compression encoding m)

pub extend-Extends :
    (encoding : ColumnEncoding) (m : Metadata) → Extends encoding m (extend m encoding)
unfolding extend same
extend-Extends encoding m =
    let structural = map_text as_str encoding.structural_encoding in
    let level = map_text level_text encoding.compression_level in
    record {
      compression =
          get-skip_some "lance-encoding:structural-encoding" structural (with_level encoding m)
            compression_key refl
          ∙ get-skip_some "lance-encoding:compression-level" level (with_compression encoding m)
              compression_key refl
          ∙ get-insert_some "lance-encoding:compression" encoding.compression m;
      level =
          get-skip_some "lance-encoding:structural-encoding" structural (with_level encoding m)
            level_key refl
          ∙ get-insert_some "lance-encoding:compression-level" level (with_compression encoding m)
          ∙ rw (get-skip_some "lance-encoding:compression" encoding.compression m level_key refl)
              refl;
      structural =
          get-insert_some "lance-encoding:structural-encoding" structural (with_level encoding m)
          ∙ rw
              (
                get-skip_some "lance-encoding:compression-level" level (with_compression encoding m)
                    structural_key refl,
                get-skip_some "lance-encoding:compression" encoding.compression m structural_key
                    refl,
              )
              refl;
      others = λ k c l s.
          get-skip_some "lance-encoding:structural-encoding" structural (with_level encoding m) k s
          ∙ get-skip_some "lance-encoding:compression-level" level (with_compression encoding m) k l
          ∙ get-skip_some "lance-encoding:compression" encoding.compression m k c;
    }
