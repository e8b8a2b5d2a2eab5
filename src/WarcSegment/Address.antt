-- ===== src/WarcSegment/Address.antt =====
-- Segment addresses: what a path stands for.
use mathlib.Core.List.{reverse-append, reverse-reverse}
use duckdb_lance_conversion.Base.{
  ◌≡◌, refl, ap, Bool, true, false, ◌&&◌, some, List, [], ◌∷◌, ◌++◌, All, Str, codes, same, split,
  join, Lacks, split-Lacks, split-append, is_empty, arith,
}
use duckdb_lance_conversion.WarcSegment.{
  nonempty_parts, root_of, strip_warc, parse_parts, parse, is_segment_name,
}

-- One component of a path: not empty, and without a slash.
abbrev pub IsName : Str → Type 0
IsName p = (is_empty p ≡ false) × Lacks b'/' p

-- The components with a slash between them, and one at the end if `slash` holds.
abbrev pub address : Bool → List Str → Str
address true parts = root_of parts
address false parts = join b'/' parts

parts-root_of :
    (parts : List Str) → All IsName parts → nonempty_parts (split b'/' (root_of parts)) ≡ parts
unfolding root_of split
parts-root_of [] h = refl
parts-root_of (p ∷ ps) h =
    rw (split-append b'/' p (root_of ps) h.0.1) (rw h.0.0 (ap (◌∷◌ p) (parts-root_of ps h.1)))

parts-join :
    (parts : List Str) → All IsName parts → nonempty_parts (split b'/' (join b'/' parts)) ≡ parts
unfolding join split
parts-join [] h = refl
parts-join (p ∷ []) h = rw (split-Lacks b'/' p h.0.1) (rw h.0.0 refl)
parts-join (p ∷ q ∷ ps) h =
    rw (split-append b'/' p (join b'/' (q ∷ ps)) h.0.1)
      (rw h.0.0 (ap (◌∷◌ p) (parts-join (q ∷ ps) h.1)))

parts-address :
    (slash : Bool) (parts : List Str)
    → All IsName parts
    → nonempty_parts (split b'/' (address slash parts)) ≡ parts
parts-address true parts h = parts-root_of parts h
parts-address false parts h = parts-join parts h

abbrev pub warc_part : Bool → List Str
warc_part true = codes "warc" ∷ []
warc_part false = []

-- The components that address a segment, or a whole crawl.
abbrev pub segment_parts : List Str → Str → Str → Bool → List Str
segment_parts root crawl segment warc_dir =
    root ++ (codes "crawl-data" ∷ crawl ∷ codes "segments" ∷ segment ∷ warc_part warc_dir)

abbrev pub crawl_parts : List Str → Str → List Str
crawl_parts root crawl = root ++ (codes "crawl-data" ∷ crawl ∷ codes "warc.paths.gz" ∷ [])

All-IsName :
    (root parts : List Str) → All IsName root → All IsName parts → All IsName (root ++ parts)
All-IsName [] parts h k = k
All-IsName (p ∷ ps) parts h k = (h.0, All-IsName ps parts h.1 k)

and_false : (b : Bool) → (b && false) ≡ false
and_false true = refl
and_false false = refl

parse_parts-segment :
    (root : List Str) (crawl segment : Str) (warc_dir : Bool)
    → is_segment_name segment ≡ true
    → same segment (codes "warc.paths.gz") ≡ false
    → same segment (codes "warc") ≡ false
    → parse_parts (segment_parts root crawl segment warc_dir)
      ≡ some (record { root = root_of root; crawl = crawl; segment = some segment })
unfolding parse_parts same
parse_parts-segment root crawl segment true n w v =
    rw (reverse-append root) (simp (w, and_false, n, reverse-reverse))
parse_parts-segment root crawl segment false n w v =
    rw (reverse-append root) (simp (v, strip_warc) (simp (w, and_false, n, reverse-reverse)))

crawl_data-IsName : IsName (codes "crawl-data")
crawl_data-IsName = ground arith

segments-IsName : IsName (codes "segments")
segments-IsName = ground arith

warc-IsName : IsName (codes "warc")
warc-IsName = ground arith

literal_names :
    (crawl segment : Str) (warc_dir : Bool)
    → IsName crawl
    → IsName segment
    → All IsName (codes "crawl-data" ∷ crawl ∷ codes "segments" ∷ segment ∷ warc_part warc_dir)
literal_names crawl segment true c s =
    (crawl_data-IsName, (c, (segments-IsName, (s, (warc-IsName, tt)))))
literal_names crawl segment false c s = (crawl_data-IsName, (c, (segments-IsName, (s, tt))))

-- A path whose components end in `crawl-data/<crawl>/segments/<segment>`, with or without a `warc`
-- directory and a slash behind, is parsed to that crawl and segment, below the root that the
-- components before it make. Components are not empty and have no slash; the segment's name does not
-- end in `.warc` or `.warc.gz` and is neither `warc` nor `warc.paths.gz`.
pub parse-segment :
    (root : List Str) (crawl segment : Str) (warc_dir slash : Bool)
    → All IsName root
    → IsName crawl
    → IsName segment
    → is_segment_name segment ≡ true
    → same segment (codes "warc.paths.gz") ≡ false
    → same segment (codes "warc") ≡ false
    → parse (address slash (segment_parts root crawl segment warc_dir))
      ≡ some (record { root = root_of root; crawl = crawl; segment = some segment })
unfolding parse
parse-segment root crawl segment warc_dir slash r c s n w v =
    rw
      (parts-address slash (segment_parts root crawl segment warc_dir)
        (All-IsName root _ r (literal_names crawl segment warc_dir c s)))
      (parse_parts-segment root crawl segment warc_dir n w v)
