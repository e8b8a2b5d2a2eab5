-- ===== src/WarcSegment.antt =====
-- rust/src/source/warc_segment.rs: Common Crawl segments, and the files that a manifest lists of them.
mod Address
mod Files
mod Examples
use mathlib.Core.List.{reverse}
use duckdb_lance_conversion.Base.{
  ℕ, Bool, true, false, ◌&&◌, ◌||◌, Option, none, some, List, [], ◌∷◌, ◌++◌, map, Str, codes, same,
  starts_with, ends_with, trim, split, lines, is_empty, if◌then◌else◌, length, ltb,
}
use duckdb_lance_conversion.Error.{
  Result, ok, err, ◌>>=◌, ◌>>◌, fail, bail_if, ok_or, context, lit, txt, Message, error_message,
}

-- `segment` is `none` for the whole crawl.
pub record WarcSegment : Type 0 where
  pub root : Str
  pub crawl : Str
  pub segment : Option Str

-- The non-empty parts of a path.
abbrev pub nonempty_parts : List Str → List Str
nonempty_parts [] = []
nonempty_parts (p ∷ ps) = if is_empty p then nonempty_parts ps else p ∷ nonempty_parts ps

-- Each part followed by a slash.
unfoldable pub root_of : List Str → Str
root_of [] = []
root_of (p ∷ ps) = p ++ (b'/' ∷ root_of ps)

-- A WARC file stored directly under `segments/` is not a segment.
abbrev pub is_segment_name : Str → Bool
is_segment_name s =
    if ends_with (codes ".warc") s || ends_with (codes ".warc.gz") s then false else true

-- The slice patterns match from the end, so the parts stand last first.
-- `strip_suffix(&["warc"]).unwrap_or(&parts)`.
unfoldable pub strip_warc : List Str → List Str
strip_warc [] = []
strip_warc (p ∷ ps) = if same p (codes "warc") then ps else p ∷ ps

-- `[root @ .., "crawl-data", crawl, "warc.paths.gz"]`.
unfoldable pub whole_crawl : List Str → Option WarcSegment
whole_crawl (c ∷ b ∷ a ∷ root) =
    if same a (codes "crawl-data") && same c (codes "warc.paths.gz")
    then some (record { root = root_of (reverse root); crawl = b; segment = none })
    else none
whole_crawl _ = none

-- `[root @ .., "crawl-data", crawl, "segments", segment]` with its guard.
unfoldable pub one_segment : List Str → Option WarcSegment
one_segment (d ∷ c ∷ b ∷ a ∷ root) =
    if same a (codes "crawl-data") && same c (codes "segments") && is_segment_name d
    then some (record { root = root_of (reverse root); crawl = b; segment = some d })
    else none
one_segment _ = none

abbrev or_else : Option WarcSegment → Option WarcSegment → Option WarcSegment
or_else (some s) t = some s
or_else none t = t

unfoldable pub parse_parts : List Str → Option WarcSegment
unfolding strip_warc whole_crawl one_segment
parse_parts parts =
    let stripped = strip_warc (reverse parts) in
    or_else (whole_crawl stripped) (one_segment stripped)

unfoldable pub parse : Str → Option WarcSegment
unfolding parse_parts
parse path = parse_parts (nonempty_parts (split b'/' path))

abbrev pub manifest_path : WarcSegment → Str
manifest_path s = s.root ++ (codes "crawl-data/" ++ (s.crawl ++ codes "/warc.paths.gz"))

abbrev prefix_for : Str → Option Str → Str
prefix_for crawl (some segment) =
    codes "crawl-data/" ++ (crawl ++ (codes "/segments/" ++ (segment ++ codes "/warc/")))
prefix_for crawl none = codes "crawl-data/" ++ (crawl ++ codes "/")

abbrev pub prefix : WarcSegment → Str
prefix s = prefix_for s.crawl s.segment

-- The lengths are compared in bytes; after the same prefix that is the comparison in characters.
abbrev pub is_listed : Str → Str → Bool
is_listed p entry = ltb (length p) (length entry) && starts_with p entry

-- The trimmed entries under the prefix, put back below the root.
unfoldable pub listed : Str → Str → List Str → List Str
listed root p [] = []
listed root p (line ∷ lines) =
    if is_listed p (trim line)
    then (root ++ trim line) ∷ listed root p lines
    else listed root p lines

-- `read` is the operator's whole-object read and `gunzip` the decoder into a text.
module _ {Blob : Type 0} (read : Str → Result Blob) (gunzip : Blob → Option Str) where
  unfoldable pub files : WarcSegment → Result (List Str)
  unfolding listed
  files s = do
    manifest ←
        context (read (manifest_path s)) (lit "reading WARC manifest " ∷ txt (manifest_path s) ∷ [])
    text ← ok_or (gunzip manifest) (lit "decoding WARC manifest" ∷ [])
    let found = listed s.root (prefix s) (lines text)
    bail_if (is_empty found) (lit "WARC manifest has no files under " ∷ txt (prefix s) ∷ [])
    ok found
