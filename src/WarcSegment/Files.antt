-- ===== src/WarcSegment/Files.antt =====
-- The files that a manifest lists of a segment.
use mathlib.Core.List.{append-nil}
use duckdb_lance_conversion.Base.{
  ◌≡◌, ◌≢◌, ◌<◌, ◌↔◌, ◌∙◌, refl, sym, ap, subst, true, false, Option, none, some, List, [], ◌∷◌,
  ◌++◌, Str, codes, trim, lines, is_empty, length, length-append, starts_with, starts_with-append,
  Bool-cases, inl, inr, arith,
}
use duckdb_lance_conversion.Error.{
  Result, ok, ◌>>◌, bail_if, context, ok_or, >>=-eq-ok, context-of_ok, ok_or-of_ok, Message,
}
use duckdb_lance_conversion.WarcSegment.{
  WarcSegment, files, listed, prefix, is_listed, manifest_path, root_of,
}

-- The folder of a segment's WARC files, or of the crawl, below the root.
abbrev pub folder : WarcSegment → Str
folder s = root_of (codes "crawl-data" ∷ s.crawl ∷ below s.segment)
  where
    below : Option Str → List Str
    below none = []
    below (some segment) = codes "segments" ∷ segment ∷ codes "warc" ∷ []

-- An entry below a folder, and longer than that.
abbrev pub IsUnder : Str → Str → Type 0
IsUnder p entry = (rest : Str) × (rest ≢ []) × (entry ≡ p ++ rest)

-- Line by line and in order, the trimmed lines below a folder, put below a root, and no others.
pub data Selects (root p : Str) : List Str → List Str → Type 0 where
  nothing : Selects root p [] []
  keeps :
      {line : Str} {ls fs : List Str}
      → IsUnder p (trim line)
      → Selects root p ls fs
      → Selects root p (line ∷ ls) ((root ++ trim line) ∷ fs)
  skips :
      {line : Str} {ls fs : List Str}
      → ¬ IsUnder p (trim line)
      → Selects root p ls fs
      → Selects root p (line ∷ ls) fs

folder-prefix : (s : WarcSegment) → folder s ≡ prefix s
unfolding root_of
folder-prefix s = by_segment s.crawl s.segment
  where
    by_segment :
        (crawl : Str) (segment : Option Str)
        → folder (record { root = []; crawl = crawl; segment = segment })
          ≡ prefix (record { root = []; crawl = crawl; segment = segment })
    by_segment crawl none = refl
    by_segment crawl (some segment) = refl

starts_with-IsAppend :
    (p entry : Str) → starts_with p entry ≡ true → (rest : Str) × (entry ≡ p ++ rest)
unfolding starts_with
starts_with-IsAppend [] entry e = (entry, refl)
starts_with-IsAppend (a ∷ p) [] e = cc
starts_with-IsAppend (a ∷ p) (b ∷ entry) e =
    let (rest, same) = starts_with-IsAppend p entry (ground arith) in
    let head : b ≡ a = ground arith in (rest, rw (head, same) refl)

is_listed-IsUnder : (p entry : Str) → is_listed p entry ≡ true → IsUnder p entry
is_listed-IsUnder p entry e =
    let (rest, same) = starts_with-IsAppend p entry (ground arith) in
    (
      rest,
      λ none_left.
          let whole : length entry ≡ length p = ap length (same ∙ rw none_left (append-nil p)) in
          ground (arith, whole),
      same,
    )

some_length : (s : Str) → s ≢ [] → 0 < length s
some_length [] h = absurd (h refl)
some_length (c ∷ cs) h = omega arith

IsUnder-is_listed : (p entry : Str) → IsUnder p entry → is_listed p entry ≡ true
IsUnder-is_listed p entry (rest, more, same) =
    rw same (ground (arith, length-append p rest, some_length rest more, starts_with-append p rest))

not-IsUnder : (p entry : Str) → is_listed p entry ≡ false → ¬ IsUnder p entry
not-IsUnder p entry e u = cc (e, IsUnder-is_listed p entry u)

not_listed : (p entry : Str) → ¬ IsUnder p entry → is_listed p entry ≡ false
not_listed p entry h = elim (Bool-cases (is_listed p entry)) [
  | inl e ↦ absurd (h (is_listed-IsUnder p entry e))
  | inr e ↦ e
]

listed-Selects : (root p : Str) (ls : List Str) → Selects root p ls (listed root p ls)
unfolding listed
listed-Selects root p [] = nothing
listed-Selects root p (line ∷ ls) = elim (Bool-cases (is_listed p (trim line))) [
  | inl e ↦ rw e (keeps (is_listed-IsUnder p (trim line) e) (listed-Selects root p ls))
  | inr e ↦ rw e (skips (not-IsUnder p (trim line) e) (listed-Selects root p ls))
]

Selects-listed : (root p : Str) (ls fs : List Str) → Selects root p ls fs → listed root p ls ≡ fs
unfolding listed
Selects-listed root p ls fs nothing = refl
Selects-listed root p lines_of files_of (keeps {line} {ls} {fs} u rest) =
    rw (IsUnder-is_listed p (trim line) u)
      (ap (λ ls. (root ++ trim line) ∷ ls) (Selects-listed root p ls fs rest))
Selects-listed root p lines_of files_of (skips {line} {ls} {fs} n rest) =
    rw (not_listed p (trim line) n) (Selects-listed root p ls fs rest)

checked_files :
    (found : List Str) (m : Message) (fs : List Str)
    → (bail_if (is_empty found) m >> ok found) ≡ ok fs
    → (found ≡ fs) × (fs ≢ [])
checked_files [] m fs e = cc
checked_files (f ∷ found) m fs e = (cc, λ p. cc)

passed : (fs : List Str) (m : Message) → fs ≢ [] → (bail_if (is_empty fs) m >> ok fs) ≡ ok fs
passed [] m h = absurd (h refl)
passed (f ∷ fs) m h = refl

module _ {Blob : Type 0} (read : Str → Result Blob) (gunzip : Blob → Option Str) where
  -- `files` succeeds exactly if the crawl's manifest can be read and decoded and has an entry for the
  -- segment, and then returns these: line by line and in order, the trimmed lines below the segment's folder of WARC
  -- files, or below the crawl where no segment is named, each put below the root.
  pub files_of_manifest :
      (s : WarcSegment) (fs : List Str)
      → (files read gunzip s ≡ ok fs) ↔ (
          (blob : Blob) × (text : Str) × (read (manifest_path s) ≡ ok blob)
          × (gunzip blob ≡ some text)
          × Selects s.root (folder s) (lines text) fs
          × (fs ≢ []))
  unfolding files context
  files_of_manifest s fs = (forth, back)
    where
      forth :
          files read gunzip s ≡ ok fs
          → (blob : Blob) × (text : Str) × (read (manifest_path s) ≡ ok blob)
            × (gunzip blob ≡ some text)
            × Selects s.root (folder s) (lines text) fs
            × (fs ≢ [])
      forth e =
          let (blob, was_read, e') = >>=-eq-ok (context (read (manifest_path s)) _) _ e in
          let (text, was_decoded, e'') = >>=-eq-ok (ok_or (gunzip blob) _) _ e' in
          let (same, some_file) = checked_files (listed s.root (prefix s) (lines text)) _ fs e'' in
          (
            blob,
            text,
            context-of_ok (read (manifest_path s)) _ blob was_read,
            ok_or-of_ok (gunzip blob) _ text was_decoded,
            subst (λ p. Selects s.root p (lines text) fs) (sym (folder-prefix s))
                (subst (Selects s.root (prefix s) (lines text)) same
                  (listed-Selects s.root (prefix s) (lines text))),
            some_file,
          )

      back :
          (blob : Blob) × (text : Str) × (read (manifest_path s) ≡ ok blob)
            × (gunzip blob ≡ some text)
            × Selects s.root (folder s) (lines text) fs
            × (fs ≢ [])
          → files read gunzip s ≡ ok fs
      back (blob, text, r, g, selected, more) =
          let found : listed s.root (prefix s) (lines text) ≡ fs =
            Selects-listed s.root (prefix s) (lines text) fs
              (subst (λ p. Selects s.root p (lines text) fs) (folder-prefix s) selected) in
          rw (r, g, found) (passed fs _ more)
