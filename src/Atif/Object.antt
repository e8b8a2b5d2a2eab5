-- ===== src/Atif/Object.antt =====
-- The object that a media URI names.
use duckdb_lance_conversion.Base.{
  not_differs, ℕ, ◌≡◌, refl, sym, ap, true, false, List, [], ◌∷◌, Str, arith, if◌then◌else◌, ◌∙◌,
  length, ◌++◌, ◌==◌,
}
use duckdb_lance_conversion.Error.{bailed, Result, ok, err}
use duckdb_lance_conversion.Metrics.{ReadMetrics, add_total_bytes}
use duckdb_lance_conversion.Storage.Input.{InputFile, open_input}
use mathlib.Core.List.{flatten}
use duckdb_lance_conversion.Atif.Media.{
  MediaLibrary, MediaResolver, s3_for, whole, sized, opened, concat,
}

module _ (lib : MediaLibrary) where
  open lib use {storage, stat, object}

  -- The bytes are the whole object at a URI, and as many as its size.
  abbrev pub IsObject : MediaResolver lib → Str → List ℕ → Type 0
  IsObject r uri bytes =
      (input : InputFile storage) × (size : ℕ) × (chunks : List (List ℕ)) × (open_input storage uri
          (s3_for lib uri r.s3_config) r.opendal_config
        ≡ ok input)
      × (stat input.operator input.opendal_path ≡ ok size)
      × (object input.operator input.opendal_path size ≡ ok chunks)
      × (flatten chunks ≡ bytes)
      × (length bytes ≡ size)

  concat-flatten : (cs : List (List ℕ)) → concat lib cs ≡ flatten cs
  unfolding flatten
  concat-flatten [] = refl
  concat-flatten (c ∷ cs) = ap (◌++◌ c) (concat-flatten cs)

  whole-IsObject :
      (r : MediaResolver lib) (uri : Str) (m : ReadMetrics) (input : InputFile storage) (size : ℕ)
      (c : Result (List (List ℕ))) (bytes : List ℕ)
      → open_input storage uri (s3_for lib uri r.s3_config) r.opendal_config ≡ ok input
      → stat input.operator input.opendal_path ≡ ok size
      → object input.operator input.opendal_path size ≡ c
      → (whole lib m size c).1 ≡ ok bytes
      → IsObject r uri bytes
  whole-IsObject r uri m input size (err e) bytes o t b h = cc
  whole-IsObject r uri m input size (ok chunks) bytes o t b h =
      let (same_size, h1) =
        bailed (if length (concat lib chunks) == size then false else true) _ _ bytes h in
      let all : concat lib chunks ≡ bytes = cc in
      let counted : (length (concat lib chunks) == size) ≡ true = not_differs _ same_size in
      (
        input,
        size,
        chunks,
        o,
        t,
        b,
        sym (concat-flatten chunks) ∙ all,
        ap length (sym all) ∙ ground (arith, counted),
      )

  sized-IsObject :
      (r : MediaResolver lib) (uri : Str) (m : ReadMetrics) (input : InputFile storage)
      (size : Result ℕ) (bytes : List ℕ)
      → open_input storage uri (s3_for lib uri r.s3_config) r.opendal_config ≡ ok input
      → stat input.operator input.opendal_path ≡ size
      → (sized lib m input size).1 ≡ ok bytes
      → IsObject r uri bytes
  sized-IsObject r uri m input (err e) bytes o t h = cc
  sized-IsObject r uri m input (ok size) bytes o t h =
      whole-IsObject r uri (add_total_bytes m size) input size
        (object input.operator input.opendal_path size) bytes o t refl h

  pub opened-IsObject :
      (r : MediaResolver lib) (uri : Str) (m : ReadMetrics) (i : Result (InputFile storage))
      (bytes : List ℕ)
      → open_input storage uri (s3_for lib uri r.s3_config) r.opendal_config ≡ i
      → (opened lib m i).1 ≡ ok bytes
      → IsObject r uri bytes
  opened-IsObject r uri m (err e) bytes o h = cc
  opened-IsObject r uri m (ok input) bytes o h =
      sized-IsObject r uri m input (stat input.operator input.opendal_path) bytes o refl h
