-- ===== src/ParquetRead/Open/Requested.antt =====
-- The projection pushed into the readers of the row groups.
use duckdb_lance_conversion.Base.{
  ℕ, zero, suc, ◌≡◌, ◌<◌, refl, sym, ◌∙◌, ap, subst, ◌⊎◌, inl, inr, none, some, List, [], ◌∷◌, ◌++◌,
  map, length, Str, All, get_elem?, arith, Option-cases,
}
use mathlib.Core.List.{map-append}
use duckdb_lance_conversion.Error.{Result, ok, err, map_ok, ◌>>=◌, fail, lit, Message}
use duckdb_lance_conversion.ParquetRead.{
  new_projection, sort_dedup, partition_point, project, project_columns,
}
use duckdb_lance_conversion.ParquetRead.Projection.{
  Contains, All-Contains, sort_dedup-Contains, project_columns-requested,
}
use duckdb_lance_conversion.ParquetRead.Open.{ParquetLibrary, try_flatten}

abbrev pub out_of_bounds : {A : Type 0} → Result A
out_of_bounds = fail (lit "project index out of bounds" ∷ [])

get_elem-below :
    {A : Type 0} (xs : List A) (i : ℕ) (x : A) → get_elem? xs i ≡ some x → i < length xs
get_elem-below [] i x e = cc
get_elem-below (y ∷ xs) zero x e = omega arith
get_elem-below (y ∷ xs) (suc i) x e = omega (arith, get_elem-below xs i x e)

abbrev pub order_of : List ℕ → List ℕ
order_of columns = map (λ column. partition_point column (sort_dedup columns)) columns

module _ {A : Type 0} (items : List A) where
  pub in_range_or_fails :
      (is : List ℕ) → All (λ i. i < length items) is ⊎ (project items is ≡ out_of_bounds)
  unfolding project
  in_range_or_fails [] = inl tt
  in_range_or_fails (i ∷ is) = elim (Option-cases (get_elem? items i)) [
    | inl e ↦ inr (rw e refl)
    | inr (x, e) ↦ elim (in_range_or_fails is) [
      | inl inside ↦ inl (get_elem-below items i x e, inside)
      | inr fails ↦ inr (rw (e, fails) refl)
    ]
  ]

  pub Contained-All :
      (cs roots : List ℕ) (P : ℕ → Type 0) → All (Contains roots) cs → All P roots → All P cs
  Contained-All [] roots P h k = tt
  Contained-All (c ∷ cs) roots P h k = (found roots h.0 k, Contained-All cs roots P h.1 k)
    where
      found : (rs : List ℕ) → Contains rs c → All P rs → P c
      found [] m k = absurd m
      found (r ∷ rs) (inl e) k = subst P (sym e) k.0
      found (r ∷ rs) (inr m) k = found rs m k.1

  -- Columns out of range make both fail alike.
  pub project_columns-any :
      (c : ℕ) (cs : List ℕ)
      → project_columns items (new_projection (c ∷ cs)) ≡ project items (c ∷ cs)
  unfolding project_columns new_projection
  project_columns-any c cs = elim (in_range_or_fails (c ∷ cs)) [
    | inl inside ↦ project_columns-requested items c cs inside
    | inr fails ↦ elim (in_range_or_fails (sort_dedup (c ∷ cs))) [
      | inl inside ↦
          let h =
            Contained-All (c ∷ cs) (sort_dedup (c ∷ cs)) (λ i. i < length items)
              (All-Contains (c ∷ cs) (sort_dedup (c ∷ cs)) (sort_dedup-Contains (c ∷ cs))) inside in
          project_columns-requested items c cs h
      | inr roots ↦ rw (roots, fails) refl
    ]
  ]

  -- The reordering of a batch that has the columns in file order.
  pub reordered :
      (c : ℕ) (cs : List ℕ) (in_file_order : List A)
      → project items (sort_dedup (c ∷ cs)) ≡ ok in_file_order
      → project in_file_order (order_of (c ∷ cs)) ≡ project items (c ∷ cs)
  unfolding project_columns new_projection
  reordered c cs in_file_order e =
      sym (ap (λ (r : Result (List A)). r >>= (λ xs. project xs (order_of (c ∷ cs)))) e)
      ∙ project_columns-any c cs

abbrev pub projected : {A : Type 0} → List ℕ → Result (List A) → Result (List A)
projected columns batch = batch >>= (λ arrays. project arrays columns)

pub try_flatten-projected :
    {A : Type 0} (cs : List ℕ) (streams : List (Result (List (Result (List A)))))
    → map (projected cs) (try_flatten streams)
      ≡ try_flatten (map (map_ok (map (projected cs))) streams)
unfolding try_flatten
try_flatten-projected cs [] = refl
try_flatten-projected cs (err e ∷ streams) = ap (◌∷◌ (err e)) (try_flatten-projected cs streams)
try_flatten-projected cs (ok items ∷ streams) =
    map-append (projected cs) items (try_flatten streams)
    ∙ ap (◌++◌ (map (projected cs) items)) (try_flatten-projected cs streams)

module _ (lib : ParquetLibrary) where
  open lib use {Field, Array, Metadata, build}

  -- A reader that is built and whose items are batches.
  abbrev pub IsBatch : Message ⊎ List Array → Type 0
  IsBatch (inl m) = ⊥
  IsBatch (inr arrays) = Unit {0}

  abbrev pub ReadsAll : Message ⊎ List (Message ⊎ List Array) → Type 0
  ReadsAll (inl m) = ⊥
  ReadsAll (inr xs) = All IsBatch xs

  -- The items of a masked reader, against those of one without a mask that yields batches.
  abbrev pub MasksItems :
      List ℕ → List (Message ⊎ List Array) → List (Message ⊎ List Array) → Type 0
  MasksItems roots [] [] = Unit {0}
  MasksItems roots [] (y ∷ ys) = ⊥
  MasksItems roots (x ∷ xs) [] = ⊥
  MasksItems roots (inl m ∷ xs) (y ∷ ys) = ⊥
  MasksItems roots (inr a ∷ xs) (inl n ∷ ys) = ⊥
  MasksItems roots (inr a ∷ xs) (inr b ∷ ys) = (project a roots ≡ ok b) × MasksItems roots xs ys

  abbrev pub MasksReader :
      List ℕ
      → Message ⊎ List (Message ⊎ List Array)
      → Message ⊎ List (Message ⊎ List Array)
      → Type 0
  MasksReader roots (inl m) r = ⊥
  MasksReader roots (inr xs) (inl n) = ⊥
  MasksReader roots (inr xs) (inr ys) = MasksItems roots xs ys

  -- What `with_projection` does of a row group that can be read whole, for masks of top-level columns that the
  -- schema has: the same batches, each with the arrays of these columns in file order. Nothing is supposed of a
  -- row group of which some column cannot be read.
  abbrev pub HasMasks : Type 0
  HasMasks =
      (path : Str) (metadata : Metadata) (roots : List ℕ) (batch_size index : ℕ)
      → All (λ i. i < length (lib.schema metadata)) roots
      → ReadsAll (build path metadata none batch_size index)
      → MasksReader roots (build path metadata none batch_size index)
          (build path metadata (some roots) batch_size index)
