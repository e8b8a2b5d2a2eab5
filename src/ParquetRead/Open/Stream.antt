-- ===== src/ParquetRead/Open/Stream.antt =====
-- The stream of a projected scan, row group by row group.
use duckdb_lance_conversion.Base.{
  ℕ, zero, suc, ◌≡◌, ◌<◌, refl, sym, ◌∙◌, ap, subst, ◌⊎◌, All-split, inl, inr, none, some, List, [],
  ◌∷◌, ◌++◌, map, length, Str, All,
}
use mathlib.Core.List.{map-append}
use duckdb_lance_conversion.Error.{Result, ok, err, IsOk, map_ok, Message}
use duckdb_lance_conversion.ParquetRead.{sort_dedup}
use duckdb_lance_conversion.ParquetRead.RowGroup.{item_of}
use duckdb_lance_conversion.ParquetRead.Open.{
  ParquetLibrary, try_flatten, stream_of, group_streams, row_group_streams, Stream,
}
use duckdb_lance_conversion.ParquetRead.Open.Requested.{
  order_of, reordered, projected, try_flatten-projected, MasksItems, MasksReader, HasMasks, IsBatch,
  ReadsAll,
}

map-both :
    {A B : Type 0} (f g : A → B) (a b a' b' : List A)
    → map f a ≡ map g a'
    → map f b ≡ map g b'
    → map f (a ++ b) ≡ map g (a' ++ b')
map-both f g a b a' b' h k = rw (map-append f a b, map-append g a' b', h, k) refl

module _ (lib : ParquetLibrary) where
  open lib use {Field, Array, Metadata, schema, chunk_sizes, build, same_schema}

  items-projected :
      (c : ℕ) (cs : List ℕ) (xs ys : List (Message ⊎ List Array))
      → MasksItems lib (sort_dedup (c ∷ cs)) xs ys
      → map (projected (order_of (c ∷ cs))) (map item_of ys)
        ≡ map (projected (c ∷ cs)) (map item_of xs)
  items-projected c cs [] [] h = refl
  items-projected c cs [] (y ∷ ys) h = absurd h
  items-projected c cs (inl m ∷ xs) [] h = absurd h
  items-projected c cs (inr a ∷ xs) [] h = absurd h
  items-projected c cs (inl m ∷ xs) (y ∷ ys) h = absurd h
  items-projected c cs (inr a ∷ xs) (inl n ∷ ys) h = absurd h
  items-projected c cs (inr a ∷ xs) (inr b ∷ ys) h =
      rw (reordered a c cs b h.0, items-projected c cs xs ys h.1) refl

  stream_of-projected :
      (c : ℕ) (cs : List ℕ) (xs ys : Message ⊎ List (Message ⊎ List Array))
      → MasksReader lib (sort_dedup (c ∷ cs)) xs ys
      → map_ok (map (projected (order_of (c ∷ cs)))) (stream_of lib ys)
        ≡ map_ok (map (projected (c ∷ cs))) (stream_of lib xs)
  stream_of-projected c cs (inl m) ys h = absurd h
  stream_of-projected c cs (inr xs) (inl n) h = absurd h
  stream_of-projected c cs (inr xs) (inr ys) h = ap ok (items-projected c cs xs ys h)

  abbrev pub HasSchema : List Field → List (Str × Metadata) → Type 0
  HasSchema fields [] = Unit {0}
  HasSchema fields ((path, metadata) ∷ files) = (schema metadata ≡ fields) × HasSchema fields files

  -- A stream that was opened and yields no error.
  abbrev pub IsWhole : Result (Stream lib) → Type 0
  IsWhole (err e) = ⊥
  IsWhole (ok items) = All IsOk items

  batches-only :
      (xs : List (Message ⊎ List Array)) → All IsOk (map item_of xs) → All (IsBatch lib) xs
  batches-only [] h = tt
  batches-only (inl m ∷ xs) h = absurd h.0
  batches-only (inr a ∷ xs) h = (tt, batches-only xs h.1)

  whole_reader :
      (reader : Message ⊎ List (Message ⊎ List Array))
      → IsWhole (stream_of lib reader)
      → ReadsAll lib reader
  whole_reader (inl m) h = absurd h
  whole_reader (inr xs) h = batches-only xs h

  -- Where the flattened stream yields no error, no stream does.
  pub try_flatten-IsWhole :
      (streams : List (Result (Stream lib))) → All IsOk (try_flatten streams) → All IsWhole streams
  unfolding try_flatten
  try_flatten-IsWhole [] h = tt
  try_flatten-IsWhole (err e ∷ streams) h = absurd h.0
  try_flatten-IsWhole (ok items ∷ streams) h =
      let (k, l) = All-split IsOk items (try_flatten streams) h in
      (k, try_flatten-IsWhole streams l)

  module _ (masks : HasMasks lib) (c : ℕ) (cs : List ℕ) (batch_size : ℕ) where
    abbrev before : List (Result (Stream lib)) → List (Result (Stream lib))
    before = map (map_ok (map (projected (order_of (c ∷ cs)))))

    abbrev after : List (Result (Stream lib)) → List (Result (Stream lib))
    after = map (map_ok (map (projected (c ∷ cs))))

    group_streams-projected :
        (path : Str) (metadata : Metadata) (index n : ℕ)
        → All (λ i. i < length (schema metadata)) (sort_dedup (c ∷ cs))
        → All IsWhole (group_streams lib none batch_size path metadata index n)
        → before (group_streams lib (some (sort_dedup (c ∷ cs))) batch_size path metadata index n)
          ≡ after (group_streams lib none batch_size path metadata index n)
    unfolding group_streams
    group_streams-projected path metadata index zero h g = refl
    group_streams-projected path metadata index (suc n) h g =
        rw
          (
            stream_of-projected c cs _ _ (
                masks path metadata (sort_dedup (c ∷ cs)) batch_size index h
                  (whole_reader (build path metadata none batch_size index) g.0)),
            group_streams-projected path metadata (suc index) n h g.1,
          )
          refl

    row_group_streams-projected :
        (fields : List Field) (files : List (Str × Metadata))
        → All (λ i. i < length fields) (sort_dedup (c ∷ cs))
        → HasSchema fields files
        → All IsWhole (row_group_streams lib none batch_size files)
        → before (row_group_streams lib (some (sort_dedup (c ∷ cs))) batch_size files)
          ≡ after (row_group_streams lib none batch_size files)
    unfolding row_group_streams
    row_group_streams-projected fields [] h s g = refl
    row_group_streams-projected fields ((path, metadata) ∷ files) h s g =
        let (first, others) =
          All-split IsWhole
            (group_streams lib none batch_size path metadata 0 (length (chunk_sizes metadata)))
            (row_group_streams lib none batch_size files) g in
        map-both _ _
          (group_streams lib (some (sort_dedup (c ∷ cs))) batch_size path metadata 0
            (length (chunk_sizes metadata)))
          _ (group_streams lib none batch_size path metadata 0 (length (chunk_sizes metadata))) _
          (group_streams-projected path metadata 0 (length (chunk_sizes metadata))
            (subst (λ fs. All (λ i. i < length fs) (sort_dedup (c ∷ cs))) (sym s.0) h) first)
          (row_group_streams-projected fields files h s.1 others)

    -- The ordered stream.
    pub ordered-projected :
        (fields : List Field) (files : List (Str × Metadata))
        → All (λ i. i < length fields) (sort_dedup (c ∷ cs))
        → HasSchema fields files
        → All IsOk (try_flatten (row_group_streams lib none batch_size files))
        → map
            (projected (order_of (c ∷ cs)))
            (try_flatten (row_group_streams lib (some (sort_dedup (c ∷ cs))) batch_size files))
          ≡ map (projected (c ∷ cs)) (try_flatten (row_group_streams lib none batch_size files))
    ordered-projected fields files h s g =
        try_flatten-projected (order_of (c ∷ cs))
          (row_group_streams lib (some (sort_dedup (c ∷ cs))) batch_size files)
        ∙ (ap try_flatten (
              row_group_streams-projected fields files h s
                (try_flatten-IsWhole (row_group_streams lib none batch_size files) g))
            ∙ sym (try_flatten-projected (c ∷ cs) (row_group_streams lib none batch_size files)))
