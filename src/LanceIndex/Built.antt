-- ===== src/LanceIndex/Built.antt =====
-- Which indexes are built.
use duckdb_lance_conversion.Base.{
  ℕ, true, ◌≡◌, ◌⊎◌, inl, inr, refl, ap, List, [], ◌∷◌, ◌++◌, Str, Bool-cases,
}
use duckdb_lance_conversion.Error.{Error, Result, ok, err, context, Message}
use duckdb_lance_conversion.FfiConfig.{IndexKind}
use duckdb_lance_conversion.LanceIndex.{
  and_built, create_each, create_counted, create, has_vector, vector_partitions,
}

module _ {Dataset : Type 0} (create_index : Dataset → Str → IndexKind → ℕ → Result Dataset) where
  -- The rest of the indexes is not built: building the first of them fails.
  abbrev pub Stops : List (Str × IndexKind) → Result Dataset → Type 0
  Stops rest result =
      (e : Error) × (result ≡ err e)
      × ((index : Str × IndexKind) × (later : List (Str × IndexKind)) × (dataset : Dataset)
          × (partitions : ℕ) × (cause : Error) × (rest ≡ index ∷ later)
          × (create_index dataset index.0 index.1 partitions ≡ err cause))

  -- Indexes are built from the first on, all of them exactly if that succeeds.
  abbrev pub IsBuilt : List (Str × IndexKind) → List (Str × IndexKind) × Result Dataset → Type 0
  IsBuilt indexes b =
      (rest : List (Str × IndexKind)) × (b.0 ++ rest ≡ indexes)
      × (((dataset : Dataset) × (b.1 ≡ ok dataset) × (rest ≡ [])) ⊎ Stops rest b.1)

  more-IsBuilt :
      (index : Str × IndexKind) (indexes : List (Str × IndexKind))
      (b : List (Str × IndexKind) × Result Dataset)
      → IsBuilt indexes b
      → IsBuilt (index ∷ indexes) (index ∷ b.0, b.1)
  more-IsBuilt index indexes b (rest, whole, ends) = (rest, ap (◌∷◌ index) whole, ends)

  first-IsBuilt :
      (column : Str) (kind : IndexKind) (indexes : List (Str × IndexKind)) (partitions : ℕ)
      (dataset : Dataset) (m : Message) (r : Result Dataset)
      (rest : Dataset → List (Str × IndexKind) × Result Dataset)
      → create_index dataset column kind partitions ≡ r
      → ((d : Dataset) → IsBuilt indexes (rest d))
      → IsBuilt
          ((column, kind) ∷ indexes)
          (and_built create_index (column, kind) (context r m) rest)
  unfolding context
  first-IsBuilt column kind indexes partitions dataset m (err e) rest h each = (
    (column, kind) ∷ indexes,
    refl,
    inr (_, refl, ((column, kind), indexes, dataset, partitions, e, refl, h)),
  )
  first-IsBuilt column kind indexes partitions dataset m (ok d) rest h each =
      more-IsBuilt (column, kind) indexes (rest d) (each d)

  create_each-IsBuilt :
      (partitions : ℕ) (dataset : Dataset) (indexes : List (Str × IndexKind))
      → IsBuilt indexes (create_each create_index partitions dataset indexes)
  unfolding create_each
  create_each-IsBuilt partitions dataset [] = ([], refl, inl (dataset, refl, refl))
  create_each-IsBuilt partitions dataset ((column, kind) ∷ indexes) =
      first-IsBuilt column kind indexes partitions dataset _
        (create_index dataset column kind partitions) _ refl
        (λ d. create_each-IsBuilt partitions d indexes)

  -- Building the indexes of a plan: the rows, which a vector index needs, cannot be counted, or the indexes are built from the first on.
  pub create-IsBuilt :
      (count_rows : Dataset → Result ℕ) (dataset : Dataset) (indexes : List (Str × IndexKind))
      → ((e : Error) × (has_vector indexes ≡ true)
          × (count_rows dataset ≡ err e)
          × (create create_index count_rows dataset indexes ≡ ([], err e)))
        ⊎ IsBuilt indexes (create create_index count_rows dataset indexes)
  unfolding create
  create-IsBuilt count_rows dataset indexes = elim (Bool-cases (has_vector indexes)) [
    | inl e ↦ rw e (counted (count_rows dataset) refl)
    | inr e ↦ rw e (inr (create_each-IsBuilt 0 dataset indexes))
  ]
    where
      counted :
          (r : Result ℕ)
          → count_rows dataset ≡ r
          → ((e : Error) × (true ≡ true)
              × (count_rows dataset ≡ err e)
              × (create_counted create_index dataset indexes r ≡ ([], err e)))
            ⊎ IsBuilt indexes (create_counted create_index dataset indexes r)
      counted (err e) h = inl (e, refl, h, refl)
      counted (ok n) h = inr (create_each-IsBuilt (vector_partitions indexes n) dataset indexes)
