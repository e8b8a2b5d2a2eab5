-- ===== src/ParquetRead/Projection.antt =====
-- The reordering of a projected scan.
use duckdb_lance_conversion.Base.{
  ℕ, zero, suc, ◌<◌, ◌≤◌, ◌≡◌, ◌⊎◌, refl, some, List, [], ◌∷◌, map, All, length, get_elem?, ltb,
  ◌==◌, arith, inl, inr, Bool-cases,
}
use duckdb_lance_conversion.Error.{ok}
use duckdb_lance_conversion.ParquetRead.{
  insert_column, sort_dedup, partition_point, new_projection, project, project_columns,
}

abbrev pub Contains : List ℕ → ℕ → Type 0
Contains [] c = ⊥
Contains (r ∷ rs) c = (c ≡ r) ⊎ Contains rs c

-- Strictly ascending.
abbrev pub IsAscending : List ℕ → Type 0
IsAscending [] = Unit {0}
IsAscending (r ∷ rs) = All (λ s. r < s) rs × IsAscending rs

All-insert_column :
    (b c : ℕ) (rs : List ℕ) → b < c → All (λ s. b < s) rs → All (λ s. b < s) (insert_column c rs)
unfolding insert_column
All-insert_column b c [] p h = (p, tt)
All-insert_column b c (r ∷ rs) p h = ground (arith, All-insert_column b c rs p h.1)

All-below : (b c : ℕ) (rs : List ℕ) → b ≤ c → All (λ s. c < s) rs → All (λ s. b < s) rs
All-below b c [] p h = tt
All-below b c (r ∷ rs) p h = (omega arith, All-below b c rs p h.1)

insert_column-IsAscending :
    (c : ℕ) (rs : List ℕ) → IsAscending rs → IsAscending (insert_column c rs)
unfolding insert_column
insert_column-IsAscending c [] h = (tt, tt)
insert_column-IsAscending c (r ∷ rs) h = elim (Bool-cases (ltb c r)) [
  | inl e ↦ rw e ((ground arith, All-below c r rs (ground arith) h.0), h)
  | inr e ↦ elim (Bool-cases (c == r)) [
    | inl same ↦ rw (e, same) h
    | inr differs ↦
        rw (e, differs)
          (All-insert_column r c rs (ground arith) h.0, insert_column-IsAscending c rs h.1)
  ]
]

pub sort_dedup-IsAscending : (cs : List ℕ) → IsAscending (sort_dedup cs)
unfolding sort_dedup
sort_dedup-IsAscending [] = tt
sort_dedup-IsAscending (c ∷ cs) =
    insert_column-IsAscending c (sort_dedup cs) (sort_dedup-IsAscending cs)

insert_column-Contains :
    (c d : ℕ) (rs : List ℕ) → (c ≡ d) ⊎ Contains rs c → Contains (insert_column d rs) c
unfolding insert_column
insert_column-Contains c d [] h = h
insert_column-Contains c d (r ∷ rs) h = ground (arith, insert_column-Contains c d rs)

pub sort_dedup-Contains : (cs : List ℕ) (c : ℕ) → Contains cs c → Contains (sort_dedup cs) c
unfolding sort_dedup
sort_dedup-Contains [] c h = absurd h
sort_dedup-Contains (d ∷ cs) c (inl e) = insert_column-Contains c d (sort_dedup cs) (inl e)
sort_dedup-Contains (d ∷ cs) c (inr h) =
    insert_column-Contains c d (sort_dedup cs) (inr (sort_dedup-Contains cs c h))

above-Contains : (r c : ℕ) (rs : List ℕ) → All (λ s. r < s) rs → Contains rs c → r < c
above-Contains r c [] h k = absurd k
above-Contains r c (s ∷ rs) h (inl e) = omega arith
above-Contains r c (s ∷ rs) h (inr k) = above-Contains r c rs h.1 k

-- The partition point of a column that is there is its position.
partition_point-found :
    (c : ℕ) (rs : List ℕ)
    → IsAscending rs
    → Contains rs c
    → get_elem? rs (partition_point c rs) ≡ some c
unfolding partition_point
partition_point-found c [] h k = absurd k
partition_point-found c (r ∷ rs) h (inl e) = ground arith
partition_point-found c (r ∷ rs) h (inr k) =
    ground (arith, above-Contains r c rs h.0 k, partition_point-found c rs h.1 k)

All-insert {κ} :
    (P : ℕ → Type κ) (c : ℕ) (rs : List ℕ) → P c → All P rs → All P (insert_column c rs)
unfolding insert_column
All-insert P c [] p h = (p, tt)
All-insert P c (r ∷ rs) p h = elim (Bool-cases (ltb c r)) [
  | inl e ↦ rw e (p, h)
  | inr e ↦ elim (Bool-cases (c == r)) [
    | inl same ↦ rw (e, same) h
    | inr differs ↦ rw (e, differs) (h.0, All-insert P c rs p h.1)
  ]
]

All-sort_dedup {κ} : (P : ℕ → Type κ) (cs : List ℕ) → All P cs → All P (sort_dedup cs)
unfolding sort_dedup
All-sort_dedup P [] h = tt
All-sort_dedup P (c ∷ cs) h = All-insert P c (sort_dedup cs) h.0 (All-sort_dedup P cs h.1)

pub All-Contains :
    (cs all : List ℕ) → ((c : ℕ) → Contains cs c → Contains all c) → All (Contains all) cs
All-Contains [] all f = tt
All-Contains (c ∷ cs) all f = (f c (inl refl), All-Contains cs all (λ d k. f d (inr k)))

get_elem-in_range {ℓ} :
    {A : Type ℓ} (xs : List A) (i : ℕ) → i < length xs → (x : A) × (get_elem? xs i ≡ some x)
get_elem-in_range [] i p = absurd (omega arith)
get_elem-in_range (x ∷ xs) zero p = (x, refl)
get_elem-in_range (x ∷ xs) (suc i) p = get_elem-in_range xs i (omega arith)

module _ {ℓ} {A : Type ℓ} (items : List A) where
  pub project-in_range :
      (is : List ℕ) → All (λ i. i < length items) is → (xs : List A) × (project items is ≡ ok xs)
  unfolding project
  project-in_range [] h = ([], refl)
  project-in_range (i ∷ is) h =
      let (x, found) = get_elem-in_range items i h.0 in
      let (xs, rest) = project-in_range is h.1 in (x ∷ xs, rw (found, rest))

  -- Where the projected list has its items from.
  project-get :
      (is : List ℕ) (xs : List A) (p i : ℕ)
      → All (λ i. i < length items) is
      → project items is ≡ ok xs
      → get_elem? is p ≡ some i
      → get_elem? xs p ≡ get_elem? items i
  unfolding project
  project-get [] xs p i h e f = cc
  project-get (j ∷ is) xs p i h e f =
      let (x, found) = get_elem-in_range items j h.0 in
      let (ys, rest) = project-in_range is h.1 in
      let whole : project items (j ∷ is) ≡ ok (x ∷ ys) = rw (found, rest) refl in
      let same : x ∷ ys ≡ xs = cc in
      rw (← same) (at_head x ys p found f (λ q g. project-get is ys q i h.1 rest g))
    where
      at_head :
          (x : A) (ys : List A) (p : ℕ)
          → get_elem? items j ≡ some x
          → get_elem? (j ∷ is) p ≡ some i
          → ((q : ℕ) → get_elem? is q ≡ some i → get_elem? ys q ≡ get_elem? items i)
          → get_elem? (x ∷ ys) p ≡ get_elem? items i
      at_head x ys zero found f rest = cc
      at_head x ys (suc q) found f rest = rest q f

  project-through :
      (xs : List A) (roots cs : List ℕ)
      → IsAscending roots
      → All (Contains roots) cs
      → ((p i : ℕ) → get_elem? roots p ≡ some i → get_elem? xs p ≡ get_elem? items i)
      → project xs (map (λ c. partition_point c roots) cs) ≡ project items cs
  unfolding project
  project-through xs roots [] a h f = refl
  project-through xs roots (c ∷ cs) a h f = rw (
    f (partition_point c roots) c (partition_point-found c roots a h.0),
    project-through xs roots cs a h.1 f,
  )

  pub project_columns-requested :
      (c : ℕ) (cs : List ℕ)
      → All (λ i. i < length items) (c ∷ cs)
      → project_columns items (new_projection (c ∷ cs)) ≡ project items (c ∷ cs)
  unfolding project_columns new_projection
  project_columns-requested c cs h =
      let roots = sort_dedup (c ∷ cs) in
      let inside = All-sort_dedup (λ i. i < length items) (c ∷ cs) h in
      let (xs, e) = project-in_range roots inside in
      rw e (
        project-through xs roots (c ∷ cs) (sort_dedup-IsAscending (c ∷ cs))
          (All-Contains (c ∷ cs) roots (sort_dedup-Contains (c ∷ cs)))
          (λ p i found. project-get roots xs p i inside e found))
