-- ===== src/WarcIndex/Plan.antt =====
-- Predicates on lists of ranges, and what sorting keeps.
use mathlib.Core.List.{reverse, reverse-cons}
use duckdb_lance_conversion.Base.{
  ℕ, ◌≤◌, ◌<◌, ◌≡◌, refl, Bool, false, ◌&&◌, ◌||◌, List, [], ◌∷◌, ◌++◌, All, All-append, ltb, leb,
  Bool-cases, arith, inl, inr,
}
use duckdb_lance_conversion.WarcIndex.{Range, insert_by_start, sort_by_start}

-- A byte position lies in one of the ranges.
abbrev pub in_range : Range → ℕ → Bool
in_range r b = leb r.start b && ltb b r.end

abbrev pub covers : List Range → ℕ → Bool
covers [] b = false
covers (r ∷ rs) b = in_range r b || covers rs b

abbrev pub IsNonempty : Range → Type 0
IsNonempty r = r.start < r.end

-- In archive order: each range ends before the next begins.
abbrev pub IsAscending : List Range → Type 0
IsAscending [] = Unit {0}
IsAscending (r ∷ []) = Unit {0}
IsAscending (r ∷ s ∷ rs) = (r.end ≤ s.start) × IsAscending (s ∷ rs)

-- Newest first: every range of the rest ends at or before `bound`.
abbrev pub EndsBy : ℕ → List Range → Type 0
EndsBy bound = All (λ r. r.end ≤ bound)

covers-append : (rs ss : List Range) (b : ℕ) → covers (rs ++ ss) b ≡ (covers rs b || covers ss b)
covers-append [] ss b = refl
covers-append (r ∷ rs) ss b = ground (arith, covers-append rs ss b)

pub covers-reverse : (rs : List Range) (b : ℕ) → covers (reverse rs) b ≡ covers rs b
covers-reverse [] b = refl
covers-reverse (r ∷ rs) b =
    rw (reverse-cons r rs)
      (ground (arith, covers-append (reverse rs) (r ∷ []) b, covers-reverse rs b))

covers-insert :
    (r : Range) (rs : List Range) (b : ℕ) → covers (insert_by_start r rs) b ≡ covers (r ∷ rs) b
unfolding insert_by_start
covers-insert r [] b = refl
covers-insert r (x ∷ xs) b = ground (arith, covers-insert r xs b)

pub covers-sort : (rs : List Range) (b : ℕ) → covers (sort_by_start rs) b ≡ covers rs b
unfolding sort_by_start
covers-sort [] b = refl
covers-sort (r ∷ rs) b = ground (arith, covers-insert r (sort_by_start rs) b, covers-sort rs b)

All-insert {κ} :
    (P : Range → Type κ) (r : Range) (rs : List Range)
    → P r
    → All P rs
    → All P (insert_by_start r rs)
unfolding insert_by_start
All-insert P r [] p h = (p, h)
All-insert P r (x ∷ xs) p h = elim (Bool-cases (leb r.start x.start)) [
  | inl e ↦ rw e (p, h)
  | inr e ↦ rw e (h.0, All-insert P r xs p h.1)
]

pub All-sort {κ} : (P : Range → Type κ) (rs : List Range) → All P rs → All P (sort_by_start rs)
unfolding sort_by_start
All-sort P [] h = h
All-sort P (r ∷ rs) h = All-insert P r (sort_by_start rs) h.0 (All-sort P rs h.1)

-- In the order of the starts.
abbrev pub IsSorted : List Range → Type 0
IsSorted [] = Unit {0}
IsSorted (r ∷ rs) = All (λ x. r.start ≤ x.start) rs × IsSorted rs

All-le : (a b : ℕ) (rs : List Range) → a ≤ b → All (λ x. b ≤ x.start) rs → All (λ x. a ≤ x.start) rs
All-le a b [] h k = tt
All-le a b (r ∷ rs) h k = (omega arith, All-le a b rs h k.1)

insert-IsSorted : (r : Range) (rs : List Range) → IsSorted rs → IsSorted (insert_by_start r rs)
unfolding insert_by_start
insert-IsSorted r [] h = (tt, tt)
insert-IsSorted r (x ∷ xs) h = elim (Bool-cases (leb r.start x.start)) [
  | inl e ↦ rw e ((ground arith, All-le r.start x.start xs (ground arith) h.0), h)
  | inr e ↦
      rw e (All-insert (λ y. x.start ≤ y.start) r xs (ground arith) h.0, insert-IsSorted r xs h.1)
]

pub sort-IsSorted : (rs : List Range) → IsSorted (sort_by_start rs)
unfolding sort_by_start
sort-IsSorted [] = tt
sort-IsSorted (r ∷ rs) = insert-IsSorted r (sort_by_start rs) (sort-IsSorted rs)

IsAscending-append :
    (rs : List Range) (r : Range) → IsAscending rs → EndsBy r.start rs → IsAscending (rs ++ r ∷ [])
IsAscending-append [] r h k = tt
IsAscending-append (x ∷ []) r h k = (k.0, tt)
IsAscending-append (x ∷ y ∷ rs) r h k = (h.0, IsAscending-append (y ∷ rs) r h.1 k.1)

-- Newest first, and in archive order when reversed.
abbrev pub IsDescending : List Range → Type 0
IsDescending [] = Unit {0}
IsDescending (r ∷ rs) = EndsBy r.start rs × IsDescending rs

pub All-reverse {κ} : (P : Range → Type κ) (rs : List Range) → All P rs → All P (reverse rs)
All-reverse P [] h = tt
All-reverse P (r ∷ rs) h =
    rw (reverse-cons r rs) (All-append P (reverse rs) (r ∷ []) (All-reverse P rs h.1) (h.0, tt))

pub reverse-IsAscending : (rs : List Range) → IsDescending rs → IsAscending (reverse rs)
reverse-IsAscending [] h = tt
reverse-IsAscending (r ∷ rs) h = rw (reverse-cons r rs) (
    IsAscending-append (reverse rs) r (reverse-IsAscending rs h.1)
      (All-reverse (λ x. x.end ≤ r.start) rs h.0))
