-- ===== src/LanceIndex/Planned.antt =====
-- Which indexes may be planned.
use duckdb_lance_conversion.Base.{
  ℕ, ◌+◌, ◌≤◌, ◌≡◌, ◌↔◌, refl, sym, ap, subst, Bool, true, false, some, List, [], ◌∷◌, All, Str,
  same, same_iff, if◌then◌else◌, Bool-cases, Option-cases, inl, inr, arith,
}
use duckdb_lance_conversion.Arrow.{Schema, Field, data_type}
use duckdb_lance_conversion.Error.{Result, ok, err, ◌>>=◌, bail_if, IsOk, lit}
use duckdb_lance_conversion.FfiConfig.{IndexKind, before}
use duckdb_lance_conversion.LanceIndex.{
  supported, field_with_name, validate_indexes, insert_index, sort_indexes, has_neighbours,
  new_plan,
}

before_refl : (k : Str) → before k k ≡ false
unfolding before
before_refl [] = refl
before_refl (c ∷ cs) = ground (arith, before_refl cs)

pub before_trans : (j k l : Str) → before j k ≡ true → before k l ≡ true → before j l ≡ true
unfolding before
before_trans [] [] l p q = cc
before_trans [] (d ∷ ds) [] p q = cc
before_trans [] (d ∷ ds) (e ∷ es) p q = refl
before_trans (c ∷ cs) [] l p q = cc
before_trans (c ∷ cs) (d ∷ ds) [] p q = cc
before_trans (c ∷ cs) (d ∷ ds) (e ∷ es) p q = ground (arith, before_trans cs ds es)

-- Of two columns that differ, one is before the other.
pub before-total : (j k : Str) → before k j ≡ false → same j k ≡ false → before j k ≡ true
unfolding before same
before-total [] [] p q = cc
before-total [] (d ∷ ds) p q = refl
before-total (c ∷ cs) [] p q = cc
before-total (c ∷ cs) (d ∷ ds) p q = ground (arith, before-total cs ds)

differs : (j k : Str) → before j k ≡ true → same j k ≡ false
differs j k p = elim (Bool-cases (same j k)) [
  | inl s ↦
      let e : j ≡ k = (same_iff j k).0 s in
      cc (p, subst (λ x. before j x ≡ false) e (before_refl j))
  | inr s ↦ s
]

-- How many indexes a column has.
abbrev one_if : Bool → ℕ
one_if true = 1
one_if false = 0

abbrev pub indexes_of : Str → List (Str × IndexKind) → ℕ
indexes_of k [] = 0
indexes_of k (i ∷ is) = one_if (same k i.0) + indexes_of k is

insert-indexes_of :
    (k : Str) (i : Str × IndexKind) (is : List (Str × IndexKind))
    → indexes_of k (insert_index i is) ≡ one_if (same k i.0) + indexes_of k is
unfolding insert_index
insert-indexes_of k i [] = refl
insert-indexes_of k i (j ∷ js) = elim (Bool-cases (before j.0 i.0)) [
  | inl e ↦ rw e (omega (arith, insert-indexes_of k i js))
  | inr e ↦ rw e refl
]

sort-indexes_of :
    (k : Str) (is : List (Str × IndexKind)) → indexes_of k (sort_indexes is) ≡ indexes_of k is
unfolding sort_indexes
sort-indexes_of k [] = refl
sort-indexes_of k (i ∷ is) =
    omega (arith, insert-indexes_of k i (sort_indexes is), sort-indexes_of k is)

-- No column stands behind a later one.
abbrev IsSorted : List (Str × IndexKind) → Type 0
IsSorted [] = Unit {0}
IsSorted (i ∷ []) = Unit {0}
IsSorted (i ∷ j ∷ js) = (before j.0 i.0 ≡ false) × IsSorted (j ∷ js)

before-asym : (j k : Str) → before j k ≡ true → before k j ≡ false
before-asym j k p = elim (Bool-cases (before k j)) [
  | inl q ↦ cc (before_trans j k j p q, before_refl j)
  | inr q ↦ q
]

insert-IsSorted :
    (i : Str × IndexKind) (is : List (Str × IndexKind)) → IsSorted is → IsSorted (insert_index i is)
unfolding insert_index
insert-IsSorted i [] h = tt
insert-IsSorted i (j ∷ []) h = elim (Bool-cases (before j.0 i.0)) [
  | inl e ↦ rw e (before-asym j.0 i.0 e, tt)
  | inr e ↦ rw e (e, tt)
]
insert-IsSorted i (j ∷ k ∷ ks) h =
    let rest = insert-IsSorted i (k ∷ ks) h.1 in
    elim (Bool-cases (before j.0 i.0)) [
      | inr e ↦ rw e (e, h)
      | inl e ↦ elim (Bool-cases (before k.0 i.0)) [
        | inl f ↦
            rw (e, f)
              (h.0, subst (λ b. IsSorted (if b then k ∷ insert_index i ks else i ∷ k ∷ ks)) f rest)
        | inr f ↦ rw (e, f) (before-asym j.0 i.0 e, (f, h.1))
      ]
    ]

sort-IsSorted : (is : List (Str × IndexKind)) → IsSorted (sort_indexes is)
unfolding sort_indexes
sort-IsSorted [] = tt
sort-IsSorted (i ∷ is) = insert-IsSorted i (sort_indexes is) (sort-IsSorted is)

-- A column before the first of a sorted list without equal neighbours has no index in it.
none_earlier :
    (k : Str) (i : Str × IndexKind) (is : List (Str × IndexKind))
    → IsSorted (i ∷ is)
    → has_neighbours (i ∷ is) ≡ false
    → before k i.0 ≡ true
    → indexes_of k (i ∷ is) ≡ 0
unfolding has_neighbours
none_earlier k i [] s h e = rw (differs k i.0 e) refl
none_earlier k i (j ∷ js) s h e =
    let apart : same i.0 j.0 ≡ false = ground arith in
    let below : before k j.0 ≡ true = before_trans k i.0 j.0 e (before-total i.0 j.0 s.0 apart) in
    let rest = none_earlier k j js s.1 (ground arith) below in
    rw (differs k i.0 e) (omega (arith, rest))

sorted-IsDistinct :
    (k : Str) (is : List (Str × IndexKind))
    → IsSorted is
    → has_neighbours is ≡ false
    → indexes_of k is ≤ 1
unfolding has_neighbours
sorted-IsDistinct k [] s h = omega arith
sorted-IsDistinct k (i ∷ []) s h = ground arith
sorted-IsDistinct k (i ∷ j ∷ js) s h =
    let apart : same i.0 j.0 ≡ false = ground arith in
    let rest = sorted-IsDistinct k (j ∷ js) s.1 (ground arith) in
    elim (Bool-cases (same k i.0)) [
      | inr e ↦ rw e (omega (arith, rest))
      | inl e ↦
          let here : k ≡ i.0 = (same_iff k i.0).0 e in
          let below : before k j.0 ≡ true =
            subst (λ x. before x j.0 ≡ true) (sym here) (before-total i.0 j.0 s.0 apart) in
          rw e (omega (arith, none_earlier k j js s.1 (ground arith) below))
    ]

-- Equal neighbours are two indexes of one column.
neighbours-repeat :
    (is : List (Str × IndexKind)) → ((k : Str) → indexes_of k is ≤ 1) → has_neighbours is ≡ false
unfolding has_neighbours
neighbours-repeat [] h = refl
neighbours-repeat (i ∷ []) h = refl
neighbours-repeat (i ∷ j ∷ js) h =
    let rest = neighbours-repeat (j ∷ js) (λ k. fewer k) in
    elim (Bool-cases (same i.0 j.0)) [ inl e ↦ absurd (twice e (h i.0)) | inr e ↦ ground arith ]
  where
    fewer : (k : Str) → indexes_of k (j ∷ js) ≤ 1
    fewer k = omega (arith, h k)

    twice : same i.0 j.0 ≡ true → indexes_of i.0 (i ∷ j ∷ js) ≤ 1 → ⊥
    twice e t =
        let own : same i.0 i.0 ≡ true = (same_iff i.0 i.0).1 refl in
        impossible (one_if (same i.0 i.0)) (one_if (same i.0 j.0)) (ap one_if own) (ap one_if e) t
      where
        impossible : (a b : ℕ) → a ≡ 1 → b ≡ 1 → a + (b + indexes_of i.0 js) ≤ 1 → ⊥
        impossible a b p q t = omega arith

-- The column is in the schema, with a type that the index supports.
abbrev pub IsIndexable : Schema → Str × IndexKind → Type 0
IsIndexable schema (column, kind) =
    (f : Field) × (field_with_name schema column ≡ some f) × (supported kind (data_type f) ≡ true)

validate_indexes_iff :
    (schema : Schema) (is : List (Str × IndexKind))
    → IsOk (validate_indexes schema is) ↔ All (IsIndexable schema) is
unfolding validate_indexes
validate_indexes_iff schema [] = (λ o. tt, λ h. tt)
validate_indexes_iff schema ((column, kind) ∷ is) =
    let rest = validate_indexes_iff schema is in
    elim (Option-cases (field_with_name schema column)) [
      | inl e ↦ rw e (λ o. absurd o, λ h. cc (h.0.1))
      | inr (f, e) ↦ elim (Bool-cases (supported kind (data_type f))) [
        | inl t ↦ rw (e, t) (λ o. ((f, refl, t), rest.0 o), λ h. rest.1 h.1)
        | inr t ↦ rw (e, t) (λ o. absurd o, λ h. cc (h.0.1, h.0.2, t))
      ]
    ]

-- The plan is accepted exactly when every index is on a column of the schema whose type its kind supports
-- and no column is named twice; whatever the order of the request.
pub new_plan_iff :
    (schema : Schema) (is : List (Str × IndexKind))
    → IsOk (new_plan schema is) ↔ (All (IsIndexable schema) is × ((k : Str) → indexes_of k is ≤ 1))
unfolding new_plan
new_plan_iff schema is =
    let valid = validate_indexes_iff schema is in
    let both = planned (validate_indexes schema is) (has_neighbours (sort_indexes is)) in
    (
      λ o.
          let (v, n) = both.0 o in
          (
            valid.0 v,
            λ k.
                subst (λ c. c ≤ 1) (sort-indexes_of k is)
                  (sorted-IsDistinct k (sort_indexes is) (sort-IsSorted is) n),
          ),
      λ h. both.1 (
        valid.1 h.0,
        neighbours-repeat (sort_indexes is)
            λ k. subst (λ c. c ≤ 1) (sym (sort-indexes_of k is)) (h.1 k),
      ),
    )
  where
    planned :
        (r : Result (Unit {0})) (b : Bool)
        → IsOk (
            r >>= λ _.
            bail_if b (lit "a column cannot have multiple indexes in one write" ∷ []) >>= λ _.
            ok (sort_indexes is))
          ↔ (IsOk r × (b ≡ false))
    planned (ok a) true = (λ o. absurd o, λ h. cc (h.1))
    planned (ok a) false = (λ o. (tt, refl), λ h. tt)
    planned (err e) b = (λ o. absurd o, λ h. absurd h.0)
