-- ===== src/WarcSchema/Projection.antt =====
-- Which projections a scan accepts.
use duckdb_lance_conversion.Base.{
  ℕ, zero, suc, ◌≡◌, ◌<◌, ◌↔◌, ◌⊎◌, refl, ap, sym, subst, Bool, true, false, Option, none, some,
  List, [], ◌∷◌, All, length, get_elem?, set, arith, inl, inr, ◌≢◌,
}
use duckdb_lance_conversion.Arrow.{Field}
use duckdb_lance_conversion.Error.{ok, >>=-eq-ok, IsOk, IsOk-map, IsOk-of_map, IsOk-of_eq}
use duckdb_lance_conversion.WarcSchema.{
  check_columns, requested, projected_schema, all_false, warc_columns, project_columns,
}

-- In range, and different from the columns before.
abbrev pub IsDistinct : List ℕ → Type 0
IsDistinct [] = Unit {0}
IsDistinct (i ∷ is) = All (λ j. i ≢ j) is × IsDistinct is

abbrev Unseen : List Bool → ℕ → Type 0
Unseen seen i = get_elem? seen i ≡ some false

set-Unseen : (seen : List Bool) (i j : ℕ) → (Unseen (set seen i true) j) ↔ ((i ≢ j) × Unseen seen j)
set-Unseen [] i j = (λ e. cc, λ e. e.1)
set-Unseen (b ∷ bs) zero zero = (λ e. cc, λ e. absurd (e.0 refl))
set-Unseen (b ∷ bs) zero (suc j) = (λ e. (λ p. omega arith, e), λ e. e.1)
set-Unseen (b ∷ bs) (suc i) zero = (λ e. (λ p. omega arith, e), λ e. e.1)
set-Unseen (b ∷ bs) (suc i) (suc j) =
    let ih = set-Unseen bs i j in
    (λ e. (λ p. (ih.0 e).0 (omega arith), (ih.0 e).1), λ e. ih.1 (λ p. e.0 (ap suc p), e.1))

set-All :
    (seen : List Bool) (i : ℕ) (is : List ℕ)
    → All (Unseen (set seen i true)) is ↔ (All (λ j. i ≢ j) is × All (Unseen seen) is)
set-All seen i [] = (λ _. (tt, tt), λ _. tt)
set-All seen i (j ∷ js) =
    let one = set-Unseen seen i j in
    let ih = set-All seen i js in
    (
      λ h. (((one.0 h.0).0, (ih.0 h.1).0), ((one.0 h.0).1, (ih.0 h.1).1)),
      λ h. (one.1 (h.0.0, h.1.0), ih.1 (h.0.1, h.1.1)),
    )

Bool-option-cases : (o : Option Bool) → (o ≡ none) ⊎ ((o ≡ some true) ⊎ (o ≡ some false))
Bool-option-cases none = inl refl
Bool-option-cases (some true) = inr (inl refl)
Bool-option-cases (some false) = inr (inr refl)

check_columns_iff :
    (seen : List Bool) (is : List ℕ)
    → IsOk (check_columns seen is) ↔ (All (Unseen seen) is × IsDistinct is)
unfolding check_columns
check_columns_iff seen [] = (λ _. (tt, tt), λ _. tt)
check_columns_iff seen (i ∷ is) = elim (Bool-option-cases (get_elem? seen i)) [
  | inl out ↦ rw out (λ o. absurd o, λ h. cc (h.0.0))
  | inr (inl again) ↦ rw again (λ o. absurd o, λ h. cc (h.0.0))
  | inr (inr fresh) ↦
      let ih = check_columns_iff (set seen i true) is in
      let marks = set-All seen i is in
      rw fresh (
        λ o.
            let (unseen, distinct) = ih.0 o in
            ((refl, (marks.0 unseen).1), ((marks.0 unseen).0, distinct)),
        λ h. ih.1 (marks.1 (h.1.0, h.0.1), h.1.1),
      )
]

Unseen-all_false : (n i : ℕ) → Unseen (all_false n) i ↔ (i < n)
unfolding all_false
Unseen-all_false zero i = (λ e. cc, λ h. absurd (omega arith))
Unseen-all_false (suc n) zero = (λ e. omega arith, λ h. refl)
Unseen-all_false (suc n) (suc i) =
    let ih = Unseen-all_false n i in (λ e. omega (arith, ih.0 e), λ h. ih.1 (omega arith))

All-Unseen : (n : ℕ) (is : List ℕ) → All (Unseen (all_false n)) is ↔ All (λ i. i < n) is
All-Unseen n [] = (λ _. tt, λ _. tt)
All-Unseen n (i ∷ is) =
    let one = Unseen-all_false n i in
    let ih = All-Unseen n is in (λ h. (one.0 h.0, ih.0 h.1), λ h. (one.1 h.0, ih.1 h.1))

-- The fields chosen by a list of positions.
abbrev pub Selects : List ℕ → List Field → Type 0
Selects [] [] = Unit {0}
Selects [] (f ∷ fs) = ⊥
Selects (i ∷ is) [] = ⊥
Selects (i ∷ is) (f ∷ fs) = (get_elem? warc_columns i ≡ some f) × Selects is fs

get_elem-some :
    {A : Type 0} (xs : List A) (i : ℕ) → i < length xs → (a : A) × (get_elem? xs i ≡ some a)
get_elem-some [] i h = absurd (omega arith)
get_elem-some (x ∷ xs) zero h = (x, refl)
get_elem-some (x ∷ xs) (suc i) h = get_elem-some xs i (omega arith)

project_columns-Selects :
    (is : List ℕ)
    → All (λ i. i < length warc_columns) is
    → Selects is (project_columns warc_columns is)
unfolding project_columns warc_columns
project_columns-Selects [] h = tt
project_columns-Selects (i ∷ is) h =
    let (f, found) = get_elem-some warc_columns i h.0 in
    rw found (found, project_columns-Selects is h.1)

-- A projection is accepted exactly when its columns are columns of the table and no column is asked
-- for twice; an absent or empty projection stands for all of them.
pub projected_schema-IsOk :
    (projection : Option (List ℕ))
    → IsOk (projected_schema projection) ↔ (
        All (λ i. i < length warc_columns) (requested projection)
        × IsDistinct (requested projection))
unfolding projected_schema
projected_schema-IsOk projection =
    let columns = requested projection in
    let checked = check_columns_iff (all_false (length warc_columns)) columns in
    let unseen = All-Unseen (length warc_columns) columns in
    let m = check_columns (all_false (length warc_columns)) columns in
    (
      λ o.
          let (fresh, distinct) =
            checked.0 (IsOk-of_map m (λ _. (columns, project_columns warc_columns columns)) o) in
          (unseen.0 fresh, distinct),
      λ h. IsOk-map m _ (checked.1 (unseen.1 h.0, h.1)),
    )

-- An accepted projection yields the requested positions, and the fields at them in the requested order.
pub projected_schema-Selects :
    (projection : Option (List ℕ)) (columns : List ℕ) (schema : List Field)
    → projected_schema projection ≡ ok (columns, schema)
    → (columns ≡ requested projection) × Selects columns schema
unfolding projected_schema
projected_schema-Selects projection columns schema e =
    let chosen = requested projection in
    let in_range = (projected_schema-IsOk projection).0 (IsOk-of_eq e) in
    let m = check_columns (all_false (length warc_columns)) chosen in
    let (_, _, e') = >>=-eq-ok m (λ _. ok (chosen, project_columns warc_columns chosen)) e in
    let same : chosen ≡ columns = cc in
    let selected : project_columns warc_columns chosen ≡ schema = cc in
    (
      sym same,
      subst (Selects columns) selected (
          subst (λ is. Selects is (project_columns warc_columns chosen)) same
            (project_columns-Selects chosen in_range.0)),
    )
