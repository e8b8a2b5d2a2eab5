-- ===== src/WarcBatch/BodyColumn.antt =====
-- The column of the bodies among the columns that a list of records makes.
use duckdb_lance_conversion.Base.{
  ℕ, zero, suc, ◌≡◌, ◌≢◌, ◌⊎◌, refl, sym, ap, subst, Option-cases, false, none, some, List, [], ◌∷◌,
  All, get_elem?, set, ◌==◌, Bool-cases, arith, inl, inr,
}
use duckdb_lance_conversion.WarcSchema.Projection.{IsDistinct}
use duckdb_lance_conversion.WarcBatch.{WarcRecord, body_column, position}
use duckdb_lance_conversion.WarcBatch.Columns.{column_of, columns_of}

-- No column but the body's depends on the bodies.
column_of-bodies :
    (i : ℕ) (rs : List WarcRecord) (bs bs' : List (List ℕ))
    → (i == 19) ≡ false
    → column_of i rs bs ≡ column_of i rs bs'
unfolding column_of
column_of-bodies zero rs bs bs' h = refl
column_of-bodies (suc zero) rs bs bs' h = refl
column_of-bodies (suc (suc zero)) rs bs bs' h = refl
column_of-bodies (suc (suc (suc zero))) rs bs bs' h = refl
column_of-bodies (suc (suc (suc (suc i)))) rs bs bs' h =
    let other : (i == 15) ≡ false = ground arith in rw other

position-none :
    (i : ℕ) (is : List ℕ)
    → position 19 (i ∷ is) ≡ none
    → ((i == 19) ≡ false) × (position 19 is ≡ none)
unfolding position
position-none i is h = ground arith

position-some :
    (i : ℕ) (is : List ℕ) (p : ℕ)
    → position 19 (i ∷ is) ≡ some p
    → ((i ≡ 19) × (p ≡ 0))
      ⊎ (((i == 19) ≡ false) × ((q : ℕ) × (position 19 is ≡ some q) × (p ≡ suc q)))
unfolding position
position-some i is p h = elim (Bool-cases (i == 19)) [
  | inl here ↦ inl (ground arith)
  | inr there ↦ elim (Option-cases (position 19 is)) [
    | inl e ↦ absurd (ground arith)
    | inr (q, e) ↦ inr (there, (q, e, ground arith))
  ]
]

position_absent : (is : List ℕ) → All (λ j. 19 ≢ j) is → position 19 is ≡ none
unfolding position
position_absent [] h = refl
position_absent (i ∷ is) h =
    let other : (i == 19) ≡ false = ground (arith, h.0) in rw (other, position_absent is h.1)

body_column_of :
    (i : ℕ) (rs : List WarcRecord) (bs : List (List ℕ))
    → i ≡ 19
    → column_of i rs bs ≡ body_column bs
body_column_of i rs bs e = subst (λ k. column_of k rs bs ≡ body_column bs) (sym e) at_body
  where
    at_body : column_of 19 rs bs ≡ body_column bs
    at_body = unfold column_of in refl

-- Without a body column the bodies do not matter.
columns_of-bodies :
    (is : List ℕ) (rs : List WarcRecord) (bs bs' : List (List ℕ))
    → position 19 is ≡ none
    → columns_of is rs bs ≡ columns_of is rs bs'
unfolding columns_of position
columns_of-bodies [] rs bs bs' h = refl
columns_of-bodies (i ∷ is) rs bs bs' h =
    let (other, rest) = position-none i is h in
    cc (column_of-bodies i rs bs bs' other, columns_of-bodies is rs bs bs' rest)

-- With one, it stands at its position, and is the only one.
pub columns_of-body :
    (is : List ℕ) (rs : List WarcRecord) (bs bs' : List (List ℕ)) (p : ℕ)
    → IsDistinct is
    → position 19 is ≡ some p
    → (get_elem? (columns_of is rs bs) p ≡ some (body_column bs))
      × (set (columns_of is rs bs) p (body_column bs') ≡ columns_of is rs bs')
unfolding columns_of position
columns_of-body [] rs bs bs' p d h = cc
columns_of-body (i ∷ is) rs bs bs' p d h = elim (position-some i is p h) [
  | inl (here, first) ↦ rw first (
    ap some (body_column_of i rs bs here),
    cc (
      body_column_of i rs bs' here,
      columns_of-bodies is rs bs bs'
          (position_absent is (subst (λ k. All (λ j. k ≢ j) is) here d.0)),
    ),
  )
  | inr (other, (q, found, after)) ↦
      let ih = columns_of-body is rs bs bs' q d.1 found in
      rw after (ih.0, cc (column_of-bodies i rs bs bs' other, ih.1))
]
