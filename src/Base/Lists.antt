-- ===== src/Base/Lists.antt =====
-- Lists measured and indexed by native numbers, under the library's names.
use Prim.Native.Nat.{ℕ, zero, suc, ◌+◌, ◌<◌}
use mathlib.Core.Path.{◌≡◌, refl, subst}
use mathlib.Core.Logic.{◌≢◌, ◌⊎◌, inl, inr}
use mathlib.Core.Bool.{Bool, true, false}
use mathlib.Core.List.{List, [], ◌∷◌, ◌++◌}
use mathlib.Core.Option.{Option, none, some}
use native.Mathlib.Omega.{arith}
use native.Mathlib.Decide.{dec_lt}

module _ {ℓ} {A : Type ℓ} where
  abbrev pub length : List A → ℕ
  length [] = 0
  length (x ∷ xs) = suc (length xs)

  abbrev pub get_elem? : List A → ℕ → Option A
  get_elem? [] i = none
  get_elem? (x ∷ xs) zero = some x
  get_elem? (x ∷ xs) (suc i) = get_elem? xs i

  -- A write out of bounds changes nothing.
  abbrev pub set : List A → ℕ → A → List A
  set [] i v = []
  set (x ∷ xs) zero v = v ∷ xs
  set (x ∷ xs) (suc i) v = x ∷ set xs i v

  pub length-append : (xs ys : List A) → length (xs ++ ys) ≡ length xs + length ys
  length-append [] ys = omega arith
  length-append (x ∷ xs) ys = omega (arith, length-append xs ys)

  pub List-cases : (xs : List A) → (xs ≡ []) ⊎ ((a : A) × (r : List A) × (xs ≡ a ∷ r))
  List-cases [] = inl refl
  List-cases (a ∷ r) = inr (a, r, refl)

  abbrev pub is_empty : List A → Bool
  is_empty [] = true
  is_empty (x ∷ xs) = false

  pub not_empty : (xs : List A) → is_empty xs ≡ false → xs ≢ []
  not_empty [] e = cc
  not_empty (x ∷ xs) e = λ f. cc

module _ {ℓ κ} {A : Type ℓ} where
  -- Every element satisfies the predicate.
  abbrev pub All : (A → Type κ) → List A → Type κ
  All P [] = Unit
  All P (x ∷ xs) = P x × All P xs

  pub All-append : (P : A → Type κ) (xs ys : List A) → All P xs → All P ys → All P (xs ++ ys)
  All-append P [] ys h k = k
  All-append P (x ∷ xs) ys h k = (h.0, All-append P xs ys h.1 k)

  pub All-split : (P : A → Type κ) (xs ys : List A) → All P (xs ++ ys) → All P xs × All P ys
  All-split P [] ys h = (tt, h)
  All-split P (x ∷ xs) ys h = let (k, l) = All-split P xs ys h.1 in ((h.0, k), l)

-- `Iterator::sum` over numbers.
abbrev pub sum : List ℕ → ℕ
sum [] = 0
sum (x ∷ xs) = x + sum xs

pub sum-append : (xs ys : List ℕ) → sum (xs ++ ys) ≡ sum xs + sum ys
sum-append [] ys = omega arith
sum-append (x ∷ xs) ys = omega (arith, sum-append xs ys)

-- A property of each number below a bound, as a tuple at a numeral.
abbrev pub EachBelow {ℓ} : ℕ → (ℕ → Type ℓ) → Type ℓ
EachBelow zero P = Unit
EachBelow (suc n) P = P n × EachBelow n P

pub each_below {ℓ} : (n : ℕ) (P : ℕ → Type ℓ) → EachBelow n P → (i : ℕ) → i < n → P i
each_below zero P h i l = absurd (omega arith)
each_below (suc n) P h i l = elim (dec_lt i n) [
  | yes below ↦ each_below n P h.1 i below
  | no above ↦ let e : n ≡ i = omega arith in subst P e h.0
]
