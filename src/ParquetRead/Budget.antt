-- ===== src/ParquetRead/Budget.antt =====
-- The permits of a row group's read-ahead.
use duckdb_lance_conversion.Base.{
  ℕ, ◌+◌, ◌<◌, ◌≤◌, ◌≡◌, refl, Option, none, some, List, [], ◌∷◌, ◌++◌, sum, min, max, u32_max, leb,
  arith, ◌⊎◌, Bool-cases, inl, inr,
}
use duckdb_lance_conversion.ParquetRead.{ReadAheadBudget, new_budget, permits_for, reserve, release}

-- The budget with the permits of the queued batches, oldest first.
pub record Queue : Type 0 where
  pub budget : ReadAheadBudget
  pub queued : List ℕ

-- The task offers a batch of so many bytes, or the consumer takes the oldest.
pub data Event : Type 0 where
  offer : ℕ → Event
  take : Event

abbrev queue_reserved : Queue → Option (ReadAheadBudget × ℕ) → Queue
queue_reserved q none = q
queue_reserved q (some (b, permit)) = record { budget = b; queued = q.queued ++ (permit ∷ []) }

abbrev take_oldest : ReadAheadBudget → List ℕ → Queue
take_oldest b [] = record { budget = b; queued = [] }
take_oldest b (permit ∷ rest) = record { budget = release b permit; queued = rest }

pub step : Queue → Event → Queue
step q (offer bytes) = queue_reserved q (reserve q.budget bytes)
step q take = take_oldest q.budget q.queued

pub run : Queue → List Event → Queue
run q [] = q
run q (e ∷ es) = run (step q e) es

-- The free permits and those of the queued batches make up the capacity.
pub IsBalanced : ℕ → Queue → Type 0
IsBalanced bytes q =
    (q.budget.available + sum q.queued ≡ max (min bytes u32_max) 1)
    × (q.budget.capacity ≡ max (min bytes u32_max) 1)

sum-snoc : (xs : List ℕ) (x : ℕ) → sum (xs ++ (x ∷ [])) ≡ sum xs + x
sum-snoc [] x = omega arith
sum-snoc (y ∷ ys) x = omega (arith, sum-snoc ys x)

take-IsBalanced :
    (bytes : ℕ) (b : ReadAheadBudget) (queued : List ℕ)
    → IsBalanced bytes (record { budget = b; queued = queued })
    → IsBalanced bytes (take_oldest b queued)
unfolding IsBalanced release
take-IsBalanced bytes b [] h = h
take-IsBalanced bytes b (permit ∷ rest) h = (omega arith, h.1)

Step-IsBalanced :
    (bytes : ℕ) (q : Queue) (e : Event) → IsBalanced bytes q → IsBalanced bytes (step q e)
unfolding step IsBalanced reserve release
Step-IsBalanced bytes q (offer n) h =
    elim (Bool-cases (leb (permits_for q.budget n) q.budget.available)) [
      | inl fits ↦ rw fits (ground (arith, sum-snoc q.queued (permits_for q.budget n)))
      | inr waits ↦ rw waits h
    ]
Step-IsBalanced bytes q take h = take-IsBalanced bytes q.budget q.queued h

run-IsBalanced :
    (bytes : ℕ) (q : Queue) (es : List Event) → IsBalanced bytes q → IsBalanced bytes (run q es)
unfolding run
run-IsBalanced bytes q [] h = h
run-IsBalanced bytes q (e ∷ es) h = run-IsBalanced bytes (step q e) es (Step-IsBalanced bytes q e h)

-- Whatever is offered and taken, the queued batches never hold more permits than the read-ahead in bytes
-- (at least one), and a batch of any size is accepted when none is queued.
pub read_ahead-bounded :
    (bytes : ℕ) (es : List Event) (n : ℕ)
    → (sum (run (record { budget = new_budget bytes; queued = [] }) es).queued
        ≤ max (min bytes u32_max) 1)
      × ((0 < sum (run (record { budget = new_budget bytes; queued = [] }) es).queued)
          ⊎ (¬ (
              reserve (run (record { budget = new_budget bytes; queued = [] }) es).budget n
              ≡ none)))
unfolding IsBalanced new_budget reserve permits_for
read_ahead-bounded bytes es n =
    let q = run (record { budget = new_budget bytes; queued = [] }) es in
    let h =
      run-IsBalanced bytes (record { budget = new_budget bytes; queued = [] }) es
        (omega arith, refl) in
    (omega arith, ground arith)
