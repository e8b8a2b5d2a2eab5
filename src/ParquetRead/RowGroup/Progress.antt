-- ===== src/ParquetRead/RowGroup/Progress.antt =====
-- The progress of a row group task.
use duckdb_lance_conversion.Base.{
  ℕ, ◌+◌, ◌≤◌, ◌<◌, ◌≡◌, refl, sym, subst, Bool, true, false, ◌⊎◌, inl, inr, Option, none, some,
  List, [], ◌∷◌, ◌++◌, leb, arith, Bool-cases,
}
use duckdb_lance_conversion.Error.{Result, ok, err, Message}
use duckdb_lance_conversion.ParquetRead.{ReadAheadBudget, new_budget, reserve, release, permits_for}
use duckdb_lance_conversion.ParquetRead.RowGroup.{
  TaskState, running, returned, panicked, RowGroup, spawn_row_group, send_reserved, send_next,
  run_task, produce, complete, take_next, take_if_open, consume, Step, produces, panics, consumes,
  Steps, start, next,
}

abbrev pub IsSome {ℓ} : {A : Type ℓ} → Option A → Type 0
IsSome none = ⊥
IsSome (some a) = Unit {0}

module _ {Batch : Type 0} (memory_size : Batch → ℕ) where
  -- The permits of the queued batches.
  abbrev permits : List (Result (Batch × ℕ)) → ℕ
  permits [] = 0
  permits (err e ∷ q) = permits q
  permits (ok (batch, permit) ∷ q) = permit + permits q

  permits-append : (q r : List (Result (Batch × ℕ))) → permits (q ++ r) ≡ permits q + permits r
  permits-append [] r = omega arith
  permits-append (err e ∷ q) r = permits-append q r
  permits-append (ok (batch, permit) ∷ q) r = omega (arith, permits-append q r)

  -- The free permits and those of the queue are the capacity, which is positive.
  abbrev IsBalanced : RowGroup memory_size → Type 0
  IsBalanced s =
      (s.budget.available + permits s.queued ≡ s.budget.capacity) × (0 < s.budget.capacity)

  abbrev IsBalancedIfSome : Option (RowGroup memory_size) → Type 0
  IsBalancedIfSome none = Unit
  IsBalancedIfSome (some s) = IsBalanced s

  reserved-eq :
      (b c : ReadAheadBudget) (n permit : ℕ)
      → reserve b n ≡ some (c, permit)
      → (c.available + permit ≡ b.available) × (c.capacity ≡ b.capacity)
  unfolding reserve
  reserved-eq b c n permit e = elim (Bool-cases (leb (permits_for b n) b.available)) [
    | inl fits ↦ ground arith
    | inr waits ↦ ground arith
  ]

  fits :
      (b : ReadAheadBudget) (n : ℕ)
      → b.capacity ≤ b.available
      → leb (permits_for b n) b.available ≡ true
  unfolding permits_for
  fits b n h = ground arith

  reserves : (b : ReadAheadBudget) (n : ℕ) → b.capacity ≤ b.available → IsSome (reserve b n)
  unfolding reserve permits_for
  reserves b n h = rw (fits b n h) tt

  send_reserved_ready :
      (s : RowGroup memory_size) (rest : List (Message ⊎ Batch)) (batch : Batch)
      (o : Option (ReadAheadBudget × ℕ))
      → IsSome o
      → IsSome (send_reserved memory_size s rest batch o)
  send_reserved_ready s rest batch (some (b, permit)) h = tt
  send_reserved_ready s rest batch none h = absurd h

  send_next-IsBalanced :
      (s : RowGroup memory_size) (r : List (Message ⊎ Batch))
      → IsBalanced s
      → IsBalancedIfSome (send_next memory_size s r)
  send_next-IsBalanced s [] h = h
  send_next-IsBalanced s (inl m ∷ rest) h =
      (omega (arith, permits-append s.queued (err _ ∷ [])), h.1)
  send_next-IsBalanced s (inr batch ∷ rest) h = go (reserve s.budget (memory_size batch)) refl
    where
      go :
          (o : Option (ReadAheadBudget × ℕ))
          → reserve s.budget (memory_size batch) ≡ o
          → IsBalancedIfSome (send_reserved memory_size s rest batch o)
      go none e = tt
      go (some (c, permit)) e =
          let (a, b) = reserved-eq s.budget c (memory_size batch) permit e in
          (omega (arith, permits-append s.queued (ok (batch, permit) ∷ [])), omega arith)

  run_task-IsBalanced :
      (s : RowGroup memory_size) (t : TaskState)
      → IsBalanced s
      → IsBalancedIfSome (run_task memory_size s t)
  run_task-IsBalanced s running h = send_next-IsBalanced s s.reading h
  run_task-IsBalanced s returned h = tt
  run_task-IsBalanced s (panicked m) h = tt

  complete-IsBalanced :
      (s : RowGroup memory_size) (t : TaskState)
      → IsBalanced s
      → IsBalancedIfSome (complete memory_size s t)
  complete-IsBalanced s running h = tt
  complete-IsBalanced s returned h = h
  complete-IsBalanced s (panicked m) h = h

  take_next-IsBalanced :
      (s : RowGroup memory_size) (q : List (Result (Batch × ℕ)))
      → s.queued ≡ q
      → IsBalanced s
      → IsBalancedIfSome (take_next memory_size s q)
  unfolding release
  take_next-IsBalanced s [] e h = complete-IsBalanced s s.task h
  take_next-IsBalanced s (err x ∷ q) e h =
      (subst (λ r. s.budget.available + permits r ≡ s.budget.capacity) e h.0, h.1)
  take_next-IsBalanced s (ok (batch, permit) ∷ q) e h =
      let b : s.budget.available + (permit + permits q) ≡ s.budget.capacity =
        subst (λ r. s.budget.available + permits r ≡ s.budget.capacity) e h.0 in
      (omega arith, h.1)

  take_if_open-IsBalanced :
      (s : RowGroup memory_size) (b : Bool)
      → IsBalanced s
      → IsBalancedIfSome (take_if_open memory_size s b)
  take_if_open-IsBalanced s true h = tt
  take_if_open-IsBalanced s false h = take_next-IsBalanced s s.queued refl h

  Step-IsBalanced :
      (s t : RowGroup memory_size) → Step memory_size s t → IsBalanced s → IsBalanced t
  unfolding produce consume
  Step-IsBalanced s t (produces e) h = subst IsBalancedIfSome e (run_task-IsBalanced s s.task h)
  Step-IsBalanced s t (panics m e) h = h
  Step-IsBalanced s t (consumes e) h =
      subst IsBalancedIfSome e (take_if_open-IsBalanced s s.ended h)

  steps-IsBalanced :
      (s : RowGroup memory_size) (n : ℕ) (t : RowGroup memory_size)
      → Steps memory_size s n t
      → IsBalanced s
      → IsBalanced t
  steps-IsBalanced s n t start h = h
  steps-IsBalanced s n u (next {n = m} {t = t} p e) h =
      Step-IsBalanced t u e (steps-IsBalanced s m t p h)

  -- A task whose queue is empty never waits.
  send_next_ready :
      (s : RowGroup memory_size) (r : List (Message ⊎ Batch))
      → IsBalanced s
      → s.queued ≡ []
      → IsSome (send_next memory_size s r)
  send_next_ready s [] h e = tt
  send_next_ready s (inl m ∷ rest) h e = tt
  send_next_ready s (inr batch ∷ rest) h e =
      let b : s.budget.available + 0 ≡ s.budget.capacity =
        subst (λ r. s.budget.available + permits r ≡ s.budget.capacity) e h.0 in
      send_reserved_ready s rest batch (reserve s.budget (memory_size batch))
        (reserves s.budget (memory_size batch) (omega arith))

  abbrev Moves : RowGroup memory_size → Type 0
  Moves s = IsSome (produce memory_size s) ⊎ IsSome (consume memory_size s)

  empty-Moves :
      (s : RowGroup memory_size) (k : TaskState)
      → s.task ≡ k
      → IsBalanced s
      → s.queued ≡ []
      → IsSome (run_task memory_size s k) ⊎ IsSome (complete memory_size s k)
  empty-Moves s running k h e = inl (send_next_ready s s.reading h e)
  empty-Moves s returned k h e = inr tt
  empty-Moves s (panicked m) k h e = inr tt

  open-Moves :
      (s : RowGroup memory_size) (q : List (Result (Batch × ℕ)))
      → s.queued ≡ q
      → IsBalanced s
      → IsSome (run_task memory_size s s.task) ⊎ IsSome (take_next memory_size s q)
  open-Moves s [] e h = empty-Moves s s.task refl h e
  open-Moves s (err x ∷ q) e h = inr tt
  open-Moves s (ok (batch, permit) ∷ q) e h = inr tt

  not_ended-Moves : (s : RowGroup memory_size) → s.ended ≡ false → IsBalanced s → Moves s
  unfolding produce consume
  not_ended-Moves s o h = elim (open-Moves s s.queued refl h) [
    | inl p ↦ inl p
    | inr c ↦ inr (subst (λ b. IsSome (take_if_open memory_size s b)) (sym o) c)
  ]

  -- However the task, its panics and the consumer's polls took turns, a stream that has not ended can go on: the
  -- task can do a round, or a poll yields an item or the end.
  pub row_group_live :
      (reader : List (Message ⊎ Batch)) (read_ahead_bytes n : ℕ) (s : RowGroup memory_size)
      → Steps memory_size (spawn_row_group memory_size reader read_ahead_bytes) n s
      → s.ended ≡ false
      → IsSome (produce memory_size s) ⊎ IsSome (consume memory_size s)
  unfolding spawn_row_group new_budget
  row_group_live reader bytes n s p o =
      not_ended-Moves s o (
        steps-IsBalanced (spawn_row_group memory_size reader bytes) n s p
          (omega arith, omega arith))
