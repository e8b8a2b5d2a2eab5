-- ===== src/ParquetRead/RowGroup/Length.antt =====
-- How long a row group task and its consumer can go on.
use duckdb_lance_conversion.Base.{
  ℕ, ◌+◌, ◌*◌, ◌≤◌, ◌<◌, ◌≡◌, refl, subst, Bool, true, false, ◌⊎◌, inl, inr, Option, none, some,
  List, [], ◌∷◌, length, length-append, arith,
}
use duckdb_lance_conversion.Error.{Result, ok, err, Message}
use duckdb_lance_conversion.ParquetRead.{ReadAheadBudget, new_budget, reserve}
use duckdb_lance_conversion.ParquetRead.RowGroup.{
  TaskState, running, returned, panicked, RowGroup, spawn_row_group, send_reserved, send_next,
  run_task, produce, complete, take_next, take_if_open, consume, Step, produces, panics, consumes,
  Steps, start, next,
}

abbrev task_weight : TaskState → ℕ
task_weight running = 1
task_weight returned = 0
task_weight (panicked m) = 0

abbrev open_weight : Bool → ℕ
open_weight true = 0
open_weight false = 1

module _ {Batch : Type 0} (memory_size : Batch → ℕ) where
  -- The steps that are left, at most.
  abbrev weight : RowGroup memory_size → ℕ
  weight s = 2 * length s.reading + length s.queued + task_weight s.task + open_weight s.ended

  abbrev Lighter : ℕ → Option (RowGroup memory_size) → Type 0
  Lighter w none = Unit {0}
  Lighter w (some t) = weight t < w

  send_next-Lighter :
      (s : RowGroup memory_size) (r : List (Message ⊎ Batch))
      → s.reading ≡ r
      → s.task ≡ running
      → Lighter (weight s) (send_next memory_size s r)
  send_next-Lighter s [] e k = rw k (omega arith)
  send_next-Lighter s (inl m ∷ rest) e k = rw e (omega (arith, length-append s.queued (err _ ∷ [])))
  send_next-Lighter s (inr batch ∷ rest) e k = sent (reserve s.budget (memory_size batch))
    where
      sent :
          (o : Option (ReadAheadBudget × ℕ))
          → Lighter (weight s) (send_reserved memory_size s rest batch o)
      sent none = tt
      sent (some (c, permit)) =
          rw e (omega (arith, length-append s.queued (ok (batch, permit) ∷ [])))

  run_task-Lighter :
      (s : RowGroup memory_size) (k : TaskState)
      → s.task ≡ k
      → Lighter (weight s) (run_task memory_size s k)
  run_task-Lighter s running k = send_next-Lighter s s.reading refl k
  run_task-Lighter s returned k = tt
  run_task-Lighter s (panicked m) k = tt

  complete-Lighter :
      (s : RowGroup memory_size) (k : TaskState)
      → s.ended ≡ false
      → Lighter (weight s) (complete memory_size s k)
  complete-Lighter s running o = tt
  complete-Lighter s returned o = rw o (omega arith)
  complete-Lighter s (panicked m) o = rw o (omega arith)

  take_next-Lighter :
      (s : RowGroup memory_size) (q : List (Result (Batch × ℕ)))
      → s.queued ≡ q
      → s.ended ≡ false
      → Lighter (weight s) (take_next memory_size s q)
  take_next-Lighter s [] e o = complete-Lighter s s.task o
  take_next-Lighter s (err x ∷ q) e o = rw e (omega arith)
  take_next-Lighter s (ok (batch, permit) ∷ q) e o = rw e (omega arith)

  take_if_open-Lighter :
      (s : RowGroup memory_size) (b : Bool)
      → s.ended ≡ b
      → Lighter (weight s) (take_if_open memory_size s b)
  take_if_open-Lighter s true o = tt
  take_if_open-Lighter s false o = take_next-Lighter s s.queued refl o

  Step-lighter : (s t : RowGroup memory_size) → Step memory_size s t → weight t < weight s
  unfolding produce consume
  Step-lighter s t (produces e) = subst (Lighter (weight s)) e (run_task-Lighter s s.task refl)
  Step-lighter s t (panics m k) = rw k (omega arith)
  Step-lighter s t (consumes e) = subst (Lighter (weight s)) e (take_if_open-Lighter s s.ended refl)

  steps-lighter :
      (s : RowGroup memory_size) (n : ℕ) (t : RowGroup memory_size)
      → Steps memory_size s n t
      → n + weight t ≤ weight s
  steps-lighter s n t start = omega arith
  steps-lighter s n u (next {n = m} {t = t} p e) =
      omega (arith, steps-lighter s m t p, Step-lighter t u e)

  -- A row group of some items is read in at most two steps for each item and two more, a panic included, in
  -- whatever order the task and the consumer's polls take turns.
  pub row_group_terminates :
      (reader : List (Message ⊎ Batch)) (read_ahead_bytes n : ℕ) (s : RowGroup memory_size)
      → Steps memory_size (spawn_row_group memory_size reader read_ahead_bytes) n s
      → n ≤ 2 * length reader + 2
  unfolding spawn_row_group new_budget
  row_group_terminates reader bytes n s p =
      omega (arith, steps-lighter (spawn_row_group memory_size reader bytes) n s p)
