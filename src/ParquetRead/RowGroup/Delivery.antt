-- ===== src/ParquetRead/RowGroup/Delivery.antt =====
-- What the stream of a row group yields.
use duckdb_lance_conversion.Base.{
  ℕ, ◌≡◌, refl, sym, ◌∙◌, ap, subst, Bool, true, false, ◌⊎◌, inl, inr, Option, none, some, List, [],
  ◌∷◌, ◌++◌, Str, map,
}
use mathlib.Core.List.{append_assoc, append-nil, map-append}
use duckdb_lance_conversion.Error.{Result, ok, err, Message, from_cause, parquet_error}
use duckdb_lance_conversion.ParquetRead.{ReadAheadBudget, reserve}
use duckdb_lance_conversion.ParquetRead.RowGroup.{
  TaskState, running, returned, panicked, item_of, task_failed, RowGroup, spawn_row_group,
  send_reserved, send_next, run_task, produce, complete, take_next, take_if_open, consume, Step,
  produces, panics, consumes, Steps, start, next,
}

module _ {Batch : Type 0} (memory_size : Batch → ℕ) where
  abbrev plain : Result (Batch × ℕ) → Result Batch
  plain (ok (batch, permit)) = ok batch
  plain (err e) = err e

  -- What the task will still read.
  abbrev to_read : List (Message ⊎ Batch) → TaskState → List (Message ⊎ Batch)
  to_read reading returned = []
  to_read reading running = reading
  to_read reading (panicked m) = reading

  -- The stream yielded all items, or, of a task that panicked, some first ones and the error.
  abbrev pub Complete : List (Result Batch) → TaskState → List (Result Batch) → Type 0
  Complete all running yielded = ⊥
  Complete all returned yielded = yielded ≡ all
  Complete all (panicked m) yielded =
      (first : List (Result Batch)) × (rest : List (Result Batch)) × (first ++ rest ≡ all)
      × (yielded ≡ first ++ (task_failed m ∷ []))

  -- What has been yielded, what is queued and what is still to be read make up the whole.
  abbrev Delivers :
      List (Result Batch)
      → List (Result Batch)
      → List (Result (Batch × ℕ))
      → List (Message ⊎ Batch)
      → TaskState
      → Bool
      → Type 0
  Delivers all yielded queued reading task true = Complete all task yielded
  Delivers all yielded queued reading task false =
      yielded ++ (map plain queued ++ map item_of (to_read reading task)) ≡ all

  abbrev Holds : List (Result Batch) → RowGroup memory_size → Type 0
  Holds all s = Delivers all s.yielded s.queued s.reading s.task s.ended

  abbrev Kept : List (Result Batch) → Option (RowGroup memory_size) → Type 0
  Kept all none = Unit {0}
  Kept all (some t) = Holds all t

  module _ (all : List (Result Batch)) where
    sent :
        (y : List (Result Batch)) (q : List (Result (Batch × ℕ))) (z : Result (Batch × ℕ))
        (x : Message ⊎ Batch) (r : List (Message ⊎ Batch)) (b : Bool)
        → plain z ≡ item_of x
        → Delivers all y q (x ∷ r) running b
        → Delivers all y (q ++ (z ∷ [])) r running b
    sent y q z x r true e h = h
    sent y q z x r false e h =
        ap (λ l. y ++ (l ++ map item_of r)) (map-append plain q (z ∷ []))
        ∙ (ap (λ l. y ++ l) (append_assoc (map plain q) (plain z ∷ []) (map item_of r)) ∙ rw e h)

    task_over :
        (y : List (Result Batch)) (q : List (Result (Batch × ℕ))) (r : List (Message ⊎ Batch))
        (b : Bool)
        → Delivers all y q [] running b
        → Delivers all y q r returned b
    task_over y q r true h = absurd h
    task_over y q r false h = h

    task_panicked :
        (y : List (Result Batch)) (q : List (Result (Batch × ℕ))) (r : List (Message ⊎ Batch))
        (m : Str) (b : Bool)
        → Delivers all y q r running b
        → Delivers all y q r (panicked m) b
    task_panicked y q r m true h = absurd h
    task_panicked y q r m false h = h

    send_next-Kept :
        (s : RowGroup memory_size) (r : List (Message ⊎ Batch))
        → s.task ≡ running
        → Delivers all s.yielded s.queued r running s.ended
        → Kept all (send_next memory_size s r)
    send_next-Kept s [] k h = task_over s.yielded s.queued s.reading s.ended h
    send_next-Kept s (inl m ∷ rest) k h =
        rw k
          (sent s.yielded s.queued (err (from_cause (parquet_error m))) (inl m) rest s.ended refl h)
    send_next-Kept s (inr batch ∷ rest) k h = reserved (reserve s.budget (memory_size batch))
      where
        reserved :
            (o : Option (ReadAheadBudget × ℕ)) → Kept all (send_reserved memory_size s rest batch o)
        reserved none = tt
        reserved (some (c, permit)) =
            rw k (sent s.yielded s.queued (ok (batch, permit)) (inr batch) rest s.ended refl h)

    run_task-Kept :
        (s : RowGroup memory_size) (k : TaskState)
        → s.task ≡ k
        → Delivers all s.yielded s.queued s.reading k s.ended
        → Kept all (run_task memory_size s k)
    run_task-Kept s running k h = send_next-Kept s s.reading k h
    run_task-Kept s returned k h = tt
    run_task-Kept s (panicked m) k h = tt

    complete-Kept :
        (s : RowGroup memory_size) (k : TaskState)
        → s.task ≡ k
        → Delivers all s.yielded [] s.reading k false
        → Kept all (complete memory_size s k)
    complete-Kept s running k h = tt
    complete-Kept s returned k h = rw k (sym (append-nil s.yielded) ∙ h)
    complete-Kept s (panicked m) k h = rw k (s.yielded, map item_of s.reading, h, refl)

    taken :
        (y : List (Result Batch)) (z : Result (Batch × ℕ)) (q : List (Result (Batch × ℕ)))
        (r : List (Message ⊎ Batch)) (k : TaskState)
        → Delivers all y (z ∷ q) r k false
        → Delivers all (y ++ (plain z ∷ [])) q r k false
    taken y z q r k h = append_assoc y (plain z ∷ []) (map plain q ++ map item_of (to_read r k)) ∙ h

    take_next-Kept :
        (s : RowGroup memory_size) (q : List (Result (Batch × ℕ)))
        → s.ended ≡ false
        → Delivers all s.yielded q s.reading s.task false
        → Kept all (take_next memory_size s q)
    take_next-Kept s [] o h = complete-Kept s s.task refl h
    take_next-Kept s (err x ∷ q) o h = rw o (taken s.yielded (err x) q s.reading s.task h)
    take_next-Kept s (ok (batch, permit) ∷ q) o h =
        rw o (taken s.yielded (ok (batch, permit)) q s.reading s.task h)

    take_if_open-Kept :
        (s : RowGroup memory_size) (b : Bool)
        → s.ended ≡ b
        → Delivers all s.yielded s.queued s.reading s.task b
        → Kept all (take_if_open memory_size s b)
    take_if_open-Kept s true o h = tt
    take_if_open-Kept s false o h = take_next-Kept s s.queued o h

    Step-Holds : (s t : RowGroup memory_size) → Step memory_size s t → Holds all s → Holds all t
    unfolding produce consume
    Step-Holds s t (produces e) h = subst (Kept all) e (run_task-Kept s s.task refl h)
    Step-Holds s t (panics m k) h =
        task_panicked s.yielded s.queued s.reading m s.ended
          (subst (λ k'. Delivers all s.yielded s.queued s.reading k' s.ended) k h)
    Step-Holds s t (consumes e) h = subst (Kept all) e (take_if_open-Kept s s.ended refl h)

    steps-Holds :
        (s : RowGroup memory_size) (n : ℕ) (t : RowGroup memory_size)
        → Steps memory_size s n t
        → Holds all s
        → Holds all t
    steps-Holds s n t start h = h
    steps-Holds s n u (next {n = m} {t = t} p e) h = Step-Holds t u e (steps-Holds s m t p h)

  -- A stream that has ended yielded all items of the reader in order, with the reader's errors among them; or
  -- the task panicked, and it yielded some first items and then an error, never a shorter row group alone.
  pub row_group_delivers :
      (reader : List (Message ⊎ Batch)) (read_ahead_bytes n : ℕ) (s : RowGroup memory_size)
      → Steps memory_size (spawn_row_group memory_size reader read_ahead_bytes) n s
      → s.ended ≡ true
      → Complete (map item_of reader) s.task s.yielded
  unfolding spawn_row_group
  row_group_delivers reader bytes n s p o =
      subst (λ b. Delivers (map item_of reader) s.yielded s.queued s.reading s.task b) o
        (steps-Holds (map item_of reader) (spawn_row_group memory_size reader bytes) n s p refl)
