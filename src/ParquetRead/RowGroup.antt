-- ===== src/ParquetRead/RowGroup.antt =====
-- rust/src/source/parquet.rs, `spawn_row_group`: the task that decodes one row group ahead of the consumer of its
-- stream. The task, the queue between them and the consumer's polls are steps of one state.
mod Progress
mod Length
mod Delivery
mod Examples
use duckdb_lance_conversion.Base.{
  ℕ, suc, ◌≡◌, Bool, true, false, ◌⊎◌, inl, inr, Option, none, some, List, [], ◌∷◌, ◌++◌, Str,
}
use duckdb_lance_conversion.Error.{
  Result, ok, err, fail, from_cause, parquet_error, lit, txt, Message,
}
use duckdb_lance_conversion.ParquetRead.{ReadAheadBudget, new_budget, reserve, release}

-- The task's `JoinHandle`: it still runs, it has returned, or it panicked.
pub data TaskState : Type 0 where
  running returned : TaskState
  panicked : Str → TaskState

-- An item of the Parquet reader, with its error converted.
abbrev pub item_of : {Batch : Type 0} → Message ⊎ Batch → Result Batch
item_of (inl m) = err (from_cause (parquet_error m))
item_of (inr batch) = ok batch

-- What ends the stream of a task that panicked.
abbrev pub task_failed : {Batch : Type 0} → Str → Result Batch
task_failed m = fail (lit "Parquet row group task failed: " ∷ txt m ∷ [])

module _ {Batch : Type 0} (memory_size : Batch → ℕ) where
  -- What the reader has still to yield, the task, its budget, the queue with the permits of its batches, and what
  -- the stream has yielded.
  pub record RowGroup : Type 0 where
    pub reading : List (Message ⊎ Batch)
    pub task : TaskState
    pub budget : ReadAheadBudget
    pub queued : List (Result (Batch × ℕ))
    pub yielded : List (Result Batch)
    pub ended : Bool

  unfoldable pub spawn_row_group : List (Message ⊎ Batch) → ℕ → RowGroup
  unfolding new_budget
  spawn_row_group reader read_ahead_bytes = record {
    reading = reader;
    task = running;
    budget = new_budget read_ahead_bytes;
    queued = [];
    yielded = [];
    ended = false;
  }

  abbrev pub send_reserved :
      RowGroup → List (Message ⊎ Batch) → Batch → Option (ReadAheadBudget × ℕ) → Option RowGroup
  send_reserved s rest batch none = none
  send_reserved s rest batch (some (budget, permit)) =
      some (record s {
        reading = rest;
        budget = budget;
        queued = s.queued ++ (ok (batch, permit) ∷ []);
      })

  abbrev pub send_next : RowGroup → List (Message ⊎ Batch) → Option RowGroup
  send_next s [] = some (record s { task = returned })
  send_next s (inl m ∷ rest) =
      some (record s {
        reading = rest;
        queued = s.queued ++ (err (from_cause (parquet_error m)) ∷ []);
      })
  send_next s (inr batch ∷ rest) = send_reserved s rest batch (reserve s.budget (memory_size batch))

  abbrev pub run_task : RowGroup → TaskState → Option RowGroup
  run_task s running = send_next s s.reading
  run_task s returned = none
  run_task s (panicked m) = none

  -- One round of the task's loop, or its return; `none` while it waits for the budget and once it is over.
  unfoldable pub produce : RowGroup → Option RowGroup
  produce s = run_task s s.task

  -- The end of the queue: the stream waits for the task's result.
  abbrev pub complete : RowGroup → TaskState → Option RowGroup
  complete s running = none
  complete s returned = some (record s { ended = true })
  complete s (panicked m) =
      some (record s { yielded = s.yielded ++ (task_failed m ∷ []); ended = true })

  abbrev pub take_next : RowGroup → List (Result (Batch × ℕ)) → Option RowGroup
  take_next s [] = complete s s.task
  take_next s (err e ∷ rest) =
      some (record s { queued = rest; yielded = s.yielded ++ (err e ∷ []) })
  take_next s (ok (batch, permit) ∷ rest) = some (record s {
    budget = release s.budget permit;
    queued = rest;
    yielded = s.yielded ++ (ok batch ∷ []);
  })

  abbrev pub take_if_open : RowGroup → Bool → Option RowGroup
  take_if_open s true = none
  take_if_open s false = take_next s s.queued

  -- One poll of the stream; `none` while it is pending and after its end.
  unfoldable pub consume : RowGroup → Option RowGroup
  consume s = take_if_open s s.ended

  -- The task runs, panics or the consumer polls, in any order. A consumer that drops the stream aborts the task: its
  -- run stops there.
  pub data Step (s : RowGroup) : RowGroup → Type 0 where
    produces : {t : RowGroup} → produce s ≡ some t → Step s t
    panics : (m : Str) → s.task ≡ running → Step s (record s { task = panicked m })
    consumes : {t : RowGroup} → consume s ≡ some t → Step s t

  -- So many steps.
  pub data Steps (s : RowGroup) : ℕ → RowGroup → Type 0 where
    start : Steps s 0 s
    next : {n : ℕ} {t u : RowGroup} → Steps s n t → Step t u → Steps s (suc n) u
