-- ===== src/LanceWriter.antt =====
-- rust/src/sink/lance/fragment.rs, rust/src/sink/lance/dataset.rs and rust/src/sink/lance.rs: one dataset
-- write with its fragment writers, as a state machine. A step is one awaited call; the steps of the
-- writers of one dataset interleave in any order.
pub mod Merge
mod Lifecycle
mod Examples
use duckdb_lance_conversion.Base.{
  ℕ, zero, suc, ◌+◌, ◌≡◌, Bool, true, false, Option, none, some, List, [], ◌∷◌, ◌++◌, is_empty,
  if◌then◌else◌, wrapping_add,
}
use duckdb_lance_conversion.Error.{
  Error, Result, ok, err, ◌>>=◌, ◌>>◌, fail, map_ok, lit, context, Message, from_cause, join_error,
}

-- What a write operation of the crate `lance` holds, as far as the merge looks: the kind and the
-- fragments. The fields beside the fragments of an overwrite are those of the first transaction.
pub data Operation (Fragment : Type 0) : Type 0 where
  append : List Fragment → Operation Fragment
  overwrite : List Fragment → Operation Fragment
  other : ℕ → Operation Fragment

abbrev pub fragments_of : {Fragment : Type 0} → Operation Fragment → List Fragment
fragments_of (append fs) = fs
fragments_of (overwrite fs) = fs
fragments_of (other n) = []

abbrev incompatible : Message
incompatible = lit "Lance fragment writers produced incompatible transactions" ∷ []

module _ {Fragment : Type 0} where
  unfoldable pub merge_operation :
      Operation Fragment → Operation Fragment → Result (Operation Fragment)
  merge_operation (append fs) (append more) = ok (append (fs ++ more))
  merge_operation (overwrite fs) (overwrite more) = ok (overwrite (fs ++ more))
  merge_operation merged transaction = fail incompatible

  -- The loop over the transactions behind the first.
  unfoldable pub merge_rest :
      Operation Fragment → List (Operation Fragment) → Result (Operation Fragment)
  merge_rest merged [] = ok merged
  merge_rest merged (t ∷ ts) = do merged' ← merge_operation merged t; merge_rest merged' ts

  unfoldable pub merge_transactions : List (Operation Fragment) → Result (Operation Fragment)
  merge_transactions [] = fail (lit "no Lance transaction to commit" ∷ [])
  merge_transactions (t ∷ ts) = merge_rest t ts

-- What the channel delivers to the worker: messages, then the closed end.
pub data WriterMessage (Batch : Type 0) : Type 0 where
  batch_message : Batch → WriterMessage Batch
  finish_message : WriterMessage Batch

-- `batch_stream`: the items that the worker reads. A channel that closes before `Finish` ends the stream
-- with an error, so that an aborted conversion is not taken for a finished one.
unfoldable pub batch_stream : {Batch : Type 0} → List (WriterMessage Batch) → List (Result Batch)
batch_stream [] = fail (lit "conversion aborted before finish" ∷ []) ∷ []
batch_stream (batch_message b ∷ ms) = ok b ∷ batch_stream ms
batch_stream (finish_message ∷ ms) = []

-- `SinkState`. The worker's handle is its result, which the environment decides when it is joined.
pub data SinkState : Type 0 where
  open_state closing finished failed : SinkState

-- What joining a worker returns: its own result, or the task's failure.
pub data Joined (Fragment : Type 0) : Type 0 where
  returned : Result (Operation Fragment) → Joined Fragment
  crashed : Message → Joined Fragment

unfoldable pub close_input : SinkState → SinkState
close_input open_state = closing
close_input closing = closing
close_input finished = finished
close_input failed = failed

abbrev already_closed : Message
already_closed = lit "writer is already finished or failed" ∷ []

-- The state that every fragment writer of one dataset write shares.
pub record DatasetWrite (Fragment : Type 0) : Type 0 where
  pub rows_written : ℕ
  pub transactions : List (Operation Fragment)

module _ {Fragment : Type 0} where
  -- The closure of `inspect_ok` in `write_fragments`: the rows of one batch that a worker takes.
  unfoldable pub count_batch : DatasetWrite Fragment → ℕ → DatasetWrite Fragment
  count_batch w rows = record w { rows_written = wrapping_add w.rows_written rows }

  abbrev joined_result : Joined Fragment → Result (Operation Fragment)
  joined_result (returned r) = r
  joined_result (crashed m) =
      context (err (from_cause (join_error m))) (lit "Lance writer task failed" ∷ [])

  unfoldable pub join_worker : SinkState → Joined Fragment → SinkState × Result (Operation Fragment)
  join_worker closing j = (failed, joined_result j)
  join_worker open_state j = (open_state, fail (lit "writer is closed" ∷ []))
  join_worker finished j = (finished, fail (lit "writer is closed" ∷ []))
  join_worker failed j = (failed, fail (lit "writer is closed" ∷ []))

  -- `abort`: the worker is joined only from `Closing`.
  unfoldable pub abort : SinkState → Joined Fragment → SinkState
  unfolding close_input join_worker
  abort s j = (join_worker (close_input s) j).0

  -- The worker stopped before it took a message: its error, or the given one.
  abbrev stopped : {A : Type 0} → Result (Operation Fragment) → Message → Result A
  stopped (ok t) m = fail m
  stopped (err e) m = err e

  -- `write_batch`: whether the batch has the schema of the write, whether the channel takes it, and
  -- what joining the worker would return.
  unfoldable pub write_batch :
      SinkState → Bool → Bool → Joined Fragment → SinkState × Result (Unit {0})
  write_batch open_state false sent j =
      (abort open_state j, fail (lit "batch schema does not match the conversion schema" ∷ []))
  write_batch open_state true true j = (open_state, ok tt)
  write_batch open_state true false j =
      let (s, r) = join_worker (close_input open_state) j in
      (s, stopped r (lit "Lance writer stopped before accepting a batch" ∷ []))
  write_batch closing same sent j = (closing, fail already_closed)
  write_batch finished same sent j = (finished, fail already_closed)
  write_batch failed same sent j = (failed, fail already_closed)

  unfoldable pub add_transaction :
      DatasetWrite Fragment → Operation Fragment → DatasetWrite Fragment
  add_transaction w t = record w { transactions = w.transactions ++ (t ∷ []) }

  -- The end of `finish`, once the worker is joined.
  unfoldable pub finish_joined :
      DatasetWrite Fragment
      → Bool
      → SinkState × Result (Operation Fragment)
      → DatasetWrite Fragment × SinkState × Result (Unit {0})
  unfolding add_transaction
  finish_joined w sent (s, err e) = (w, s, err e)
  finish_joined w false (s, ok t) = (w, s, fail (lit "Lance writer stopped before finish" ∷ []))
  finish_joined w true (s, ok t) = (add_transaction w t, finished, ok tt)

  unfoldable pub finish :
      DatasetWrite Fragment
      → SinkState
      → Bool
      → Joined Fragment
      → DatasetWrite Fragment × SinkState × Result (Unit {0})
  unfolding finish_joined join_worker close_input
  finish w open_state sent j = finish_joined w sent (join_worker (close_input open_state) j)
  finish w closing sent j = (w, closing, fail already_closed)
  finish w finished sent j = (w, finished, fail already_closed)
  finish w failed sent j = (w, failed, fail already_closed)

  -- The transactions that `commit` takes; an empty input still commits a version.
  abbrev pub or_empty :
      List (Operation Fragment) → Result (Operation Fragment) → Result (List (Operation Fragment))
  or_empty [] empty = map_ok (λ t. t ∷ []) empty
  or_empty (t ∷ ts) empty = ok (t ∷ ts)

  -- `DatasetWrite::commit` up to the commit itself: `empty` is what writing an empty stream returns.
  unfoldable pub commit_transaction :
      DatasetWrite Fragment
      → Result (Operation Fragment)
      → DatasetWrite Fragment × Result (Operation Fragment)
  unfolding merge_transactions
  commit_transaction w empty = (
    record w { transactions = [] },
    or_empty w.transactions empty >>= (λ ts. merge_transactions ts),
  )
