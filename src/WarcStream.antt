-- ===== src/WarcStream.antt =====
-- rust/src/source/warc.rs: the task that parses a WARC input into batches and sends them.
mod Bodies
mod Chunks
mod Examples
use duckdb_lance_conversion.Base.{
  ℕ, zero, suc, ◌+◌, ◌≡◌, Bool, true, false, ◌&&◌, ◌||◌, Option, none, some, List, [], ◌∷◌, ◌++◌,
  Str, length, u32_max, ltb, leb, ◌==◌, if◌then◌else◌,
}
use duckdb_lance_conversion.Arrow.{Field}
use duckdb_lance_conversion.Error.{
  Error, Result, ok, err, fail, lit, error_message, Cause, from_cause,
}
use duckdb_lance_conversion.WarcSchema.{body_column_index}
use duckdb_lance_conversion.WarcBatch.{
  WarcRecord, WarcBatchBuilder, ProjectedColumnBuilder, new_batch, would_exceed_body_limit,
  take_empty, append_record, is_some, position, max_batch_body_bytes,
}

-- What the consumer receives: the columns of a finished batch.
pub record RecordBatch : Type 0 where
  pub schema : List Field
  pub columns : List ProjectedColumnBuilder

-- The task's state: the batches that the channel took, how many more it takes before the consumer
-- drops the stream, and the batch being built.
pub record StreamState : Type 0 where
  pub sent : List RecordBatch
  pub accepts : ℕ
  pub batch : WarcBatchBuilder

-- How the task ended. `dropped` is the return after a send that found the consumer gone.
pub data Ending : Type 0 where
  finished dropped : Ending
  failed : Error → Ending

-- A step of the task, or its end with the batches that were sent.
pub data Flow {ℓ} (A : Type ℓ) : Type ℓ where
  next : A → Flow A
  stop : List RecordBatch → Ending → Flow A

infixl 5 ◌>>=◌
abbrev pub ◌>>=◌ {ℓ κ} : {A : Type ℓ} {B : Type κ} → Flow A → (A → Flow B) → Flow B
next a >>= f = f a
stop sent e >>= f = stop sent e

-- `?` on a result.
abbrev lift {ℓ} : {A : Type ℓ} → List RecordBatch → Result A → Flow A
lift sent (ok a) = next a
lift sent (err e) = stop sent (failed e)

-- The body's length, where the body is read.
unfoldable pub announced_length : Bool → WarcRecord → Result ℕ
announced_length false r = ok 0
announced_length true r =
    if ltb u32_max r.content_length
    then fail (lit "WARC body exceeds Arrow BinaryView limit" ∷ [])
    else ok r.content_length

-- `refuses` is Arrow's check of finished columns against the schema, in `RecordBatch::try_new`.
module _ (refuses : List Field → List ProjectedColumnBuilder → Option Cause) where
  unfoldable pub finish : WarcBatchBuilder → Result RecordBatch
  finish b = elim (refuses b.schema b.columns) [
    | none ↦ ok (record { schema = b.schema; columns = b.columns })
    | some cause ↦ err (from_cause cause)
  ]

  -- A send counts while the consumer takes batches.
  unfoldable pub send_batch : List RecordBatch → ℕ → WarcBatchBuilder → Flow (List RecordBatch × ℕ)
  send_batch sent accepts b = do
    batch ← lift sent (finish b)
    elim accepts [ zero ↦ stop sent dropped | suc n ↦ next (sent ++ (batch ∷ []), n) ]

  -- `send_batch(batch.take_empty(..)?, ..)`.
  unfoldable pub flush : StreamState → Flow StreamState
  flush st = do
    parts ← lift st.sent (take_empty st.batch)
    sends ← send_batch st.sent st.accepts parts.0
    next (record { sent = sends.0; accepts = sends.1; batch = parts.1 })

  unfoldable pub make_room : StreamState → ℕ → Flow StreamState
  make_room st body_len =
      if ltb 0 st.batch.len && would_exceed_body_limit st.batch body_len then flush st else next st

  module _ (batch_size : ℕ) (include_body : Bool) where
    unfoldable pub flush_full : StreamState → Flow StreamState
    flush_full st =
        if st.batch.len == batch_size || leb max_batch_body_bytes st.batch.body_bytes
        then flush st
        else next st

    -- One round of the loop on a parsed record.
    unfoldable pub stream_record : StreamState → WarcRecord → Flow StreamState
    stream_record st r = do
      body_len ← lift st.sent (announced_length include_body r)
      roomy ← make_room st body_len
      batch ← lift roomy.sent (append_record include_body roomy.batch r)
      flush_full (record roomy { batch = batch })

    -- The input as the parser yields it; `none` is a record that it cannot parse.
    unfoldable pub stream_loop : StreamState → List (Option WarcRecord) → List RecordBatch × Ending
    stream_loop st [] =
        if ltb 0 st.batch.len
        then elim (send_batch st.sent st.accepts st.batch) [
          | next sends ↦ (sends.0, finished)
          | stop sent e ↦ (sent, e)
        ]
        else (st.sent, finished)
    stream_loop st (none ∷ records) =
        (st.sent, failed (error_message (lit "WARC parse error" ∷ [])))
    stream_loop st (some r ∷ records) = elim (stream_record st r) [
      | next st' ↦ stream_loop st' records
      | stop sent e ↦ (sent, e)
    ]

  unfoldable pub stream_records :
      ℕ → List ℕ → List Field → ℕ → List (Option WarcRecord) → List RecordBatch × Ending
  stream_records batch_size projection schema accepts records = elim (new_batch projection schema) [
    | ok batch ↦
        stream_loop batch_size (is_some (position body_column_index projection))
          (record { sent = []; accepts = accepts; batch = batch }) records
    | err e ↦ ([], failed e)
  ]
