-- ===== src/LanceWriter/Lifecycle.antt =====
-- The fragment writers of one dataset write, under any interleaving of their calls.
use duckdb_lance_conversion.Base.{
  All, ℕ, zero, suc, ◌+◌, ◌≡◌, ◌≢◌, ◌⊎◌, ◌↔◌, refl, sym, ap, subst, Bool, true, false, none, some,
  List, [], ◌∷◌, ◌++◌, length, length-append, get_elem?, set, inl, inr, arith, Option-cases,
}
use duckdb_lance_conversion.Error.{ok, err, IsOk, context}
use duckdb_lance_conversion.LanceWriter.{
  Operation, SinkState, open_state, closing, finished, failed, Joined, returned, crashed,
  DatasetWrite, write_batch, finish, abort, add_transaction, join_worker, close_input, count_batch,
  WriterMessage, batch_message, finish_message, batch_stream,
}

abbrev pub one_if_finished : SinkState → ℕ
one_if_finished finished = 1
one_if_finished open_state = 0
one_if_finished closing = 0
one_if_finished failed = 0

abbrev pub count_finished : List SinkState → ℕ
count_finished [] = 0
count_finished (s ∷ ss) = one_if_finished s + count_finished ss

count-append :
    (xs ys : List SinkState) → count_finished (xs ++ ys) ≡ count_finished xs + count_finished ys
count-append [] ys = omega arith
count-append (x ∷ xs) ys = omega (arith, count-append xs ys)

count-set :
    (xs : List SinkState) (i : ℕ) (x y : SinkState)
    → get_elem? xs i ≡ some x
    → count_finished (set xs i y) + one_if_finished x ≡ count_finished xs + one_if_finished y
count-set [] i x y e = cc
count-set (z ∷ zs) zero x y e = let same : z ≡ x = cc in rw same (omega arith)
count-set (z ∷ zs) (suc i) x y e = omega (arith, count-set zs i x y e)

-- The calls of the extension's threads, and a worker that takes a batch of so many rows from its stream.
pub data Call (Fragment : Type 0) : Type 0 where
  spawns : Call Fragment
  counts : ℕ → Call Fragment
  writes : ℕ → Bool → Bool → Joined Fragment → Call Fragment
  finishes : ℕ → Bool → Joined Fragment → Call Fragment
  aborts : ℕ → Joined Fragment → Call Fragment

pub record Writers (Fragment : Type 0) : Type 0 where
  pub write : DatasetWrite Fragment
  pub sinks : List SinkState

module _ {Fragment : Type 0} where
  -- An open writer whose channel took the last message and whose worker returned a transaction.
  abbrev pub CanFinish : SinkState → Bool → Joined Fragment → Type 0
  CanFinish s sent j =
      (s ≡ open_state) × (sent ≡ true) × ((t : Operation Fragment) × (j ≡ returned (ok t)))

  -- `finish` succeeds exactly on an open writer whose channel took the last message and whose worker
  -- returned a transaction; it then adds that transaction behind the others and closes the writer. In every
  -- other case it fails, the transactions are as before, and the writer is not finished unless it was.
  pub finish-branches :
      (w : DatasetWrite Fragment) (s : SinkState) (sent : Bool) (j : Joined Fragment)
      → ((t : Operation Fragment) × (s ≡ open_state)
          × (sent ≡ true)
          × (j ≡ returned (ok t))
          × (finish w s sent j ≡ (add_transaction w t, finished, ok tt)))
        ⊎ ((¬ CanFinish s sent j)
            × (¬ IsOk (finish w s sent j).2)
            × ((finish w s sent j).0 ≡ w)
            × ((s ≡ finished) ⊎ ((finish w s sent j).1 ≢ finished)))
  unfolding finish context
  finish-branches w open_state true (returned (ok t)) = inl (t, refl, refl, refl, refl)
  finish-branches w open_state false (returned (ok t)) =
      inr (λ c. cc (c.0, c.1, c.2.1), λ o. o, refl, inr (λ e. cc))
  finish-branches w open_state sent (returned (err x)) =
      inr (λ c. cc (c.0, c.1, c.2.1), λ o. o, refl, inr (λ e. cc))
  finish-branches w open_state sent (crashed m) =
      inr (λ c. cc (c.0, c.1, c.2.1), λ o. o, refl, inr (λ e. cc))
  finish-branches w closing sent j = inr (λ c. cc (c.0, c.1, c.2.1), λ o. o, refl, inr (λ e. cc))
  finish-branches w finished sent j = inr (λ c. cc (c.0, c.1, c.2.1), λ o. o, refl, inl refl)
  finish-branches w failed sent j = inr (λ c. cc (c.0, c.1, c.2.1), λ o. o, refl, inr (λ e. cc))

  abbrev at_sink : Writers Fragment → ℕ → (SinkState → Writers Fragment) → Writers Fragment
  at_sink s i f = elim (get_elem? s.sinks i) [ none ↦ s | some sink ↦ f sink ]

  pub step : Writers Fragment → Call Fragment → Writers Fragment
  step s spawns = record s { sinks = s.sinks ++ (open_state ∷ []) }
  step s (counts rows) = record s { write = count_batch s.write rows }
  step s (writes i same sent j) =
      at_sink s i λ sink. record s { sinks = set s.sinks i (write_batch sink same sent j).0 }
  step s (finishes i sent j) = at_sink s i λ sink. record s {
    write = (finish s.write sink sent j).0;
    sinks = set s.sinks i (finish s.write sink sent j).1;
  }
  step s (aborts i j) = at_sink s i λ sink. record s { sinks = set s.sinks i (abort sink j) }

  pub run : Writers Fragment → List (Call Fragment) → Writers Fragment
  run s [] = s
  run s (c ∷ cs) = run (step s c) cs

  write_batch-finished :
      (s : SinkState) (same sent : Bool) (j : Joined Fragment)
      → one_if_finished (write_batch s same sent j).0 ≡ one_if_finished s
  unfolding write_batch abort join_worker close_input
  write_batch-finished open_state true true j = refl
  write_batch-finished open_state true false j = refl
  write_batch-finished open_state false sent j = refl
  write_batch-finished closing same sent j = refl
  write_batch-finished finished same sent j = refl
  write_batch-finished failed same sent j = refl

  abort-finished :
      (s : SinkState) (j : Joined Fragment) → one_if_finished (abort s j) ≡ one_if_finished s
  unfolding abort
  abort-finished open_state j = refl
  abort-finished closing j = refl
  abort-finished finished j = refl
  abort-finished failed j = refl

  finish-finished :
      (w : DatasetWrite Fragment) (s : SinkState) (sent : Bool) (j : Joined Fragment)
      → length (finish w s sent j).0.transactions + one_if_finished s
        ≡ length w.transactions + one_if_finished (finish w s sent j).1
  unfolding finish context
  finish-finished w open_state true (returned (ok t)) =
      omega (arith, length-append w.transactions (t ∷ []))
  finish-finished w open_state false (returned (ok t)) = refl
  finish-finished w open_state sent (returned (err x)) = refl
  finish-finished w open_state sent (crashed m) = refl
  finish-finished w closing sent j = refl
  finish-finished w finished sent j = refl
  finish-finished w failed sent j = refl

  -- There are as many transactions as finished writers.
  pub IsCounted : Writers Fragment → Type 0
  IsCounted s = length s.write.transactions ≡ count_finished s.sinks

  -- A call on one writer keeps what holds before it and after it on a writer that there is.
  at_sink-keeps :
      (s : Writers Fragment) (i : ℕ) (f : SinkState → Writers Fragment)
      → IsCounted s
      → ((sink : SinkState) → get_elem? s.sinks i ≡ some sink → IsCounted (f sink))
      → IsCounted (at_sink s i f)
  at_sink-keeps s i f h each = elim (Option-cases (get_elem? s.sinks i)) [
    | inl e ↦ subst IsCounted (sym (ap (λ o. elim o [ none ↦ s | some sink ↦ f sink ]) e)) h
    | inr (x, e) ↦
        subst IsCounted (sym (ap (λ o. elim o [ none ↦ s | some sink ↦ f sink ]) e)) (each x e)
  ]

  step-IsCounted : (s : Writers Fragment) (c : Call Fragment) → IsCounted s → IsCounted (step s c)
  unfolding step IsCounted count_batch
  step-IsCounted s spawns h = omega (arith, count-append s.sinks (open_state ∷ []))
  step-IsCounted s (counts rows) h = h
  step-IsCounted s (writes i same sent j) h = at_sink-keeps s i _ h λ x e. omega (
    arith,
    count-set s.sinks i x (write_batch x same sent j).0 e,
    write_batch-finished x same sent j,
  )
  step-IsCounted s (finishes i sent j) h = at_sink-keeps s i _ h λ x e.
      omega (
        arith,
        count-set s.sinks i x (finish s.write x sent j).1 e,
        finish-finished s.write x sent j,
      )
  step-IsCounted s (aborts i j) h =
      at_sink-keeps s i _ h
        λ x e. omega (arith, count-set s.sinks i x (abort x j) e, abort-finished x j)

  abbrev pub start : Writers Fragment
  start = record { write = record { rows_written = 0; transactions = [] }; sinks = [] }

  run-IsCounted :
      (s : Writers Fragment) (cs : List (Call Fragment)) → IsCounted s → IsCounted (run s cs)
  unfolding run
  run-IsCounted s [] h = h
  run-IsCounted s (c ∷ cs) h = run-IsCounted (step s c) cs (step-IsCounted s c h)

  -- However the calls of any number of fragment writers interleave, failing or not and repeated or not,
  -- the transactions to commit are as many as the writers that finished.
  pub transactions-IsCounted : (cs : List (Call Fragment)) → IsCounted (run start cs)
  unfolding IsCounted
  transactions-IsCounted cs = run-IsCounted start cs refl

-- `Finish` was sent before the channel closed.
pub Finishes : {Batch : Type 0} → List (WriterMessage Batch) → Type 0
Finishes [] = ⊥
Finishes (batch_message b ∷ ms) = Finishes ms
Finishes (finish_message ∷ ms) = Unit {0}

-- The worker sees no error exactly if `Finish` was sent before the channel closed.
batch_stream_iff :
    {Batch : Type 0} (ms : List (WriterMessage Batch)) → All IsOk (batch_stream ms) ↔ Finishes ms
unfolding batch_stream Finishes
batch_stream_iff [] = (λ h. h.0, λ h. absurd h)
batch_stream_iff (batch_message b ∷ ms) =
    let (f, g) = batch_stream_iff ms in (λ h. f h.1, λ h. (tt, g h))
batch_stream_iff (finish_message ∷ ms) = (λ h. tt, λ h. tt)
