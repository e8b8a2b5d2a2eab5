-- ===== src/LanceWriter/Examples.antt =====
-- Two fragment writers of one dataset write.
use duckdb_lance_conversion.Base.{ℕ, ◌≡◌, ◌≢◌, ◌⊎◌, ◌↔◌, true, List, [], ◌∷◌, ◌++◌, All}
use duckdb_lance_conversion.Error.{ok, IsOk}
use duckdb_lance_conversion.LanceWriter.{
  Operation, append, fragments_of, merge_transactions, WriterMessage, batch_message, finish_message,
  open_state, finished, returned, DatasetWrite, finish, add_transaction,
}
use duckdb_lance_conversion.LanceWriter.Merge.{
  SameKind, all_fragments, with_fragments, merge_transactions_iff,
}
use duckdb_lance_conversion.LanceWriter.Lifecycle.{
  Call, CanFinish, spawns, counts, writes, finishes, aborts, IsCounted, run, start, finish-branches,
  transactions-IsCounted,
}

abbrev one : Operation ℕ
one = append (1 ∷ [])

abbrev two : Operation ℕ
two = append (2 ∷ 3 ∷ [])

merge_transactions_iff_example :
    (merge_transactions (one ∷ two ∷ []) ≡ ok (append (1 ∷ 2 ∷ 3 ∷ []))) ↔ (
      All (SameKind one) (two ∷ [])
      × (append (1 ∷ 2 ∷ 3 ∷ [])
          ≡ with_fragments one (fragments_of one ++ all_fragments (two ∷ []))))
merge_transactions_iff_example = merge_transactions_iff one (two ∷ []) (append (1 ∷ 2 ∷ 3 ∷ []))

abbrev nothing_written : DatasetWrite ℕ
nothing_written = record { rows_written = 0; transactions = [] }

finish-branches_example :
    ((t : Operation ℕ) × (open_state ≡ open_state)
      × (true ≡ true)
      × (returned (ok one) ≡ returned (ok t))
      × (finish nothing_written open_state true (returned (ok one))
          ≡ (add_transaction nothing_written t, finished, ok tt)))
    ⊎ ((¬ CanFinish open_state true (returned (ok one)))
        × (¬ IsOk (finish nothing_written open_state true (returned (ok one))).2)
        × ((finish nothing_written open_state true (returned (ok one))).0 ≡ nothing_written)
        × ((open_state ≡ finished)
            ⊎ ((finish nothing_written open_state true (returned (ok one))).1 ≢ finished)))
finish-branches_example = finish-branches nothing_written open_state true (returned (ok one))

abbrev calls : List (Call ℕ)
calls =
    spawns
    ∷ spawns
    ∷ writes 0 true true (returned (ok one))
    ∷ counts 7
    ∷ finishes 1 true (returned (ok two))
    ∷ finishes 1 true (returned (ok two))
    ∷ aborts 0 (returned (ok one))
    ∷ []

transactions-IsCounted_example : IsCounted (run start calls)
transactions-IsCounted_example = transactions-IsCounted calls

abbrev messages : List (WriterMessage ℕ)
messages = batch_message 5 ∷ finish_message ∷ []
