-- ===== src/ParquetRead/Examples.antt =====
-- A projection of two columns in the other order, and a read-ahead of two batches.
use duckdb_lance_conversion.Base.{
  ℕ, ◌≡◌, ◌<◌, ◌≤◌, ◌⊎◌, none, List, [], ◌∷◌, min, max, u32_max, sum,
}
use duckdb_lance_conversion.ParquetRead.{new_budget, reserve}
use duckdb_lance_conversion.ParquetRead.Budget.{Event, offer, take, run, read_ahead-bounded}

abbrev file_columns : List ℕ
file_columns = 10 ∷ 11 ∷ 12 ∷ []

abbrev events : List Event
events = offer 70 ∷ offer 70 ∷ take ∷ offer 500 ∷ []

read_ahead-bounded_example :
    (sum (run (record { budget = new_budget 100; queued = [] }) events).queued
      ≤ max (min 100 u32_max) 1)
    × ((0 < sum (run (record { budget = new_budget 100; queued = [] }) events).queued)
        ⊎ (¬ (
            reserve (run (record { budget = new_budget 100; queued = [] }) events).budget 9
            ≡ none)))
read_ahead-bounded_example = read_ahead-bounded 100 events 9
