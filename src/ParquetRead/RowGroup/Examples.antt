-- ===== src/ParquetRead/RowGroup/Examples.antt =====
-- A row group of a batch and an error, with batches as their sizes.
use duckdb_lance_conversion.Base.{
  ℕ, ◌*◌, ◌+◌, ◌≤◌, refl, true, false, ◌⊎◌, inl, inr, List, [], ◌∷◌, map, length,
}
use duckdb_lance_conversion.Error.{ok, err, Message, lit, from_cause, parquet_error}
use duckdb_lance_conversion.ParquetRead.{ReadAheadBudget, new_budget, reserve, release}
use duckdb_lance_conversion.ParquetRead.RowGroup.{
  running, returned, item_of, RowGroup, spawn_row_group, produce, consume, produces, consumes,
  Steps, start, next,
}
use duckdb_lance_conversion.ParquetRead.RowGroup.Progress.{IsSome, row_group_live}
use duckdb_lance_conversion.ParquetRead.RowGroup.Length.{row_group_terminates}
use duckdb_lance_conversion.ParquetRead.RowGroup.Delivery.{Complete, row_group_delivers}

abbrev size : ℕ → ℕ
size n = n

abbrev broken : Message
broken = lit "page header" ∷ []

abbrev items : List (Message ⊎ ℕ)
items = inr 70 ∷ inl broken ∷ []

abbrev all_free : ReadAheadBudget
all_free = record { available = 100; capacity = 100 }

-- The batch waits to be taken.
abbrev queued_one : RowGroup size
queued_one = record {
  reading = inl broken ∷ [];
  task = running;
  budget = record { available = 30; capacity = 100 };
  queued = ok (70, 70) ∷ [];
  yielded = [];
  ended = false;
}

abbrev finished : RowGroup size
finished = record {
  reading = [];
  task = returned;
  budget = all_free;
  queued = [];
  yielded = ok 70 ∷ err (from_cause (parquet_error broken)) ∷ [];
  ended = true;
}

one_step : Steps size (spawn_row_group size items 100) 1 queued_one
unfolding spawn_row_group produce reserve new_budget
one_step = next start (produces refl)

all_steps : Steps size (spawn_row_group size items 100) 6 finished
unfolding consume produce release
all_steps =
    next
      (next (next (next (next one_step (consumes refl)) (produces refl)) (produces refl))
        (consumes refl))
      (consumes refl)

row_group_live_example : IsSome (produce size queued_one) ⊎ IsSome (consume size queued_one)
row_group_live_example = row_group_live size items 100 1 queued_one one_step refl

row_group_terminates_example : 6 ≤ 2 * length items + 2
row_group_terminates_example = row_group_terminates size items 100 6 finished all_steps

row_group_delivers_example : Complete size (map item_of items) returned finished.yielded
row_group_delivers_example = row_group_delivers size items 100 6 finished all_steps refl
