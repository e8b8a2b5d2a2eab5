-- ===== src/Metrics/Examples.antt =====
-- The counters on two objects, read in between.
use duckdb_lance_conversion.Base.{◌≡◌, List, [], ◌∷◌, arith, length, sum}
use duckdb_lance_conversion.Metrics.{
  Update, object, received, run, default_metrics, snapshot, sizes, received_bytes,
}
use duckdb_lance_conversion.Metrics.Estimate.{estimate_exact}

abbrev history : List Update
history = object 100 ∷ received 40 ∷ object 50 ∷ received 110 ∷ []

estimate_exact_example :
    ((snapshot (run (length (sizes history)) default_metrics history)).total_bytes
      ≡ sum (sizes history))
    × ((snapshot (run (length (sizes history)) default_metrics history)).bytes_read
        ≡ sum (received_bytes history))
estimate_exact_example =
    estimate_exact history (omega arith) (omega arith) (omega arith) (omega arith)
