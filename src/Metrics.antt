-- ===== src/Metrics.antt =====
-- rust/src/source/metrics.rs: the counters of one source, shared by its concurrent reads. Each method
-- is one atomic step on the state; an interleaving of threads is a list of such steps.
mod Estimate
mod Examples
use duckdb_lance_conversion.Error.{Result, ok, err}
use duckdb_lance_conversion.Base.{
  ℕ, suc, ◌+◌, ◌*◌, ◌/◌, List, [], ◌∷◌, min, u64_max, saturating_add, wrapping_add,
}

-- `opened` is the count and the total size of the objects opened so far.
pub record ReadMetrics : Type 0 where
  pub bytes_read : ℕ
  pub total_bytes : ℕ
  pub opened_count : ℕ
  pub opened_size : ℕ

abbrev pub default_metrics : ReadMetrics
default_metrics = record { bytes_read = 0; total_bytes = 0; opened_count = 0; opened_size = 0 }

unfoldable pub set_total_bytes : ReadMetrics → ℕ → ReadMetrics
set_total_bytes m bytes = record m { total_bytes = bytes }

-- The product is taken in 128 bits, where it cannot overflow; the quotient is cut to 64 bits.
unfoldable pub add_object : ReadMetrics → ℕ → ℕ → ReadMetrics
unfolding set_total_bytes saturating_add
add_object m size objects =
    let count = wrapping_add m.opened_count 1 in
    let total_size = saturating_add m.opened_size size in
    set_total_bytes (record m { opened_count = count; opened_size = total_size })
      (min (total_size * objects / count) u64_max)

unfoldable pub add_bytes_read : ReadMetrics → ℕ → ReadMetrics
add_bytes_read m bytes = record m { bytes_read = wrapping_add m.bytes_read bytes }

unfoldable pub add_total_bytes : ReadMetrics → ℕ → ReadMetrics
unfolding saturating_add
add_total_bytes m bytes = record m { total_bytes = saturating_add m.total_bytes bytes }

pub record ReadMetricsSnapshot : Type 0 where
  pub bytes_read : ℕ
  pub total_bytes : ℕ

unfoldable pub snapshot : ReadMetrics → ReadMetricsSnapshot
snapshot m = record { bytes_read = m.bytes_read; total_bytes = m.total_bytes }

-- One call on the shared counters, and a history of them in the order in which they take effect.
pub data Update : Type 0 where
  object : ℕ → Update
  received : ℕ → Update

pub apply : ℕ → ReadMetrics → Update → ReadMetrics
apply objects m (object size) = add_object m size objects
apply objects m (received bytes) = add_bytes_read m bytes

pub run : ℕ → ReadMetrics → List Update → ReadMetrics
unfolding apply
run objects m [] = m
run objects m (u ∷ us) = run objects (apply objects m u) us

-- The sizes of the objects opened in a history, and the bytes received in it.
abbrev pub sizes : List Update → List ℕ
sizes [] = []
sizes (object size ∷ us) = size ∷ sizes us
sizes (received bytes ∷ us) = sizes us

abbrev pub received_bytes : List Update → List ℕ
received_bytes [] = []
received_bytes (object size ∷ us) = received_bytes us
received_bytes (received bytes ∷ us) = bytes ∷ received_bytes us

-- A fallible step that may count, and the rest that runs on its value.
abbrev pub and_then :
    {A B : Type 0}
    → ReadMetrics × Result A
    → (ReadMetrics → A → ReadMetrics × Result B)
    → ReadMetrics × Result B
and_then (m, err e) f = (m, err e)
and_then (m, ok a) f = f m a
