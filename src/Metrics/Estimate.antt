-- ===== src/Metrics/Estimate.antt =====
-- The progress totals of a whole scan, whatever the interleaving of its reads.
use native.Mathlib.Nat.{mul-div_cancel, div-zero, zero-add}
use duckdb_lance_conversion.Base.{
  ℕ, ◌+◌, ◌*◌, ◌/◌, ◌≤◌, ◌<◌, ◌≡◌, refl, List, [], ◌∷◌, arith, length, sum, min, u64_max,
  saturating_add-eq, wrapping_add,
}
use duckdb_lance_conversion.Metrics.{
  ReadMetrics, Update, object, received, add_object, add_bytes_read, apply, run, sizes,
  received_bytes, default_metrics, snapshot,
}

wrapping_add-eq : (a b : ℕ) → a + b ≤ u64_max → wrapping_add a b ≡ a + b
unfolding wrapping_add
wrapping_add-eq a b h = omega arith

module _ (objects : ℕ) (m : ReadMetrics) where
  add_object_counts :
      (size : ℕ)
      → m.opened_count + 1 ≤ u64_max
      → m.opened_size + size ≤ u64_max
      → ((add_object m size objects).opened_count ≡ m.opened_count + 1)
        × ((add_object m size objects).opened_size ≡ m.opened_size + size)
        × ((add_object m size objects).bytes_read ≡ m.bytes_read)
  unfolding add_object
  add_object_counts size c s =
      (wrapping_add-eq m.opened_count 1 c, saturating_add-eq m.opened_size size s, refl)

  add_bytes_read_counts :
      (bytes : ℕ)
      → m.bytes_read + bytes ≤ u64_max
      → ((add_bytes_read m bytes).opened_count ≡ m.opened_count)
        × ((add_bytes_read m bytes).opened_size ≡ m.opened_size)
        × ((add_bytes_read m bytes).bytes_read ≡ m.bytes_read + bytes)
  unfolding add_bytes_read
  add_bytes_read_counts bytes b = (refl, refl, wrapping_add-eq m.bytes_read bytes b)

-- The counters after a history, while no counter has reached its limit.
pub run_counts :
    (objects : ℕ) (m : ReadMetrics) (us : List Update)
    → m.opened_count + length (sizes us) ≤ u64_max
    → m.opened_size + sum (sizes us) ≤ u64_max
    → m.bytes_read + sum (received_bytes us) ≤ u64_max
    → ((run objects m us).opened_count ≡ m.opened_count + length (sizes us))
      × ((run objects m us).opened_size ≡ m.opened_size + sum (sizes us))
      × ((run objects m us).bytes_read ≡ m.bytes_read + sum (received_bytes us))
unfolding run
run_counts objects m [] c s b = omega arith
run_counts objects m (object size ∷ us) c s b =
    let step = add_object_counts objects m size (omega arith) (omega arith) in
    let ih =
      run_counts objects (add_object m size objects) us (omega arith) (omega arith) (omega arith) in
    omega arith
run_counts objects m (received bytes ∷ us) c s b =
    let step = add_bytes_read_counts objects m bytes (omega arith) in
    let ih =
      run_counts objects (add_bytes_read m bytes) us (omega arith) (omega arith) (omega arith) in
    omega arith

-- While nothing but `add_object` sets the total, the total is the estimate from what was opened.
pub IsEstimate : ℕ → ReadMetrics → Type 0
IsEstimate objects m = m.total_bytes ≡ min (m.opened_size * objects / m.opened_count) u64_max

apply-IsEstimate :
    (objects : ℕ) (m : ReadMetrics) (u : Update)
    → IsEstimate objects m
    → IsEstimate objects (apply objects m u)
unfolding IsEstimate add_object add_bytes_read apply
apply-IsEstimate objects m (object size) h = refl
apply-IsEstimate objects m (received bytes) h = h

run-IsEstimate :
    (objects : ℕ) (m : ReadMetrics) (us : List Update)
    → IsEstimate objects m
    → IsEstimate objects (run objects m us)
unfolding run
run-IsEstimate objects m [] h = h
run-IsEstimate objects m (u ∷ us) h =
    run-IsEstimate objects (apply objects m u) us (apply-IsEstimate objects m u h)

estimate_of_all :
    (n size : ℕ) → 0 < n → size ≤ u64_max → min ((0 + size) * n / (0 + n)) u64_max ≡ size
estimate_of_all n size p s =
    let whole : (0 + size) * n / (0 + n) ≡ size = rw (zero-add, zero-add) (mul-div_cancel size p) in
    omega arith

-- Once every one of the announced objects is opened, in whatever order the opening and the reading
-- of the objects interleave, the expected total is the sum of their sizes and the bytes read are the
-- sum of the bytes received. The counters start at zero, there is an object, and neither sum passes
-- the largest 64-bit number.
pub estimate_exact :
    (us : List Update)
    → 0 < length (sizes us)
    → length (sizes us) ≤ u64_max
    → sum (sizes us) ≤ u64_max
    → sum (received_bytes us) ≤ u64_max
    → ((snapshot (run (length (sizes us)) default_metrics us)).total_bytes ≡ sum (sizes us))
      × ((snapshot (run (length (sizes us)) default_metrics us)).bytes_read
          ≡ sum (received_bytes us))
unfolding snapshot IsEstimate
estimate_exact us p c s b =
    let counts =
      run_counts (length (sizes us)) default_metrics us (omega arith) (omega arith) (omega arith) in
    let estimate =
      run-IsEstimate (length (sizes us)) default_metrics us (omega (arith, div-zero)) in
    (
      rw (estimate, counts.0, counts.1) (estimate_of_all (length (sizes us)) (sum (sizes us)) p s),
      omega arith,
    )
