-- ===== src/WarcIndex/Balance.antt =====
-- The size of the planned reads.
use native.Mathlib.Nat.{le-div_iff_mul-le, zero-add}
use duckdb_lance_conversion.Base.{ℕ, ◌+◌, ◌-◌, ◌≤◌, ◌<◌, ◌≡◌, List, [], ◌∷◌, All, arith, div_ceil}
use duckdb_lance_conversion.Error.{ok, Yields, Yields-bind, Yields-ok}
use duckdb_lance_conversion.WarcIndex.{
  Range, push_entry, merge_entries, sort_by_start, build_index_work_units, total_length,
}
use duckdb_lance_conversion.WarcIndex.Plan.{All-sort, All-reverse}
use duckdb_lance_conversion.WarcIndex.Order.{bytes_of, total_length-eq}

-- A unit stays below the target plus the longest entry.
abbrev IsShort : ℕ → Range → Type 0
IsShort n r = (r.start < r.end) × (r.end - r.start < n)

div_ceil-pos : (a b : ℕ) → 0 < a → 0 < b → 0 < div_ceil a b
unfolding div_ceil
div_ceil-pos a b p q = (le-div_iff_mul-le q).1 (omega arith)

module _ (longest : ℕ) where
  abbrev IsEntry : Range → Type 0
  IsEntry r = (r.start < r.end) × (r.end - r.start ≤ longest)

  push_entry-IsShort :
      (target : ℕ) (units : List Range) (e : Range)
      → 0 < target
      → All (IsShort (target + longest)) units
      → IsEntry e
      → Yields (All (IsShort (target + longest))) (push_entry target units e)
  unfolding push_entry
  push_entry-IsShort target [] e t h p = ground arith
  push_entry-IsShort target (u ∷ us) e t h p = ground arith

  merge_entries-IsShort :
      (target : ℕ) (units es : List Range)
      → 0 < target
      → All (IsShort (target + longest)) units
      → All IsEntry es
      → Yields (All (IsShort (target + longest))) (merge_entries target units es)
  unfolding merge_entries
  merge_entries-IsShort target units [] t h p = h
  merge_entries-IsShort target units (e ∷ es) t h p =
      Yields-bind _ (All (IsShort (target + longest))) (push_entry target units e) _
        (push_entry-IsShort target units e t h p.0)
        λ us q. merge_entries-IsShort target us es t q p.1

  All-length :
      (target : ℕ) (us : List Range)
      → All (IsShort (target + longest)) us
      → All (λ u. u.end - u.start < target + longest) us
  All-length target [] h = tt
  All-length target (u ∷ us) h = (h.0.1, All-length target us h.1)

  -- With a positive parallelism, no planned read is as long as the target, which is the parallelism's
  -- share of the indexed bytes rounded up, plus the longest entry. There is an entry, and no entry is
  -- empty or has more than `longest` bytes.
  pub work_units_short :
      (e : Range) (es : List Range) (parallelism : ℕ) (units : List Range)
      → 0 < parallelism
      → All IsEntry (e ∷ es)
      → build_index_work_units (e ∷ es) parallelism ≡ ok units
      → All (λ u. u.end - u.start < div_ceil (bytes_of (e ∷ es)) parallelism + longest) units
  unfolding build_index_work_units
  work_units_short e es parallelism units p h done =
      let share = div_ceil (bytes_of (e ∷ es)) parallelism in
      let sorted = sort_by_start (e ∷ es) in
      Yields-ok (All (λ u. u.end - u.start < share + longest))
        (build_index_work_units (e ∷ es) parallelism) units done
        (Yields-bind (λ total. total ≡ bytes_of (e ∷ es))
          (All (λ u. u.end - u.start < share + longest)) (total_length 0 (e ∷ es)) _
          (rw (← zero-add (bytes_of (e ∷ es))) (total_length-eq 0 (e ∷ es)))
          λ total same. rw same (
            Yields-bind (All (IsShort (share + longest)))
              (All (λ u. u.end - u.start < share + longest)) (merge_entries share [] sorted) _
              (merge_entries-IsShort share [] sorted
                (div_ceil-pos (bytes_of (e ∷ es)) parallelism (omega arith) p) tt
                (All-sort IsEntry (e ∷ es) h))
              λ us q.
                All-reverse (λ u. u.end - u.start < share + longest) us (All-length share us q)))
