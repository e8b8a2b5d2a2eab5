-- ===== src/WarcIndex/Order.antt =====
-- When a plan is made at all, and how large its reads are.
use mathlib.Core.List.{reverse}
use native.Mathlib.Nat.{add_assoc}
use duckdb_lance_conversion.Base.{
  ℕ, ◌+◌, ◌-◌, ◌≤◌, ◌<◌, ◌≡◌, refl, sym, subst, true, false, ◌↔◌, ◌&&◌, List, [], ◌∷◌, All, ltb,
  ◌==◌, Bool-cases, arith, if◌then◌else◌, inl, inr, div_ceil, u64_max, checked_add,
}
use duckdb_lance_conversion.Error.{
  ok, err, Yields, IsOk, IsOk-map, IsOk-of_map, Error, Result-cases,
}
use duckdb_lance_conversion.WarcIndex.{
  Range, push_entry, merge_entries, insert_by_start, sort_by_start, build_index_work_units,
  total_length,
}
use duckdb_lance_conversion.WarcIndex.Plan.{in_range, All-sort, IsNonempty, IsSorted, sort-IsSorted}

-- How many of the ranges hold a byte position.
abbrev pub count : List Range → ℕ → ℕ
count [] b = 0
count (r ∷ rs) b = (if in_range r b then 1 else 0) + count rs b

abbrev pub bytes_of : List Range → ℕ
bytes_of [] = 0
bytes_of (r ∷ rs) = (r.end - r.start) + bytes_of rs

count-insert :
    (r : Range) (rs : List Range) (b : ℕ) → count (insert_by_start r rs) b ≡ count (r ∷ rs) b
unfolding insert_by_start
count-insert r [] b = refl
count-insert r (x ∷ xs) b = ground (arith, count-insert r xs b)

count-sort : (rs : List Range) (b : ℕ) → count (sort_by_start rs) b ≡ count rs b
unfolding sort_by_start
count-sort [] b = refl
count-sort (r ∷ rs) b = ground (arith, count-insert r (sort_by_start rs) b, count-sort rs b)

-- The check on the total length passes exactly when the sum fits in 64 bits.
total_length_iff :
    (t : ℕ) (es : List Range) → t ≤ u64_max → IsOk (total_length t es) ↔ (t + bytes_of es ≤ u64_max)
unfolding total_length checked_add
total_length_iff t [] h = (λ _. omega arith, λ _. tt)
total_length_iff t (e ∷ es) h = elim (Bool-cases (ltb u64_max (t + (e.end - e.start)))) [
  | inl over ↦ rw over (λ o. absurd o, λ k. absurd (ground arith))
  | inr fits ↦
      let ih = total_length_iff (t + (e.end - e.start)) es (ground arith) in
      rw fits (λ o. omega (arith, ih.0 o), λ k. ih.1 (omega arith))
]

-- What the checked sum returns.
pub total_length-eq :
    (t : ℕ) (es : List Range) → Yields (λ total. total ≡ t + bytes_of es) (total_length t es)
unfolding total_length checked_add
total_length-eq t [] = omega arith
total_length-eq t (e ∷ es) = elim (Bool-cases (ltb u64_max (t + (e.end - e.start)))) [
  | inl over ↦ rw over tt
  | inr fits ↦
      rw (fits, ← add_assoc t (e.end - e.start) (bytes_of es))
        (total_length-eq (t + (e.end - e.start)) es)
]

-- Each range begins at or after the end of the one before.
abbrev Follows : ℕ → List Range → Type 0
Follows n [] = Unit {0}
Follows n (e ∷ es) = (n ≤ e.start) × Follows e.end es

abbrev last_end : List Range → ℕ
last_end [] = 0
last_end (u ∷ us) = u.end

push_entry_overlap :
    (target : ℕ) (units : List Range) (e : Range)
    → ltb e.start (last_end units) ≡ true
    → (x : Error) × (push_entry target units e ≡ err x)
unfolding push_entry
push_entry_overlap target [] e h = absurd (ground arith)
push_entry_overlap target (u ∷ us) e h = rw h (_, refl)

push_entry_follows :
    (target : ℕ) (units : List Range) (e : Range)
    → ltb e.start (last_end units) ≡ false
    → (us : List Range) × (push_entry target units e ≡ ok us) × (last_end us ≡ e.end)
unfolding push_entry
push_entry_follows target [] e h = (e ∷ [], refl, refl)
push_entry_follows target (u ∷ us) e h =
    elim (Bool-cases (e.start == u.end && ltb (u.end - u.start) target)) [
      | inl more ↦ rw (h, more) (_, refl, refl)
      | inr full ↦ rw (h, full) (_, refl, refl)
    ]

merge_entries_iff :
    (target : ℕ) (units es : List Range)
    → IsOk (merge_entries target units es) ↔ Follows (last_end units) es
unfolding merge_entries
merge_entries_iff target units [] = (λ _. tt, λ _. tt)
merge_entries_iff target units (e ∷ es) = elim (Bool-cases (ltb e.start (last_end units))) [
  | inl over ↦
      let (x, failed) = push_entry_overlap target units e over in
      rw failed (λ o. absurd o, λ f. absurd (ground (arith, f.0)))
  | inr fits ↦
      let (us, pushed, ends) = push_entry_follows target units e fits in
      let ih = merge_entries_iff target us es in
      rw pushed (
        λ o. (ground arith, subst (λ n. Follows n es) ends (ih.0 o)),
        λ f. ih.1 (subst (λ n. Follows n es) (sym ends) f.1),
      )
]

module _ (b : ℕ) where
  Follows-count :
      (n : ℕ) (es : List Range)
      → Follows n es
      → All IsNonempty es
      → (count es b ≤ 1) × (b < n → count es b ≡ 0)
  Follows-count n [] f h = (omega arith, λ _. refl)
  Follows-count n (e ∷ es) f h = let ih = Follows-count e.end es f.1 h.1 in ground arith

count-Follows :
    (e : Range) (es : List Range)
    → IsSorted (e ∷ es)
    → All IsNonempty (e ∷ es)
    → ((b : ℕ) → count (e ∷ es) b ≤ 1)
    → Follows e.end es
count-Follows e [] s h c = tt
count-Follows e (f ∷ fs) s h c =
    (ground (arith, c f.start), count-Follows f fs s.1 h.1 (λ b. ground (arith, c b)))

bytes-insert : (r : Range) (rs : List Range) → bytes_of (insert_by_start r rs) ≡ bytes_of (r ∷ rs)
unfolding insert_by_start
bytes-insert r [] = refl
bytes-insert r (x ∷ xs) = ground (arith, bytes-insert r xs)

sorted-Follows :
    (es : List Range) → IsSorted es → All IsNonempty es → ((b : ℕ) → count es b ≤ 1) → Follows 0 es
sorted-Follows [] s h c = tt
sorted-Follows (e ∷ es) s h c = (omega arith, count-Follows e es s h c)

-- The two steps of the plan succeed exactly when both do.
build_iff :
    (entries : List Range) (parallelism : ℕ)
    → IsOk (build_index_work_units entries parallelism)
      ↔ ((bytes_of entries ≤ u64_max) × Follows 0 (sort_by_start entries))
unfolding build_index_work_units
build_iff entries parallelism = elim (Result-cases (total_length 0 entries)) [
  | inl (x, failed) ↦
      let lengths = total_length_iff 0 entries (omega arith) in
      rw failed (λ o. absurd o, λ k. absurd (subst IsOk failed (lengths.1 (omega arith))))
  | inr (total, fits) ↦
      let lengths = total_length_iff 0 entries (omega arith) in
      let merged = merge_entries_iff (div_ceil total parallelism) [] (sort_by_start entries) in
      let small : 0 + bytes_of entries ≤ u64_max = lengths.0 (subst IsOk (sym fits) tt) in
      rw fits (
        λ o. (omega arith, merged.0 (IsOk-of_map _ reverse o)),
        λ k. IsOk-map _ reverse (merged.1 k.1),
      )
]

-- The plan is made exactly when the total length fits in 64 bits and no byte of the archive lies in
-- two of the entries, whatever their order in the index. The entries are not empty.
pub work_units-IsOk :
    (entries : List Range) (parallelism : ℕ)
    → All IsNonempty entries
    → IsOk (build_index_work_units entries parallelism)
      ↔ ((bytes_of entries ≤ u64_max) × ((b : ℕ) → count entries b ≤ 1))
work_units-IsOk entries parallelism h =
    let sorted = sort_by_start entries in
    let nonempty : All IsNonempty sorted = All-sort IsNonempty entries h in
    let both = build_iff entries parallelism in
    (
      λ o.
          let (fits, f) = both.0 o in
          (fits, λ b. rw (← count-sort entries b) (Follows-count b 0 sorted f nonempty).0),
      λ k. both.1 (
        k.0,
        sorted-Follows sorted (sort-IsSorted entries) nonempty
            (λ b. rw (count-sort entries b) (k.1 b)),
      ),
    )
