-- ===== src/WarcIndex/Cover.antt =====
-- The bytes that the planned reads fetch.
use mathlib.Core.List.{reverse}
use duckdb_lance_conversion.Base.{
  ℕ, ◌≤◌, ◌≡◌, refl, ◌∙◌, Bool, true, false, ◌||◌, List, [], ◌∷◌, All, arith, div_ceil,
}
use duckdb_lance_conversion.Error.{ok, Yields, Yields-bind, Yields-all, Yields-trivial, Yields-ok}
use duckdb_lance_conversion.WarcIndex.{
  Range, push_entry, merge_entries, sort_by_start, build_index_work_units, total_length,
}
use duckdb_lance_conversion.WarcIndex.Plan.{
  in_range, covers, covers-reverse, covers-sort, All-sort, All-reverse, IsNonempty, IsAscending,
  IsDescending, EndsBy, reverse-IsAscending,
}

EndsBy-mono : (a b : ℕ) (rs : List Range) → a ≤ b → EndsBy a rs → EndsBy b rs
EndsBy-mono a b [] h k = tt
EndsBy-mono a b (r ∷ rs) h k = (omega arith, EndsBy-mono a b rs h k.1)

or_assoc : (a b c : Bool) → ((a || b) || c) ≡ (a || (b || c))
or_assoc true b c = refl
or_assoc false b c = refl

push_entry-IsNonempty :
    (target : ℕ) (units : List Range) (e : Range)
    → All IsNonempty units
    → IsNonempty e
    → Yields (All IsNonempty) (push_entry target units e)
unfolding push_entry
push_entry-IsNonempty target [] e h p = (p, tt)
push_entry-IsNonempty target (u ∷ us) e h p = ground arith

push_entry-covers :
    (b target : ℕ) (units : List Range) (e : Range)
    → All IsNonempty units
    → IsNonempty e
    → Yields (λ us. covers us b ≡ (covers units b || in_range e b)) (push_entry target units e)
unfolding push_entry
push_entry-covers b target [] e h p = ground arith
push_entry-covers b target (u ∷ us) e h p = ground arith

push_entry-IsDescending :
    (target : ℕ) (units : List Range) (e : Range)
    → All IsNonempty units
    → IsDescending units
    → Yields IsDescending (push_entry target units e)
unfolding push_entry
push_entry-IsDescending target [] e h d = (tt, tt)
push_entry-IsDescending target (u ∷ us) e h d = ground (arith, EndsBy-mono u.start e.start us)

-- What the loop keeps of the units, as to one byte position.
abbrev Keeps : ℕ → Bool → List Range → Type 0
Keeps b was us = (covers us b ≡ was) × All IsNonempty us × IsDescending us

push_entry-Keeps :
    (b target : ℕ) (units : List Range) (e : Range) (was : Bool)
    → Keeps b was units
    → IsNonempty e
    → Yields (Keeps b (was || in_range e b)) (push_entry target units e)
push_entry-Keeps b target units e was k p =
    Yields-all _ _ _ (push_entry target units e)
      (rw (← k.0) (push_entry-covers b target units e k.1 p))
      (push_entry-IsNonempty target units e k.1 p) (push_entry-IsDescending target units e k.1 k.2)

merge_entries-Keeps :
    (b target : ℕ) (units es : List Range) (was : Bool)
    → Keeps b was units
    → All IsNonempty es
    → Yields (Keeps b (was || covers es b)) (merge_entries target units es)
unfolding merge_entries
merge_entries-Keeps b target units [] was k h = ground arith
merge_entries-Keeps b target units (x ∷ es) was k h =
    Yields-bind (Keeps b (was || in_range x b)) (Keeps b (was || (in_range x b || covers es b)))
      (push_entry target units x) (λ us. merge_entries target us es)
      (push_entry-Keeps b target units x was k h.0)
      λ us q.
        rw (← or_assoc was (in_range x b) (covers es b))
          (merge_entries-Keeps b target us es (was || in_range x b) q h.1)

abbrev Planned : List Range → ℕ → List Range → Type 0
Planned entries b units =
    (covers units b ≡ covers entries b) × All IsNonempty units × IsAscending units

Keeps-reverse :
    (entries : List Range) (b : ℕ) (us : List Range)
    → Keeps b (covers (sort_by_start entries) b) us
    → Planned entries b (reverse us)
Keeps-reverse entries b us k = (
  covers-reverse us b ∙ k.0 ∙ covers-sort entries b,
  All-reverse IsNonempty us k.1,
  reverse-IsAscending us k.2,
)

build-Planned :
    (entries : List Range) (parallelism b : ℕ)
    → All IsNonempty entries
    → Yields (Planned entries b) (build_index_work_units entries parallelism)
unfolding build_index_work_units
build-Planned entries parallelism b h =
    Yields-bind (λ t. Unit {0}) (Planned entries b) (total_length 0 entries) _
      (Yields-trivial (total_length 0 entries))
      λ total _.
        let target = div_ceil total parallelism in
        let sorted = sort_by_start entries in
        Yields-bind (Keeps b (covers sorted b)) (Planned entries b) (merge_entries target [] sorted)
          _
          (merge_entries-Keeps b target [] sorted false (refl, tt, tt)
            (All-sort IsNonempty entries h))
          λ us k. Keeps-reverse entries b us k

-- The planned units cover a byte exactly when an index entry does: no indexed byte is lost and no
-- byte of a gap is read. The units are not empty and stand in archive order without overlap. The
-- entries are not empty, and the plan succeeds.
pub work_units_cover :
    (entries : List Range) (parallelism : ℕ) (units : List Range)
    → All IsNonempty entries
    → build_index_work_units entries parallelism ≡ ok units
    → ((b : ℕ) → covers units b ≡ covers entries b) × All IsNonempty units × IsAscending units
work_units_cover entries parallelism units h e =
    let planned = λ (b : ℕ).
      Yields-ok (Planned entries b) (build_index_work_units entries parallelism) units e
        (build-Planned entries parallelism b h) in
    (λ b. (planned b).0, (planned 0).1, (planned 0).2)
