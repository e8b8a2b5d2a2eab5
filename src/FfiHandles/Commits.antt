-- ===== src/FfiHandles/Commits.antt =====
-- The calls on a dataset handle.
use duckdb_lance_conversion.Base.{◌≡◌, refl, false, Option, none, some, List, [], ◌∷◌, All}
use duckdb_lance_conversion.Error.{Result, ok, err, IsOk}
use duckdb_lance_conversion.FfiHandles.{DatasetHandle, opened, writer_open, finish_dataset}

-- A call, with what the commit would return.
pub data Call (Summary : Type 0) : Type 0 where
  opens : Call Summary
  finishes : Result Summary → Call Summary

module _ {Summary : Type 0} where
  -- The results of a history of calls on a handle, and the handle behind it.
  pub run :
      DatasetHandle Summary → List (Call Summary) → DatasetHandle Summary × List (Result (Unit {0}))
  run h [] = (h, [])
  run h (opens ∷ cs) = let (h', rs) = run h cs in (h', writer_open h ∷ rs)
  run h (finishes r ∷ cs) =
      let (h', rs) = run (finish_dataset h r).0 cs in (h', (finish_dataset h r).1 ∷ rs)

  -- The outcome of the first finish decides.
  pub Outcome : List (Call Summary) → DatasetHandle Summary → List (Result (Unit {0})) → Type 0
  Outcome [] h rs = (h ≡ opened) × (rs ≡ [])
  Outcome (c ∷ cs) h [] = ⊥
  Outcome (opens ∷ cs) h (r ∷ rs) = (r ≡ ok tt) × Outcome cs h rs
  Outcome (finishes (ok s) ∷ cs) h (r ∷ rs) =
      (r ≡ ok tt) × (h.summary ≡ some s) × All (λ r. ¬ IsOk r) rs
  Outcome (finishes (err e) ∷ cs) h (r ∷ rs) =
      (r ≡ err e) × (h.summary ≡ none) × All (λ r. ¬ IsOk r) rs

  closed_run :
      (o : Option Summary) (cs : List (Call Summary))
      → ((run (record { writer = false; summary = o }) cs).0.summary ≡ o)
        × All (λ r. ¬ IsOk r) (run (record { writer = false; summary = o }) cs).1
  unfolding run writer_open finish_dataset
  closed_run o [] = (refl, tt)
  closed_run o (opens ∷ cs) = let (s, f) = closed_run o cs in (s, ((λ x. x), f))
  closed_run o (finishes r ∷ cs) = let (s, f) = closed_run o cs in (s, ((λ x. x), f))

  -- Fragment writers open until the first finish. That commits, once, and decides the summary; every later
  -- call fails and changes nothing.
  pub finished_once : (cs : List (Call Summary)) → Outcome cs (run opened cs).0 (run opened cs).1
  unfolding run Outcome writer_open finish_dataset
  finished_once [] = (refl, refl)
  finished_once (opens ∷ cs) = (refl, finished_once cs)
  finished_once (finishes (ok s) ∷ cs) =
      (refl, (closed_run (some s) cs).0, (closed_run (some s) cs).1)
  finished_once (finishes (err e) ∷ cs) = (refl, (closed_run none cs).0, (closed_run none cs).1)
