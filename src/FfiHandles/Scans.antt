-- ===== src/FfiHandles/Scans.antt =====
-- The reader that a factory opened at bind time.
use duckdb_lance_conversion.Base.{
  ℕ, ◌≡◌, ◌⊎◌, refl, true, false, Option, none, some, List, [], ◌∷◌, All, Bool-cases, inl, inr,
}
use duckdb_lance_conversion.Arrow.{Field}
use duckdb_lance_conversion.Error.{Result, ok}
use duckdb_lance_conversion.FfiHandles.{reads_every_column, open_reader}

module _ {Reader : Type 0} (make_reader : List ℕ → Result Reader) (schema : List Field) where
  -- The readers that a list of scans gets, in the order in which they take the lock.
  pub scans : Option Reader → List (List ℕ) → List (List ℕ × Result Reader)
  scans bound [] = []
  scans bound (p ∷ ps) =
      let (f, reader) = open_reader make_reader (record { schema = schema; bound = bound }) p in
      (p, reader) ∷ scans f.bound ps

  -- Each scan has a reader of its own, opened for it.
  abbrev pub AreFresh : List (List ℕ × Result Reader) → Type 0
  AreFresh = All (λ (s : List ℕ × Result Reader). s.1 ≡ make_reader s.0)

  -- One scan of every column, the first of them, has the bound reader; all others have one of their own.
  pub FirstTakes : Reader → List (List ℕ × Result Reader) → Type 0
  FirstTakes bound [] = Unit {0}
  FirstTakes bound ((p, reader) ∷ ss) =
      ((reads_every_column schema p ≡ true) × (reader ≡ ok bound) × AreFresh ss)
      ⊎ ((reads_every_column schema p ≡ false) × (reader ≡ make_reader p) × FirstTakes bound ss)

  scans-AreFresh : (ps : List (List ℕ)) → AreFresh (scans none ps)
  unfolding scans open_reader
  scans-AreFresh [] = tt
  scans-AreFresh (p ∷ ps) = elim (Bool-cases (reads_every_column schema p)) [
    | inl e ↦ rw e (refl, scans-AreFresh ps)
    | inr e ↦ rw e (refl, scans-AreFresh ps)
  ]

  -- Whatever the scans ask for, the reader opened at bind time is handed out at most once, to the first scan
  -- that reads every column in order; every other scan gets a reader opened for its own projection.
  pub bound_reader_once :
      (bound : Reader) (ps : List (List ℕ)) → FirstTakes bound (scans (some bound) ps)
  unfolding scans open_reader FirstTakes
  bound_reader_once bound [] = tt
  bound_reader_once bound (p ∷ ps) = elim (Bool-cases (reads_every_column schema p)) [
    | inl e ↦ rw e (inl (refl, refl, scans-AreFresh ps))
    | inr e ↦ rw e (inr (refl, refl, bound_reader_once bound ps))
  ]
