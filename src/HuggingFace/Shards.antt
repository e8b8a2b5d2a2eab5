-- ===== src/HuggingFace/Shards.antt =====
-- The shards of a split.
use duckdb_lance_conversion.Base.{
  ℕ, ◌+◌, ◌≡◌, ◌≢◌, inl, inr, refl, sym, ◌∙◌, ap, subst, Bool, true, false, List, [], ◌∷◌, Str, All,
  same, is_empty, arith, Bool-cases, if◌then◌else◌,
}
use duckdb_lance_conversion.Error.{Result, ok, err, context, >>=-eq-ok, Message}
use duckdb_lance_conversion.FfiConfig.{before}
use duckdb_lance_conversion.HuggingFace.{
  Entry, shard_paths, insert_path, sort_paths, list_parquet_files, first_directory,
  HuggingFaceLibrary, HuggingFaceSource, directories, parquet_files,
}

-- How often a path is in a list.
abbrev one_if : Bool → ℕ
one_if true = 1
one_if false = 0

abbrev pub occurs : Str → List Str → ℕ
occurs p [] = 0
occurs p (q ∷ qs) = one_if (same p q) + occurs p qs

-- No path is before an earlier one.
abbrev pub IsSorted : List Str → Type 0
IsSorted [] = Unit {0}
IsSorted (p ∷ ps) = All (λ q. before q p ≡ false) ps × IsSorted ps

before_asym : (p q : Str) → before p q ≡ true → before q p ≡ false
unfolding before
before_asym [] [] h = cc
before_asym [] (d ∷ ds) h = refl
before_asym (c ∷ cs) [] h = cc
before_asym (c ∷ cs) (d ∷ ds) h = ground (arith, before_asym cs ds)

not_before_trans : (p q r : Str) → before q p ≡ false → before r q ≡ false → before r p ≡ false
unfolding before
not_before_trans [] [] [] h k = refl
not_before_trans [] [] (e ∷ es) h k = refl
not_before_trans [] (d ∷ ds) [] h k = cc
not_before_trans [] (d ∷ ds) (e ∷ es) h k = refl
not_before_trans (c ∷ cs) [] r h k = cc
not_before_trans (c ∷ cs) (d ∷ ds) [] h k = cc
not_before_trans (c ∷ cs) (d ∷ ds) (e ∷ es) h k = ground (arith, not_before_trans cs ds es)

All-not_before :
    (p q : Str) (ps : List Str)
    → before q p ≡ false
    → All (λ r. before r q ≡ false) ps
    → All (λ r. before r p ≡ false) ps
All-not_before p q [] h k = tt
All-not_before p q (r ∷ ps) h k = (not_before_trans p q r h k.0, All-not_before p q ps h k.1)

All-insert_path :
    (q p : Str) (ps : List Str)
    → before p q ≡ false
    → All (λ r. before r q ≡ false) ps
    → All (λ r. before r q ≡ false) (insert_path p ps)
unfolding insert_path
All-insert_path q p [] h k = (h, tt)
All-insert_path q p (r ∷ ps) h k = elim (Bool-cases (before r p)) [
  | inl e ↦ rw e (k.0, All-insert_path q p ps h k.1)
  | inr e ↦ rw e (h, k)
]

insert_path-IsSorted : (p : Str) (ps : List Str) → IsSorted ps → IsSorted (insert_path p ps)
unfolding insert_path
insert_path-IsSorted p [] h = (tt, tt)
insert_path-IsSorted p (q ∷ qs) h = elim (Bool-cases (before q p)) [
  | inl e ↦ rw e (All-insert_path q p qs (before_asym q p e) h.0, insert_path-IsSorted p qs h.1)
  | inr e ↦ rw e ((e, All-not_before p q qs e h.0), h)
]

sort_paths-IsSorted : (ps : List Str) → IsSorted (sort_paths ps)
unfolding sort_paths
sort_paths-IsSorted [] = tt
sort_paths-IsSorted (p ∷ ps) = insert_path-IsSorted p (sort_paths ps) (sort_paths-IsSorted ps)

occurs-insert_path :
    (k p : Str) (ps : List Str) → occurs k (insert_path p ps) ≡ one_if (same k p) + occurs k ps
unfolding insert_path
occurs-insert_path k p [] = refl
occurs-insert_path k p (q ∷ qs) = elim (Bool-cases (before q p)) [
  | inl e ↦ rw e (omega (arith, occurs-insert_path k p qs))
  | inr e ↦ rw e refl
]

occurs-sort_paths : (k : Str) (ps : List Str) → occurs k (sort_paths ps) ≡ occurs k ps
unfolding sort_paths
occurs-sort_paths k [] = refl
occurs-sort_paths k (p ∷ ps) =
    omega (arith, occurs-insert_path k p (sort_paths ps), occurs-sort_paths k ps)

-- The Parquet files of a directory, sorted, and nothing else.
abbrev pub AreShards : (Str → Result (List Entry)) → Str → List Str → Type 0
AreShards list directory paths =
    (entries : List Entry) × (list directory ≡ ok entries)
    × IsSorted paths
    × ((k : Str) → occurs k paths ≡ occurs k (shard_paths entries))

module _ (list : Str → Result (List Entry)) where
  context-eq-ok : {A : Type 0} (r : Result A) (m : Message) (a : A) → context r m ≡ ok a → r ≡ ok a
  unfolding context
  context-eq-ok (ok b) m a e = e
  context-eq-ok (err x) m a e = cc

  list_parquet_files-AreShards :
      (directory : Str) (paths : List Str)
      → list_parquet_files list directory ≡ ok paths
      → AreShards list directory paths
  unfolding list_parquet_files
  list_parquet_files-AreShards directory paths e =
      let (entries, f, g) = >>=-eq-ok (context (list directory) _) _ e in
      let made : sort_paths (shard_paths entries) ≡ paths = cc in
      (
        entries,
        context-eq-ok (list directory) _ entries f,
        subst IsSorted made (sort_paths-IsSorted (shard_paths entries)),
        λ k. ap (occurs k) (sym made) ∙ occurs-sort_paths k (shard_paths entries),
      )

  -- The directories before the chosen one have no shards.
  pub data Chosen : List Str → List Str → Type 0 where
    here :
        {directory : Str} {directories paths : List Str}
        → AreShards list directory paths
        → paths ≢ []
        → Chosen (directory ∷ directories) paths
    later :
        {directory : Str} {directories paths : List Str}
        → AreShards list directory []
        → Chosen directories paths
        → Chosen (directory ∷ directories) paths

  first_directory-Chosen :
      (directories paths : List Str)
      → first_directory list directories ≡ ok paths
      → Chosen directories paths
  unfolding first_directory
  first_directory-Chosen [] paths e = cc
  first_directory-Chosen (directory ∷ directories) paths e =
      let (found, f, g) = >>=-eq-ok (list_parquet_files list directory) _ e in
      chosen found f g (λ r. first_directory-Chosen directories paths r)
    where
      chosen :
          (found : List Str)
          → list_parquet_files list directory ≡ ok found
          → (if is_empty found then first_directory list directories else ok found) ≡ ok paths
          → (first_directory list directories ≡ ok paths → Chosen directories paths)
          → Chosen (directory ∷ directories) paths
      chosen [] f g rest = later (list_parquet_files-AreShards directory [] f) (rest g)
      chosen (p ∷ ps) f g rest =
          let same_paths : p ∷ ps ≡ paths = cc in
          here
            (subst (AreShards list directory) same_paths
              (list_parquet_files-AreShards directory (p ∷ ps) f))
            (λ none_left. cc)

-- The shards of a split are the Parquet files, sorted by name and each as often as it is listed, of the
-- first of its two directories that has any; and there is one.
pub parquet_files-Chosen :
    (lib : HuggingFaceLibrary) (s : HuggingFaceSource lib) (operator : lib.storage.Operator)
    (paths : List Str)
    → parquet_files lib s operator ≡ ok paths
    → Chosen (lib.list operator) (directories lib s) paths
unfolding parquet_files
parquet_files-Chosen lib s operator paths e =
    first_directory-Chosen (lib.list operator) (directories lib s) paths e
