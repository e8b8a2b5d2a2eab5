-- ===== src/LanceDataset/Publish.antt =====
-- What a commit publishes.
use duckdb_lance_conversion.Base.{
  true, ◌≡◌, ◌⊎◌, inl, inr, refl, sym, ap, subst, ℕ, List, [], ◌∷◌, ◌++◌, map, All, Str,
}
use duckdb_lance_conversion.Error.{Error, Result, ok, err, context, map_ok, ◌>>=◌}
use duckdb_lance_conversion.FfiConfig.{IndexKind}
use duckdb_lance_conversion.LanceIndex.{has_vector, create}
use duckdb_lance_conversion.LanceIndex.Built.{Stops, IsBuilt, create-IsBuilt}
use duckdb_lance_conversion.LanceWriter.{
  Operation, DatasetWrite, fragments_of, merge_transactions, or_empty, commit_transaction,
}
use duckdb_lance_conversion.LanceWriter.Merge.{
  SameKind, all_fragments, with_fragments, merge_transactions_iff,
}
use duckdb_lance_conversion.LanceDataset.{
  LanceLibrary, DatasetWriter, WriteSummary, Publication, rows_published, index_published, summary,
  summarise, executed, publish, write_empty, commit,
}

module _ (lib : LanceLibrary) where
  open lib use {Dataset, Fragment, execute, create_index, count_rows}

  abbrev pub Committed : Type 0
  Committed = List (Publication Fragment) × Result (WriteSummary lib)

  -- The transactions are of one kind, and their merge becomes a version of the dataset.
  abbrev pub Executes :
      DatasetWriter lib → Operation Fragment → List (Operation Fragment) → Dataset → Type 0
  Executes writer t ts dataset =
      All (SameKind t) ts
      × (execute writer.dataset (with_fragments t (fragments_of t ++ all_fragments ts))
          ≡ ok dataset)

  abbrev pub CanPublish : DatasetWriter lib → Result (List (Operation Fragment)) → Type 0
  CanPublish writer transactions =
      (t : Operation Fragment) × (ts : List (Operation Fragment)) × (dataset : Dataset)
      × (transactions ≡ ok (t ∷ ts))
      × Executes writer t ts dataset

  -- Nothing is published, and the commit fails.
  abbrev pub PublishesNothing : Committed → Type 0
  PublishesNothing r = (r.0 ≡ []) × ((e : Error) × (r.1 ≡ err e))

  -- How a commit ends once the rows are published, with this rest of the indexes not built.
  abbrev pub Ends : DatasetWriter lib → ℕ → Dataset → List (Str × IndexKind) → Committed → Type 0
  Ends writer rows dataset rest r =
      ((rest ≡ []) × (r.1 ≡ ok (summary lib rows)))
      ⊎ (((e : Error) × (r.1 ≡ err e))
          × (((e : Error) × (has_vector writer.indexes ≡ true)
                × (count_rows dataset ≡ err e)
                × (rest ≡ writer.indexes))
              ⊎ ((result : Result Dataset) × Stops create_index rest result)))

  -- The rows are published first, all in one version, and then an index after the other.
  abbrev pub PublishesRows :
      DatasetWriter lib → ℕ → Result (List (Operation Fragment)) → Committed → Type 0
  PublishesRows writer rows transactions r =
      (t : Operation Fragment) × (ts : List (Operation Fragment)) × (dataset : Dataset)
      × (built : List (Str × IndexKind)) × (rest : List (Str × IndexKind)) × (transactions
          ≡ ok (t ∷ ts))
      × Executes writer t ts dataset
      × (built ++ rest ≡ writer.indexes)
      × (r.0
          ≡ rows_published (with_fragments t (fragments_of t ++ all_fragments ts))
            ∷ map index_published built)
      × Ends writer rows dataset rest r

  Published : DatasetWriter lib → ℕ → Result (List (Operation Fragment)) → Committed → Type 0
  Published writer rows transactions r =
      ((¬ CanPublish writer transactions) × PublishesNothing r)
      ⊎ PublishesRows writer rows transactions r

  module _ (writer : DatasetWriter lib) (rows : ℕ) where
    summarise-Published :
        (t : Operation Fragment) (ts : List (Operation Fragment)) (dataset : Dataset)
        → Executes writer t ts dataset
        → Published writer rows (ok (t ∷ ts)) (
            summarise lib rows
              (with_fragments t (fragments_of t ++ all_fragments ts))
              (create create_index count_rows dataset writer.indexes))
    unfolding Published
    summarise-Published t ts dataset x =
        inr (ended (create-IsBuilt create_index count_rows dataset writer.indexes))
      where
        b : List (Str × IndexKind) × Result Dataset
        b = create create_index count_rows dataset writer.indexes

        m : Operation Fragment
        m = with_fragments t (fragments_of t ++ all_fragments ts)

        ended :
            ((e : Error) × (has_vector writer.indexes ≡ true)
                × (count_rows dataset ≡ err e)
                × (b ≡ ([], err e)))
              ⊎ IsBuilt create_index writer.indexes b
            → PublishesRows writer rows (ok (t ∷ ts)) (summarise lib rows m b)
        ended (inl (e, vectors, uncounted, none_built)) = (
          t,
          ts,
          dataset,
          [],
          writer.indexes,
          refl,
          x,
          refl,
          ap (λ c. (summarise lib rows m c).0) none_built,
          inr (
            (e, ap (λ c. (summarise lib rows m c).1) none_built),
            inl (e, vectors, uncounted, refl),
          ),
        )
        ended (inr (rest, whole, inl (d, done, no_rest))) = (
          t,
          ts,
          dataset,
          b.0,
          rest,
          refl,
          x,
          whole,
          refl,
          inl (no_rest, ap (map_ok (λ d. summary lib rows)) done),
        )
        ended (inr (rest, whole, inr (e, stopped, where_stopped))) = (
          t,
          ts,
          dataset,
          b.0,
          rest,
          refl,
          x,
          whole,
          refl,
          inr (
            (e, ap (map_ok (λ d. summary lib rows)) stopped),
            inr (b.1, (e, stopped, where_stopped)),
          ),
        )

    executed-Published :
        (t : Operation Fragment) (ts : List (Operation Fragment)) (r : Result Dataset)
        → All (SameKind t) ts
        → execute writer.dataset (with_fragments t (fragments_of t ++ all_fragments ts)) ≡ r
        → Published writer rows
            (ok (t ∷ ts))
            (executed lib writer rows (with_fragments t (fragments_of t ++ all_fragments ts)) r)
    unfolding Published context
    executed-Published t ts (err e) same h = inl (refused, (refl, (_, refl)))
      where
        refused : ¬ CanPublish writer (ok (t ∷ ts))
        refused (t', ts', d, taken, (same', x)) = cc (h, x, taken)
    executed-Published t ts (ok dataset) same h = summarise-Published t ts dataset (same, h)

    publish-Published :
        (t : Operation Fragment) (ts : List (Operation Fragment)) (r : Result (Operation Fragment))
        → merge_transactions (t ∷ ts) ≡ r
        → Published writer rows (ok (t ∷ ts)) (publish lib writer rows r)
    unfolding Published
    publish-Published t ts (err e) h = inl (refused, (refl, (e, refl)))
      where
        refused : ¬ CanPublish writer (ok (t ∷ ts))
        refused (t', ts', d, taken, (same, x)) =
            let merged = (merge_transactions_iff t' ts' _).1 (same, refl) in cc (h, merged, taken)
    publish-Published t ts (ok m) h =
        let (same, whole) = (merge_transactions_iff t ts m).0 h in
        subst (λ o. Published writer rows (ok (t ∷ ts)) (publish lib writer rows (ok o)))
          (sym whole) (executed-Published t ts _ same refl)

    taken-Published :
        (transactions : Result (List (Operation Fragment)))
        → Published writer rows transactions
            (publish lib writer rows (transactions >>= (λ ts. merge_transactions ts)))
    unfolding Published merge_transactions
    taken-Published (err e) = inl (refused, (refl, (e, refl)))
      where
        refused : ¬ CanPublish writer (err e)
        refused (t, ts, d, taken, x) = cc taken
    taken-Published (ok []) = inl (refused, (refl, (_, refl)))
      where
        refused : ¬ CanPublish writer (ok [])
        refused (t, ts, d, taken, x) = cc taken
    taken-Published (ok (t ∷ ts)) = publish-Published t ts (merge_transactions (t ∷ ts)) refl

  -- A commit publishes the rows of all finished writers in order, or of the empty stream where there are none, as
  -- one version of the dataset, exactly if these transactions are of one kind and their merge can be executed;
  -- otherwise it fails and publishes nothing. Behind the rows it publishes the planned indexes in order, a version
  -- each. It succeeds with all of them built, and then reports the rows counted; it fails where the rows cannot be
  -- counted for a vector index or building the next index fails, with the versions before that published.
  pub commit_once :
      (writer : DatasetWriter lib) (w : DatasetWrite Fragment)
      → ((¬ CanPublish writer (or_empty w.transactions (write_empty lib writer w)))
          × PublishesNothing (commit lib writer w))
        ⊎ PublishesRows writer w.rows_written
            (or_empty w.transactions (write_empty lib writer w))
            (commit lib writer w)
  unfolding commit commit_transaction Published
  commit_once writer w =
      taken-Published writer w.rows_written (or_empty w.transactions (write_empty lib writer w))
