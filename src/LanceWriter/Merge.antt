-- ===== src/LanceWriter/Merge.antt =====
-- Merging the transactions of the fragment writers.
use mathlib.Core.List.{append_assoc, append-nil}
use duckdb_lance_conversion.Base.{◌≡◌, ◌↔◌, refl, sym, ap, ◌∙◌, List, [], ◌∷◌, ◌++◌, All}
use duckdb_lance_conversion.Error.{Result, ok, err, IsOk, Yields, Yields-map, Yields-ok}
use duckdb_lance_conversion.LanceWriter.{
  Operation, append, overwrite, other, fragments_of, merge_operation, merge_rest,
  merge_transactions,
}

module _ {Fragment : Type 0} where
  -- Two operations that may be merged.
  abbrev pub SameKind : Operation Fragment → Operation Fragment → Type 0
  SameKind (append fs) (append gs) = Unit {0}
  SameKind (overwrite fs) (overwrite gs) = Unit {0}
  SameKind s t = ⊥

  abbrev pub all_fragments : List (Operation Fragment) → List Fragment
  all_fragments [] = []
  all_fragments (t ∷ ts) = fragments_of t ++ all_fragments ts

  -- The operation with its fragments replaced.
  abbrev pub with_fragments : Operation Fragment → List Fragment → Operation Fragment
  with_fragments (append fs) gs = append gs
  with_fragments (overwrite fs) gs = overwrite gs
  with_fragments (other n) gs = other n

  -- What merging promises.
  abbrev pub Merged : Operation Fragment → List (Operation Fragment) → Operation Fragment → Type 0
  Merged t ts m = All (SameKind t) ts × (m ≡ with_fragments t (fragments_of t ++ all_fragments ts))

  SameKind-grow :
      (fs gs : List Fragment) (ts : List (Operation Fragment))
      → (All (SameKind (append fs)) ts → All (SameKind (append gs)) ts)
        × (All (SameKind (overwrite fs)) ts → All (SameKind (overwrite gs)) ts)
  SameKind-grow fs gs [] = (λ h. tt, λ h. tt)
  SameKind-grow fs gs (append hs ∷ ts) =
      (λ h. (tt, (SameKind-grow fs gs ts).0 h.1), λ h. absurd h.0)
  SameKind-grow fs gs (overwrite hs ∷ ts) =
      (λ h. absurd h.0, λ h. (tt, (SameKind-grow fs gs ts).1 h.1))
  SameKind-grow fs gs (other n ∷ ts) = (λ h. absurd h.0, λ h. absurd h.0)

  merge_rest_sound :
      (t : Operation Fragment) (ts : List (Operation Fragment))
      → Yields (Merged t ts) (merge_rest t ts)
  unfolding merge_rest merge_operation
  merge_rest_sound (append fs) [] = (tt, rw append-nil)
  merge_rest_sound (overwrite fs) [] = (tt, rw append-nil)
  merge_rest_sound (other n) [] = (tt, refl)
  merge_rest_sound (append fs) (append gs ∷ ts) =
      Yields-map _ _ (merge_rest (append (fs ++ gs)) ts)
        (λ m h. (
          (tt, (SameKind-grow (fs ++ gs) fs ts).0 h.0),
          h.1 ∙ ap append (append_assoc fs gs (all_fragments ts)),
        ))
        (merge_rest_sound (append (fs ++ gs)) ts)
  merge_rest_sound (overwrite fs) (overwrite gs ∷ ts) =
      Yields-map _ _ (merge_rest (overwrite (fs ++ gs)) ts)
        (λ m h. (
          (tt, (SameKind-grow (fs ++ gs) fs ts).1 h.0),
          h.1 ∙ ap overwrite (append_assoc fs gs (all_fragments ts)),
        ))
        (merge_rest_sound (overwrite (fs ++ gs)) ts)
  merge_rest_sound (append fs) (overwrite gs ∷ ts) = tt
  merge_rest_sound (append fs) (other n ∷ ts) = tt
  merge_rest_sound (overwrite fs) (append gs ∷ ts) = tt
  merge_rest_sound (overwrite fs) (other n ∷ ts) = tt
  merge_rest_sound (other n) (append gs ∷ ts) = tt
  merge_rest_sound (other n) (overwrite gs ∷ ts) = tt
  merge_rest_sound (other n) (other m ∷ ts) = tt

  merge_rest_complete :
      (t : Operation Fragment) (ts : List (Operation Fragment))
      → All (SameKind t) ts
      → IsOk (merge_rest t ts)
  unfolding merge_rest merge_operation
  merge_rest_complete t [] h = tt
  merge_rest_complete (append fs) (append gs ∷ ts) h =
      merge_rest_complete (append (fs ++ gs)) ts ((SameKind-grow fs (fs ++ gs) ts).0 h.1)
  merge_rest_complete (overwrite fs) (overwrite gs ∷ ts) h =
      merge_rest_complete (overwrite (fs ++ gs)) ts ((SameKind-grow fs (fs ++ gs) ts).1 h.1)
  merge_rest_complete (append fs) (overwrite gs ∷ ts) h = absurd h.0
  merge_rest_complete (append fs) (other n ∷ ts) h = absurd h.0
  merge_rest_complete (overwrite fs) (append gs ∷ ts) h = absurd h.0
  merge_rest_complete (overwrite fs) (other n ∷ ts) h = absurd h.0
  merge_rest_complete (other n) (append gs ∷ ts) h = absurd h.0
  merge_rest_complete (other n) (overwrite gs ∷ ts) h = absurd h.0
  merge_rest_complete (other n) (other m ∷ ts) h = absurd h.0

  -- The transactions of the fragment writers merge exactly if they all append or all overwrite, and then
  -- into one transaction of that kind with the fragments of all of them, in order. A single transaction
  -- of any kind merges into itself.
  pub merge_transactions_iff :
      (t : Operation Fragment) (ts : List (Operation Fragment)) (m : Operation Fragment)
      → (merge_transactions (t ∷ ts) ≡ ok m)
        ↔ (All (SameKind t) ts × (m ≡ with_fragments t (fragments_of t ++ all_fragments ts)))
  unfolding merge_transactions
  merge_transactions_iff t ts m = (
    λ e. Yields-ok (Merged t ts) (merge_rest t ts) m e (merge_rest_sound t ts),
    λ (same, e).
        value_of (merge_rest t ts) (merge_rest_complete t ts same) (merge_rest_sound t ts) e,
  )
    where
      value_of :
          (r : Result (Operation Fragment))
          → IsOk r
          → Yields (Merged t ts) r
          → m ≡ with_fragments t (fragments_of t ++ all_fragments ts)
          → r ≡ ok m
      value_of (ok a) o y e = ap ok (y.1 ∙ sym e)
      value_of (err x) o y e = absurd o
