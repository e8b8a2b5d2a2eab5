-- ===== src/Storage/Stores.antt =====
-- The cache of stores, as the map from keys to the first store made under each.
use duckdb_lance_conversion.Base.{
  find, ◌≡◌, refl, sym, ap, ◌∙◌, Option, none, some, List, [], ◌∷◌, Str, same, same_iff, Bool-cases,
  inl, inr, if◌then◌else◌,
}
use duckdb_lance_conversion.Error.{Result, ok, err}
use duckdb_lance_conversion.Storage.Open.{StorageLibrary, S3StorageConfig, Config}
use duckdb_lance_conversion.Storage.Provider.{
  StoreProvider, new_provider, store_key, create_store, object_store, insert_store, cached_store,
}

module _ (lib : StorageLibrary) where
  open lib use {Url, Operator}

  -- The provider after some calls.
  pub run : StoreProvider lib → List Url → StoreProvider lib
  run p [] = p
  run p (u ∷ us) = run (object_store lib p u).0 us

  abbrev or_first : Option Operator → Option Operator → Option Operator
  or_first none b = b
  or_first (some a) b = some a

  abbrev value_of : Result Operator → Option Operator
  value_of (ok a) = some a
  value_of (err e) = none

  -- The abstract view: the store of a key is the first that could be made for a URL of it.
  pub first_store : StoreProvider lib → Str → List Url → Option Operator
  first_store p k [] = none
  first_store p k (u ∷ us) =
      let rest = first_store p k us in
      if same k (store_key lib u) then or_first (value_of (create_store lib p u)) rest else rest

  abbrev pub answer : Option Operator → Result Operator → Result Operator
  answer (some s) fresh = ok s
  answer none fresh = fresh

  -- Two providers that make the same stores.
  abbrev Agree : StoreProvider lib → StoreProvider lib → Type 0
  Agree p q = (p.s3_config ≡ q.s3_config) × (p.opendal_config ≡ q.opendal_config)

  create_store-Agree :
      (p q : StoreProvider lib) (u : Url) → Agree p q → create_store lib p u ≡ create_store lib q u
  unfolding create_store
  create_store-Agree p q u (a, b) = rw (a, b) refl

  first_store-Agree :
      (p q : StoreProvider lib) (k : Str) (us : List Url)
      → Agree p q
      → first_store p k us ≡ first_store q k us
  unfolding first_store
  first_store-Agree p q k [] h = refl
  first_store-Agree p q k (u ∷ us) h = rw (create_store-Agree p q u h, first_store-Agree p q k us h)

  insert_store-Agree :
      (p : StoreProvider lib) (key : Str) (r : Result Operator)
      → Agree (insert_store lib p key r).0 p
  insert_store-Agree p key (ok s) = (refl, refl)
  insert_store-Agree p key (err e) = (refl, refl)

  cached_store-Agree :
      (p : StoreProvider lib) (u : Url) (o : Option Operator) → Agree (cached_store lib p u o).0 p
  cached_store-Agree p u (some s) = (refl, refl)
  cached_store-Agree p u none = insert_store-Agree p (store_key lib u) (create_store lib p u)

  object_store-Agree : (p : StoreProvider lib) (u : Url) → Agree (object_store lib p u).0 p
  unfolding object_store
  object_store-Agree p u = cached_store-Agree p u (find (store_key lib u) p.stores)

  insert_store-find :
      (p : StoreProvider lib) (k key : Str) (r : Result Operator)
      → find k (insert_store lib p key r).0.stores
        ≡ (if same k key then or_first (value_of r) (find k p.stores) else find k p.stores)
  insert_store-find p k key (ok s) = refl
  insert_store-find p k key (err e) = elim (Bool-cases (same k key)) [
    | inl s ↦ rw s refl
    | inr s ↦ rw s refl
  ]

  or_none : (o : Option Operator) → o ≡ or_first o none
  or_none none = refl
  or_none (some a) = refl

  -- What a call adds under a key, by what the URL's own key held.
  cached_store-find :
      (p : StoreProvider lib) (k key : Str) (u : Url) (o : Option Operator)
      → store_key lib u ≡ key
      → find key p.stores ≡ o
      → find k (cached_store lib p u o).0.stores
        ≡ or_first (find k p.stores) (if same k key then value_of (create_store lib p u) else none)
  cached_store-find p k key u (some a) i f = elim (Bool-cases (same k key)) [
    | inl s ↦ let e : k ≡ key = (same_iff k key).0 s in rw (s, e, f) refl
    | inr s ↦ rw s (or_none (find k p.stores))
  ]
  cached_store-find p k key u none i f = elim (Bool-cases (same k key)) [
    | inl s ↦
        let e : k ≡ key = (same_iff k key).0 s in
        insert_store-find p k (store_key lib u) (create_store lib p u)
        ∙ rw (i, s) (rw (e, f) (sym (or_none (value_of (create_store lib p u)))))
    | inr s ↦
        insert_store-find p k (store_key lib u) (create_store lib p u)
        ∙ rw (i, s) (or_none (find k p.stores))
  ]

  object_store-find :
      (p : StoreProvider lib) (k : Str) (u : Url)
      → find k (object_store lib p u).0.stores
        ≡ or_first
            (find k p.stores)
            (if same k (store_key lib u) then value_of (create_store lib p u) else none)
  unfolding object_store
  object_store-find p k u =
      cached_store-find p k (store_key lib u) u (find (store_key lib u) p.stores) refl refl

  or_first_assoc : (a b c : Option Operator) → or_first (or_first a b) c ≡ or_first a (or_first b c)
  or_first_assoc none b c = refl
  or_first_assoc (some a) b c = refl

  or_first-first :
      (k : Str) (p : StoreProvider lib) (u : Url) (rest : Option Operator)
      → or_first (if same k (store_key lib u) then value_of (create_store lib p u) else none) rest
        ≡ (if same k (store_key lib u)
            then or_first (value_of (create_store lib p u)) rest
            else rest)
  or_first-first k p u rest = elim (Bool-cases (same k (store_key lib u))) [
    | inl s ↦ rw s refl
    | inr s ↦ rw s refl
  ]

  run-find :
      (p : StoreProvider lib) (k : Str) (us : List Url)
      → find k (run p us).stores ≡ or_first (find k p.stores) (first_store p k us)
  unfolding run first_store
  run-find p k [] = or_none (find k p.stores)
  run-find p k (u ∷ us) =
      let q = (object_store lib p u).0 in
      run-find q k us
      ∙ (ap (λ f. or_first (find k q.stores) f)
            (first_store-Agree q p k us (object_store-Agree p u))
          ∙ (ap (λ f. or_first f (first_store p k us)) (object_store-find p k u)
              ∙ (or_first_assoc (find k p.stores) _ (first_store p k us)
                  ∙ ap (or_first (find k p.stores)) (or_first-first k p u (first_store p k us)))))

  run-Agree : (p : StoreProvider lib) (us : List Url) → Agree (run p us) p
  unfolding run
  run-Agree p [] = (refl, refl)
  run-Agree p (u ∷ us) =
      let (a, b) = run-Agree (object_store lib p u).0 us in
      let (c, d) = object_store-Agree p u in (a ∙ c, b ∙ d)

  answered :
      (p : StoreProvider lib) (u : Url) (o : Option Operator)
      → (cached_store lib p u o).1 ≡ answer o (create_store lib p u)
  answered p u (some s) = refl
  answered p u none = inserted (create_store lib p u)
    where
      inserted : (r : Result Operator) → (insert_store lib p (store_key lib u) r).1 ≡ r
      inserted (ok s) = refl
      inserted (err e) = refl

  -- After any calls on a new provider, the store of a URL is the first that could be made for a URL of the
  -- same scheme and authority, and it is made anew only where there was none. So one store is shared
  -- by all URLs of a bucket or host.
  pub object_store_refines :
      (s3 : Option S3StorageConfig) (config : Config lib) (us : List Url) (u : Url)
      → (object_store lib (run (new_provider lib s3 config) us) u).1
        ≡ answer
            (first_store (new_provider lib s3 config) (store_key lib u) us)
            (create_store lib (new_provider lib s3 config) u)
  unfolding object_store new_provider
  object_store_refines s3 config us u =
      let p = new_provider lib s3 config in
      answered (run p us) u (find (store_key lib u) (run p us).stores)
      ∙ (ap (λ o. answer o (create_store lib (run p us) u)) (run-find p (store_key lib u) us)
          ∙ ap (answer (first_store p (store_key lib u) us))
              (create_store-Agree (run p us) p u (run-Agree p us)))
