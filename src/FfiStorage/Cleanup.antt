-- ===== src/FfiStorage/Cleanup.antt =====
-- What cleaning up a dataset removes.
use duckdb_lance_conversion.Base.{
  not_differs, ◌≡◌, ◌⊎◌, inl, inr, refl, sym, subst, Bool, true, false, Option, some, List, [], ◌∷◌,
  ◌++◌, Str, codes, is_empty, ends_with, starts_with, if◌then◌else◌, Bool-cases,
}
use duckdb_lance_conversion.Error.{bailed, ok-injective, Result, ok, err, map_ok, >>=-eq-ok}
use duckdb_lance_conversion.Storage.Open.{OpendalStorage, Config, storage_at}
use duckdb_lance_conversion.FfiStorage.{
  LanceS3Config, ObjectLibrary, s3_config, parse_opendal_config, dataset_prefix, dataset_at,
  found_at, dataset_exists, remove_dataset,
}

module _ (lib : ObjectLibrary) where
  open lib use {storage, World, holds, exists, list, delete_recursive}

  -- What OpenDAL promises: a recursive removal touches nothing outside its path and, if it succeeds, leaves nothing
  -- below it; and what `exists` and `list` find below a path is there.
  pub record HasObjects : Type 0 where
    pub deletes_only :
        (w : World) (operator : storage.Operator) (prefix key : Str)
        → starts_with prefix key ≡ false
        → holds (delete_recursive w operator prefix).0 operator key ≡ holds w operator key
    pub deletes_all :
        (w : World) (operator : storage.Operator) (prefix key : Str)
        → (delete_recursive w operator prefix).1 ≡ ok tt
        → starts_with prefix key ≡ true
        → holds (delete_recursive w operator prefix).0 operator key ≡ false
    pub exists_sound :
        (w : World) (operator : storage.Operator) (prefix : Str)
        → exists w operator prefix ≡ ok true
        → (key : Str) × (starts_with prefix key ≡ true) × (holds w operator key ≡ true)
    pub list_sound :
        (w : World) (operator : storage.Operator) (prefix entry : Str) (entries : List Str)
        → list w operator prefix ≡ ok (entry ∷ entries)
        → (key : Str) × (starts_with prefix key ≡ true) × (holds w operator key ≡ true)

  -- The dataset that a call is about.
  abbrev pub Selects :
      Result Str → Option LanceS3Config → Option (Config storage) → OpendalStorage storage → Type 0
  Selects path s3 config target =
      dataset_at lib path s3 config ≡ ok (target, target.object_path ++ codes "/")

  dataset_at-prefix :
      (path : Result Str) (s3 : Option LanceS3Config) (config : Option (Config storage))
      (d : OpendalStorage storage × Str)
      → dataset_at lib path s3 config ≡ ok d
      → (ends_with (codes ".lance") d.0.object_path ≡ true) × (d.1 ≡ d.0.object_path ++ codes "/")
  unfolding dataset_at dataset_prefix
  dataset_at-prefix path s3 config d e =
      let (text, a, e1) = >>=-eq-ok path _ e in
      let (s3', b, e2) = >>=-eq-ok (s3_config s3) _ e1 in
      let (config', c, e3) = >>=-eq-ok (parse_opendal_config lib config) _ e2 in
      let (target, f, e4) = >>=-eq-ok (storage_at storage text s3' config') _ e3 in
      let (prefix, g, e5) = >>=-eq-ok (dataset_prefix lib target) _ e4 in
      let (named, h) =
        bailed (if ends_with (codes ".lance") target.object_path then false else true) _ _ prefix
          g in
      let made : (target, prefix) ≡ d = ok-injective (target, prefix) d e5 in
      let prefix_is : target.object_path ++ codes "/" ≡ prefix =
        ok-injective (target.object_path ++ codes "/") prefix h in
      subst
        (λ (x : OpendalStorage storage × Str).
          (ends_with (codes ".lance") x.0.object_path ≡ true)
          × (x.1 ≡ x.0.object_path ++ codes "/"))
        made (not_differs _ named, sym prefix_is)

  -- An entry that exists below a removed prefix is a contradiction.
  module _ (laws : HasObjects) where
    open laws use {deletes_only, deletes_all, exists_sound, list_sound}

    gone :
        (w : World) (d : OpendalStorage storage × Str)
        → (delete_recursive w d.0.operator d.1).1 ≡ ok tt
        → ¬ (
            (key : Str) × (starts_with d.1 key ≡ true)
            × (holds (delete_recursive w d.0.operator d.1).0 d.0.operator key ≡ true))
    gone w d e (key, below, held) = let absent = deletes_all w d.0.operator d.1 key e below in cc

    not_found :
        (w : World) (d : OpendalStorage storage × Str)
        → (delete_recursive w d.0.operator d.1).1 ≡ ok tt
        → ¬ (found_at lib (delete_recursive w d.0.operator d.1).0 d ≡ ok true)
    not_found w d e f =
        let after = (delete_recursive w d.0.operator d.1).0 in
        let (there, x, g) = >>=-eq-ok (exists after d.0.operator d.1) _ f in by_exists there x g
      where
        listed :
            (r : Result (List Str))
            → list (delete_recursive w d.0.operator d.1).0 d.0.operator d.1 ≡ r
            → map_ok (λ entries. if is_empty entries then false else true) r ≡ ok true
            → ⊥
        listed (err x) l g = cc
        listed (ok []) l g = cc
        listed (ok (entry ∷ entries)) l g =
            gone w d e
              (list_sound (delete_recursive w d.0.operator d.1).0 d.0.operator d.1 entry entries l)

        by_exists :
            (there : Bool)
            → exists (delete_recursive w d.0.operator d.1).0 d.0.operator d.1 ≡ ok there
            → (if there
                then ok true
                else map_ok
                    (λ entries. if is_empty entries then false else true)
                    (list (delete_recursive w d.0.operator d.1).0 d.0.operator d.1))
              ≡ ok true
            → ⊥
        by_exists true x g =
            gone w d e (exists_sound (delete_recursive w d.0.operator d.1).0 d.0.operator d.1 x)
        by_exists false x g =
            listed (list (delete_recursive w d.0.operator d.1).0 d.0.operator d.1) refl g

    -- The removal failed, or it left no dataset behind.
    abbrev pub Leaves :
        World
        → Result Str
        → Option LanceS3Config
        → Option (Config storage)
        → World × Result (Unit {0})
        → Type 0
    Leaves w path s3 config removed =
        (¬ (removed.1 ≡ ok tt)) ⊎ (¬ (dataset_exists lib removed.0 (some path) s3 config ≡ ok true))

    removed-Leaves :
        (w : World) (path : Result Str) (s3 : Option LanceS3Config)
        (config : Option (Config storage)) (d : OpendalStorage storage × Str)
        (r : Result (Unit {0}))
        → dataset_at lib path s3 config ≡ ok d
        → (delete_recursive w d.0.operator d.1).1 ≡ r
        → Leaves w path s3 config (delete_recursive w d.0.operator d.1)
    unfolding dataset_exists
    removed-Leaves w path s3 config d (err x) e h = inl (λ f. cc)
    removed-Leaves w path s3 config d (ok u) e h = inr (rw e (not_found w d h))

    outside :
        (w : World) (d : OpendalStorage storage × Str) (key : Str)
        → (starts_with d.1 key ≡ true)
          ⊎ (holds (delete_recursive w d.0.operator d.1).0 d.0.operator key
              ≡ holds w d.0.operator key)
    outside w d key = elim (Bool-cases (starts_with d.1 key)) [
      | inl below ↦ inl below
      | inr other ↦ inr (deletes_only w d.0.operator d.1 key other)
    ]

    -- Cleaning up the dataset at a path that ends in `.lance` changes no object but those below that path and a
    -- slash, whether it succeeds or not; and once it succeeds, no dataset is found there.
    pub remove_dataset-safe :
        (w : World) (path : Result Str) (s3 : Option LanceS3Config)
        (config : Option (Config storage)) (d : OpendalStorage storage × Str) (key : Str)
        → dataset_at lib path s3 config ≡ ok d
        → (ends_with (codes ".lance") d.0.object_path ≡ true)
          × (d.1 ≡ d.0.object_path ++ codes "/")
          × ((starts_with d.1 key ≡ true)
              ⊎ (holds (remove_dataset lib w (some path) s3 config).0 d.0.operator key
                  ≡ holds w d.0.operator key))
          × Leaves w path s3 config (remove_dataset lib w (some path) s3 config)
    unfolding remove_dataset
    remove_dataset-safe w path s3 config d key e =
        let (named, prefix) = dataset_at-prefix path s3 config d e in
        rw e (
          named,
          prefix,
          outside w d key,
          removed-Leaves w path s3 config d (delete_recursive w d.0.operator d.1).1 e refl,
        )
