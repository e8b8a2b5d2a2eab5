-- ===== src/FfiStorage/Examples.antt =====
-- One storage that is the list of its keys, with a dataset and a file beside it.
use duckdb_lance_conversion.Base.{
  ◌≡◌, ◌⊎◌, inl, inr, refl, Bool, true, false, ◌||◌, Option, none, some, List, [], ◌∷◌, ◌++◌, Str,
  codes, same, same_iff, same_refl, starts_with, ends_with, Bool-cases, subst, sym, if◌then◌else◌,
}
use duckdb_lance_conversion.Error.{Result, ok}
use duckdb_lance_conversion.Storage.Sample.{PlainUrl, default_config, library}
use duckdb_lance_conversion.Storage.Open.{OpendalStorage}
use duckdb_lance_conversion.FfiStorage.{ObjectLibrary, dataset_at, remove_dataset}
use duckdb_lance_conversion.FfiStorage.Cleanup.{HasObjects, Leaves, remove_dataset-safe}

abbrev member : Str → List Str → Bool
member key [] = false
member key (k ∷ ks) = same key k || member key ks

abbrev below : Str → List Str → List Str
below prefix [] = []
below prefix (k ∷ ks) =
    let rest = below prefix ks in if starts_with prefix k then k ∷ rest else rest

abbrev keep : Str → List Str → List Str
keep prefix [] = []
keep prefix (k ∷ ks) = let rest = keep prefix ks in if starts_with prefix k then rest else k ∷ rest

abbrev is_one : List Str → Bool
is_one [] = false
is_one (k ∷ ks) = true

abbrev objects : ObjectLibrary
objects = record {
  storage = library;
  World = List Str;
  holds = λ w operator key. member key w;
  exists = λ w operator prefix. ok (is_one (below prefix w));
  list = λ w operator prefix. ok (below prefix w);
  delete_recursive = λ w operator prefix. (keep prefix w, ok tt);
  default_config = default_config;
}

keep-other :
    (prefix key : Str) (w : List Str)
    → starts_with prefix key ≡ false
    → member key (keep prefix w) ≡ member key w
keep-other prefix key [] h = refl
keep-other prefix key (k ∷ ks) h = elim (Bool-cases (starts_with prefix k)) [
  | inl b ↦ elim (Bool-cases (same key k)) [
    | inl s ↦
        let e : key ≡ k = (same_iff key k).0 s in
        let contra : starts_with prefix key ≡ true =
          subst (λ x. starts_with prefix x ≡ true) (sym e) b in
        cc
    | inr s ↦ rw (b, s) (keep-other prefix key ks h)
  ]
  | inr b ↦ rw b (rw (keep-other prefix key ks h) refl)
]

keep-below :
    (prefix key : Str) (w : List Str)
    → starts_with prefix key ≡ true
    → member key (keep prefix w) ≡ false
keep-below prefix key [] h = refl
keep-below prefix key (k ∷ ks) h = elim (Bool-cases (starts_with prefix k)) [
  | inl b ↦ rw b (keep-below prefix key ks h)
  | inr b ↦ elim (Bool-cases (same key k)) [
    | inl s ↦
        let e : key ≡ k = (same_iff key k).0 s in
        let contra : starts_with prefix k ≡ true = subst (λ x. starts_with prefix x ≡ true) e h in
        cc
    | inr s ↦ rw (b, s) (keep-below prefix key ks h)
  ]
]

below-found :
    (prefix : Str) (w : List Str)
    → is_one (below prefix w) ≡ true
    → (key : Str) × (starts_with prefix key ≡ true) × (member key w ≡ true)
below-found prefix [] h = cc
below-found prefix (k ∷ ks) h = elim (Bool-cases (starts_with prefix k)) [
  | inl b ↦ (k, b, rw (same_refl k) refl)
  | inr b ↦
      let (key, a, m) =
        below-found prefix ks
          (subst (λ c. is_one (if c then k ∷ below prefix ks else below prefix ks) ≡ true) b h) in
      (key, a, later (same key k) (member key ks) m)
]
  where
    later : (a b : Bool) → b ≡ true → (a || b) ≡ true
    later true b e = refl
    later false b e = e

objects-HasObjects : HasObjects objects
objects-HasObjects = record {
  deletes_only = λ w operator prefix key h. keep-other prefix key w h;
  deletes_all = λ w operator prefix key e h. keep-below prefix key w h;
  exists_sound = λ w operator prefix h. below-found prefix w cc;
  list_sound = λ w operator prefix entry entries h. below-found prefix w cc;
}

abbrev world : List Str
world = codes "data.lance/1" ∷ codes "data.lance.csv" ∷ []

abbrev place : PlainUrl
place = record { scheme = codes "file"; host = []; path = codes "/data.lance" }

abbrev target : OpendalStorage library × Str
target = (
  record { operator = codes "fs"; object_path = codes "data.lance"; location = place },
  codes "data.lance/",
)

selects : dataset_at objects (ok (codes "/data.lance")) none none ≡ ok target
unfolding dataset_at starts_with duckdb_lance_conversion.Storage.validate
    duckdb_lance_conversion.Storage.from_path duckdb_lance_conversion.Storage.Open.from_local_path
    duckdb_lance_conversion.Error.context duckdb_lance_conversion.Base.trim_start_matches
selects = refl

remove_dataset-safe_example :
    (ends_with (codes ".lance") target.0.object_path ≡ true)
    × (target.1 ≡ target.0.object_path ++ codes "/")
    × ((starts_with target.1 (codes "data.lance.csv") ≡ true)
        ⊎ (member
              (codes "data.lance.csv")
              (remove_dataset objects world (some (ok (codes "/data.lance"))) none none).0
            ≡ member (codes "data.lance.csv") world))
    × Leaves objects objects-HasObjects world
        (ok (codes "/data.lance"))
        none
        none
        (remove_dataset objects world (some (ok (codes "/data.lance"))) none none)
remove_dataset-safe_example =
    remove_dataset-safe objects objects-HasObjects world (ok (codes "/data.lance")) none none target
      (codes "data.lance.csv") selects
