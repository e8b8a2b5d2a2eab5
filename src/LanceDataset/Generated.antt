-- ===== src/LanceDataset/Generated.antt =====
-- The generated columns of appended rows.
use duckdb_lance_conversion.Base.{
  find, ◌≡◌, ◌↔◌, inl, inr, refl, sym, ◌∙◌, ap, subst, Bool, true, false, ◌&&◌, Option, none, some,
  List, [], ◌∷◌, ◌++◌, Str, same, same_iff, same_refl, Bool-cases, if◌then◌else◌,
}
use duckdb_lance_conversion.Arrow.{get_meta}
use duckdb_lance_conversion.Error.{bail_if, IsOk, Message}
use duckdb_lance_conversion.LanceDataset.{
  Named, generated_key, add_expression, generated, same_entry, agree_on, same_map,
  validate_generated_columns,
}

abbrev or_else : Option Str → Option Str → Option Str
or_else none b = b
or_else (some a) b = some a

-- The expression of a column: that of the last field of the name that has one.
abbrev pub expression_of : Str → List Named → Option Str
expression_of k [] = none
expression_of k ((n, md) ∷ fields) =
    or_else (expression_of k fields) (if same k n then get_meta generated_key md else none)

or_else_assoc : (a b c : Option Str) → or_else (or_else a b) c ≡ or_else a (or_else b c)
or_else_assoc none b c = refl
or_else_assoc (some a) b c = refl

add_expression-find :
    (k n : Str) (o : Option Str) (m : List (Str × Str))
    → find k (add_expression n o m) ≡ or_else (if same k n then o else none) (find k m)
add_expression-find k n none m = elim (Bool-cases (same k n)) [
  | inl e ↦ rw e refl
  | inr e ↦ rw e refl
]
add_expression-find k n (some v) m = elim (Bool-cases (same k n)) [
  | inl e ↦ rw e refl
  | inr e ↦ rw e refl
]

generated-find :
    (k : Str) (m : List (Str × Str)) (fields : List Named)
    → find k (generated m fields) ≡ or_else (expression_of k fields) (find k m)
unfolding generated
generated-find k m [] = refl
generated-find k m ((n, md) ∷ fields) =
    generated-find k (add_expression n (get_meta generated_key md) m) fields
    ∙ (ap (or_else (expression_of k fields)) (add_expression-find k n (get_meta generated_key md) m)
        ∙ sym (or_else_assoc (expression_of k fields) _ (find k m)))

same_entry→eq : (a b : Option Str) → same_entry a b ≡ true → a ≡ b
same_entry→eq none none h = refl
same_entry→eq none (some b) h = cc
same_entry→eq (some a) none h = cc
same_entry→eq (some a) (some b) h = ap some ((same_iff a b).0 h)

same_entry_refl : (a : Option Str) → same_entry a a ≡ true
same_entry_refl none = refl
same_entry_refl (some a) = same_refl a

and_true : (a b : Bool) → (a && b) ≡ true → (a ≡ true) × (b ≡ true)
and_true true b h = (refl, h)
and_true false b h = cc

module _ (a b : List (Str × Str)) where
  agree_on-found :
      (keys : List (Str × Str)) (k v : Str)
      → agree_on a b keys ≡ true
      → find k keys ≡ some v
      → find k a ≡ find k b
  unfolding agree_on
  agree_on-found [] k v h f = cc
  agree_on-found ((j, w) ∷ keys) k v h f =
      let (here, rest) = and_true (same_entry (find j a) (find j b)) (agree_on a b keys) h in
      elim (Bool-cases (same k j)) [
        | inl e ↦
            let k_is : k ≡ j = (same_iff k j).0 e in
            subst (λ x. find x a ≡ find x b) (sym k_is) (same_entry→eq (find j a) (find j b) here)
        | inr e ↦
            agree_on-found keys k v rest
              (subst (λ c. (if c then some w else find k keys) ≡ some v) e f)
      ]

  equal-agree_on :
      (keys : List (Str × Str)) → ((k : Str) → find k a ≡ find k b) → agree_on a b keys ≡ true
  unfolding agree_on
  equal-agree_on [] h = refl
  equal-agree_on ((j, w) ∷ keys) h =
      rw (h j, same_entry_refl (find j b), equal-agree_on keys h) refl

find-append : (k : Str) (a b : List (Str × Str)) → find k (a ++ b) ≡ or_else (find k a) (find k b)
find-append k [] b = refl
find-append k ((j, w) ∷ a) b = elim (Bool-cases (same k j)) [
  | inl e ↦ rw e refl
  | inr e ↦ rw e (find-append k a b)
]

agreed :
    (a b : List (Str × Str)) (k : Str) (x y : Option Str)
    → find k a ≡ x
    → find k b ≡ y
    → agree_on a b (a ++ b) ≡ true
    → find k a ≡ find k b
agreed a b k (some v) y e f h = agree_on-found a b (a ++ b) k v h (find-append k a b ∙ rw e refl)
agreed a b k none (some w) e f h =
    agree_on-found a b (a ++ b) k w h (find-append k a b ∙ rw (e, f) refl)
agreed a b k none none e f h = e ∙ sym f

same_map_iff : (a b : List (Str × Str)) → (same_map a b ≡ true) ↔ ((k : Str) → find k a ≡ find k b)
same_map_iff a b =
    (λ h k. agreed a b k (find k a) (find k b) refl refl h, λ h. equal-agree_on a b (a ++ b) h)

bailed_iff : (b : Bool) (m : Message) → IsOk (bail_if (if b then false else true) m) ↔ (b ≡ true)
bailed_iff true m = (λ h. refl, λ h. tt)
bailed_iff false m = (λ h. absurd h, λ h. cc)

plain_find : (k : Str) (fields : List Named) → find k (generated [] fields) ≡ expression_of k fields
plain_find k fields = generated-find k [] fields ∙ or_none (expression_of k fields)
  where
    or_none : (o : Option Str) → or_else o none ≡ o
    or_none none = refl
    or_none (some x) = refl

-- Rows may be appended exactly if every column has the same expression, or none, in the dataset and in
-- the rows' schema, in whatever order the columns stand.
pub validate_generated_columns_iff :
    (dataset schema : List Named)
    → IsOk (validate_generated_columns dataset schema)
      ↔ ((k : Str) → expression_of k dataset ≡ expression_of k schema)
unfolding validate_generated_columns
validate_generated_columns_iff dataset schema =
    let maps = same_map_iff (generated [] dataset) (generated [] schema) in
    let test = bailed_iff (same_map (generated [] dataset) (generated [] schema)) _ in
    (
      λ h k. sym (plain_find k dataset) ∙ (maps.0 (test.0 h) k ∙ plain_find k schema),
      λ h. test.1 (maps.1 (λ k. plain_find k dataset ∙ (h k ∙ sym (plain_find k schema)))),
    )
