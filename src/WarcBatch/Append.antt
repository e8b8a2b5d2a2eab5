-- ===== src/WarcBatch/Append.antt =====
-- The batch that a list of records makes, and what appending a record does to it.
use mathlib.Core.List.{map-append}
use duckdb_lance_conversion.Base.{
  ℕ, ◌+◌, ◌≤◌, ◌≡◌, refl, sym, ap, ◌∙◌, subst, Option-cases, true, false, Option, none, some, List,
  [], ◌∷◌, ◌++◌, map, All, length, length-append, get_elem?, set, sum, sum-append, u32_max, arith,
  inl, inr,
}
use duckdb_lance_conversion.Arrow.{Field}
use duckdb_lance_conversion.Error.{ok}
use duckdb_lance_conversion.WarcSchema.Projection.{IsDistinct}
use duckdb_lance_conversion.WarcBatch.{
  WarcRecord, WarcBatchBuilder, ProjectedColumnBuilder, body_column, is_some, take_empty,
  append_metadata, append_body, append_record, position, new_batch,
}
use duckdb_lance_conversion.WarcBatch.Columns.{
  HasNumbers, IsColumn, columns_of, new_columns-empty, append_cells-snoc,
}
use duckdb_lance_conversion.WarcBatch.BodyColumn.{columns_of-body}

abbrev pub body_of : Option (List ℕ) → List ℕ
body_of none = []
body_of (some body) = body

-- The bodies that a batch keeps: those of its records, or none if the column is not projected.
abbrev pub bodies : Option ℕ → List WarcRecord → List (List ℕ)
bodies none rs = []
bodies (some p) rs = map (λ (r : WarcRecord). body_of r.body) rs

-- The batch that a list of records makes.
unfoldable pub batch_of : List ℕ → List Field → List WarcRecord → WarcBatchBuilder
batch_of is schema rs = record {
  len = length rs;
  body_bytes = sum (map length (bodies (position 19 is) rs));
  projection = is;
  schema = schema;
  columns = columns_of is rs (bodies (position 19 is) rs);
  body_position = position 19 is;
}

pub bodies-nil : (o : Option ℕ) → bodies o [] ≡ []
bodies-nil none = refl
bodies-nil (some p) = refl

pub new_batch-empty :
    (is : List ℕ) (schema : List Field)
    → All IsColumn is
    → new_batch is schema ≡ ok (batch_of is schema [])
unfolding new_batch batch_of
new_batch-empty is schema h = rw (new_columns-empty is h, bodies-nil (position 19 is))

-- A record whose numeric headers can be read and whose body has the announced length.
pub record IsGood (r : WarcRecord) : Type 0 where
  pub numbers : HasNumbers r
  pub content : List ℕ
  pub buffered : r.body ≡ some content
  pub announced : length content ≡ r.content_length
  pub fits : r.content_length ≤ u32_max

batch_of_shape :
    (is : List ℕ) (schema : List Field) (rs : List WarcRecord)
    → ((batch_of is schema rs).projection ≡ is) × ((batch_of is schema rs).schema ≡ schema)
unfolding batch_of
batch_of_shape is schema rs = (refl, refl)

pub take_empty-batch_of :
    (is : List ℕ) (schema : List Field) (rs : List WarcRecord)
    → All IsColumn is
    → take_empty (batch_of is schema rs) ≡ ok (batch_of is schema rs, batch_of is schema [])
unfolding take_empty
take_empty-batch_of is schema rs h = same_shape (batch_of_shape is schema rs)
  where
    same_shape :
        ((batch_of is schema rs).projection ≡ is) × ((batch_of is schema rs).schema ≡ schema)
        → take_empty (batch_of is schema rs) ≡ ok (batch_of is schema rs, batch_of is schema [])
    same_shape (p, s) = rw (p, s) (rw (new_batch-empty is schema h))

bodies-snoc :
    (p : ℕ) (rs : List WarcRecord) (r : WarcRecord)
    → bodies (some p) (rs ++ (r ∷ [])) ≡ bodies (some p) rs ++ (body_of r.body ∷ [])
bodies-snoc p rs r = rw map-append

append_body-column :
    (b : WarcBatchBuilder) (body : List ℕ) (p : ℕ) (values : List (List ℕ))
    → b.body_position ≡ some p
    → get_elem? b.columns p ≡ some (body_column values)
    → length body ≤ u32_max
    → append_body b body
      ≡ ok (record b {
        columns = set b.columns p (body_column (values ++ (body ∷ [])));
        body_bytes = b.body_bytes + length body;
      })
unfolding append_body
append_body-column b body p values e f l = ground arith

module _ (is : List ℕ) (schema : List Field) (rs : List WarcRecord) (r : WarcRecord) where
  -- The batch with the new metadata, before its body.
  abbrev with_metadata : WarcBatchBuilder
  with_metadata = record {
    len = length rs;
    body_bytes = sum (map length (bodies (position 19 is) rs));
    projection = is;
    schema = schema;
    columns = columns_of is (rs ++ (r ∷ [])) (bodies (position 19 is) rs);
    body_position = position 19 is;
  }

  append_metadata-batch_of :
      All IsColumn is → HasNumbers r → append_metadata (batch_of is schema rs) r ≡ ok with_metadata
  unfolding append_metadata batch_of
  append_metadata-batch_of h g = rw (append_cells-snoc r rs (bodies (position 19 is) rs) is g h)

  batch_of-snoc :
      (bytes : ℕ) (columns : List ProjectedColumnBuilder)
      → bytes ≡ sum (map length (bodies (position 19 is) (rs ++ (r ∷ []))))
      → columns ≡ columns_of is (rs ++ (r ∷ [])) (bodies (position 19 is) (rs ++ (r ∷ [])))
      → record with_metadata { len = length rs + 1; body_bytes = bytes; columns = columns }
        ≡ batch_of is schema (rs ++ (r ∷ []))
  unfolding batch_of
  batch_of-snoc bytes columns e f = ground (arith, length-append rs (r ∷ []))

  bodies_one_more :
      (p : ℕ)
      → position 19 is ≡ some p
      → (content : List ℕ) → r.body ≡ some content
      → bodies (position 19 is) (rs ++ (r ∷ [])) ≡ bodies (position 19 is) rs ++ (content ∷ [])
  bodies_one_more p e content b =
      let same : body_of r.body ≡ content = ap body_of b in
      subst (λ (o : Option ℕ). bodies o (rs ++ (r ∷ [])) ≡ bodies o rs ++ (content ∷ [])) (sym e)
        (bodies-snoc p rs r ∙ ap (λ (c : List ℕ). bodies (some p) rs ++ (c ∷ [])) same)

  total_one_more :
      (old : List (List ℕ)) (content : List ℕ) {new : List (List ℕ)}
      → old ++ (content ∷ []) ≡ new
      → sum (map length old) + length content ≡ sum (map length new)
  total_one_more old content e =
      subst (λ (n : List (List ℕ)). sum (map length old) + length content ≡ sum (map length n)) e
        (rw map-append (omega (arith, sum-append (map length old) (length content ∷ []))))

  without_body :
      All IsColumn is
      → HasNumbers r
      → position 19 is ≡ none
      → append_record (is_some (position 19 is)) (batch_of is schema rs) r
        ≡ ok (batch_of is schema (rs ++ (r ∷ [])))
  unfolding append_record
  without_body h g e =
      let off : is_some (position 19 is) ≡ false = rw e in
      rw (append_metadata-batch_of h g, off) (ap ok (batch_of-snoc _ _ (rw e) (rw e)))

  with_body :
      (p : ℕ)
      → All IsColumn is
      → IsDistinct is
      → IsGood r
      → position 19 is ≡ some p
      → append_record (is_some (position 19 is)) (batch_of is schema rs) r
        ≡ ok (batch_of is schema (rs ++ (r ∷ [])))
  unfolding append_record
  with_body p h d g e =
      let on : is_some (position 19 is) ≡ true = rw e in
      let old = bodies (position 19 is) rs in
      let one_more : bodies (position 19 is) (rs ++ (r ∷ [])) ≡ old ++ (g.content ∷ []) =
        bodies_one_more p e g.content g.buffered in
      let at_body = columns_of-body is (rs ++ (r ∷ [])) old (old ++ (g.content ∷ [])) p d e in
      let short : length g.content ≤ u32_max = omega arith in
      simp
        (
          append_metadata-batch_of h g.numbers,
          on,
          g.buffered,
          append_body-column with_metadata g.content p old e at_body.0 short,
        )
        (ap ok (
          batch_of-snoc _ _ (total_one_more old g.content (sym one_more))
            (at_body.1 ∙ ap (columns_of is (rs ++ (r ∷ []))) (sym one_more))))

  -- Appending a good record to the batch of some records gives the batch of one record more.
  pub append_record-batch_of :
      All IsColumn is
      → IsDistinct is
      → IsGood r
      → append_record (is_some (position 19 is)) (batch_of is schema rs) r
        ≡ ok (batch_of is schema (rs ++ (r ∷ [])))
  append_record-batch_of h d g = elim (Option-cases (position 19 is)) [
    | inl e ↦ without_body h g.numbers e
    | inr (p, e) ↦ with_body p h d g e
  ]
