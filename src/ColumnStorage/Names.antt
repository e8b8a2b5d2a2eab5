-- ===== src/ColumnStorage/Names.antt =====
-- The names of the columns of a stored schema.
use duckdb_lance_conversion.Base.{
  ℕ, suc, ◌≡◌, refl, ◌∙◌, Bool, true, false, ◌&&◌, Option, none, some, List, [], ◌∷◌, map, Str,
  Bool-cases, inl, inr, ap,
}
use duckdb_lance_conversion.Arrow.{
  Field, field, name, data_type, is_nullable, metadata, with_metadata, Schema,
}
use duckdb_lance_conversion.Error.{
  Result, ok, ◌>>=◌, Yields, Yields-bind, Yields-ok, Yields-trivial,
}
use duckdb_lance_conversion.ColumnStorage.{
  StoragePolicy, text, blob, BlobFieldOptions, BlobOptions, is_blob, is_binary, storage_policy,
  atif_text, blob_field, extend_metadata, configure_binary, configure_field, map_type, stored_field,
  stored_fields, blob_schema, contains, promote, when_promoted, dedicated_threshold,
  uri_blob_columns, promotes_binary, is_text,
}

with_metadata-name : (f : Field) (m : List (Str × Str)) → name (with_metadata f m) ≡ name f
with_metadata-name (field n t b m) m' = refl

atif_text-name : (f : Field) → name (atif_text f) ≡ name f
unfolding atif_text
atif_text-name (field n t b m) = refl

module _ (blob_field_with_options : Str → Bool → BlobFieldOptions → Field)
    (named : (n : Str) (b : Bool) (o : BlobFieldOptions)
      → name (blob_field_with_options n b o) ≡ n) where
  Named : Field → Field → Type 0
  Named f f' = name f' ≡ name f

  blob_field-name :
      (f : Field) (o : BlobFieldOptions) → name (blob_field blob_field_with_options f o) ≡ name f
  unfolding blob_field
  blob_field-name f o =
      with_metadata-name (blob_field_with_options (name f) (is_nullable f) o) (
        extend_metadata (metadata f)
          (metadata (blob_field_with_options (name f) (is_nullable f) o)))
      ∙ named (name f) (is_nullable f) o

  blob_field-Named :
      (f : Field) (o : BlobFieldOptions) → Named f (blob_field blob_field_with_options f o)
  unfolding Named
  blob_field-Named f o = blob_field-name f o

  configure_binary-Named :
      (f : Field) (o : Option BlobFieldOptions) (nested : Result Field) (p : Option StoragePolicy)
      → Yields (Named f) nested
      → Yields (Named f) (configure_binary blob_field_with_options f o nested p)
  unfolding Named
  configure_binary-Named f o nested none h = h
  configure_binary-Named f o nested (some text) h = atif_text-name f
  configure_binary-Named f none nested (some blob) h = refl
  configure_binary-Named f (some o) nested (some blob) h = blob_field-name f o

  configure_field-Named :
      (o : Option BlobFieldOptions) (f : Field)
      → Yields (Named f) (configure_field blob_field_with_options o f)
  unfolding configure_field Named
  configure_field-Named o (field n t b m) =
      let own = field n t b m in
      let kept : Yields (Named own)
          (map_type blob_field_with_options t o >>= (λ t'. ok (field n t' b m))) =
        Yields-bind _ (Named own) (map_type blob_field_with_options t o) _
          (Yields-trivial (map_type blob_field_with_options t o)) (λ t' _. refl) in
      elim (Bool-cases (is_blob own)) [
        | inl e ↦ rw e refl
        | inr e ↦ elim (Bool-cases (is_binary t)) [
          | inl s ↦
              rw (e, s)
                (Yields-bind _ (Named own) (storage_policy own) _
                  (Yields-trivial (storage_policy own))
                  λ p _. configure_binary-Named own o _ p kept)
          | inr s ↦ rw (e, s) kept
        ]
      ]

  promote-Named :
      (f : Field) (promoted : Bool) (o : BlobFieldOptions) (t : Bool)
      → Yields (Named f) (promote blob_field_with_options f promoted o t)
  unfolding Named
  promote-Named f promoted o true = configure_field-Named (when_promoted promoted o) f
  promote-Named f promoted o false = blob_field-name f o

  stored_field-Named :
      (uris : List ℕ) (promoted : Bool) (o : BlobFieldOptions) (i : ℕ) (f : Field)
      → Yields (Named f) (stored_field blob_field_with_options uris promoted o i f)
  unfolding stored_field
  stored_field-Named uris promoted o i f = elim (Bool-cases (contains uris i)) [
    | inl e ↦ rw e (blob_field-Named f o)
    | inr e ↦ elim (Bool-cases (promoted && is_binary (data_type f))) [
      | inl s ↦
          rw (e, s)
            (Yields-bind _ (Named f) (storage_policy f) _ (Yields-trivial (storage_policy f))
              λ p _. promote-Named f promoted o (is_text p))
      | inr s ↦ rw (e, s) (configure_field-Named (when_promoted promoted o) f)
    ]
  ]

  stored_fields-names :
      (uris : List ℕ) (promoted : Bool) (o : BlobFieldOptions) (i : ℕ) (fs : List Field)
      → Yields
          (λ gs. map name gs ≡ map name fs)
          (stored_fields blob_field_with_options uris promoted o i fs)
  unfolding stored_fields Named
  stored_fields-names uris promoted o i [] = refl
  stored_fields-names uris promoted o i (f ∷ fs) =
      Yields-bind (Named f) _ (stored_field blob_field_with_options uris promoted o i f) _
        (stored_field-Named uris promoted o i f)
        λ g h.
          Yields-bind (λ gs. map name gs ≡ map name fs) _
            (stored_fields blob_field_with_options uris promoted o (suc i) fs) _
            (stored_fields-names uris promoted o (suc i) fs)
            λ gs k. ap (λ n. n ∷ map name gs) h ∙ ap (name f ∷◌) k

  -- The stored schema has the input's columns, in number, order and name, and its metadata, whatever the
  -- options. The crate's blob field bears the name that it is given.
  pub blob_schema-names :
      (input output : Schema) (o : BlobOptions)
      → blob_schema blob_field_with_options input o ≡ ok output
      → (map name output.columns ≡ map name input.columns) × (output.extra ≡ input.extra)
  unfolding blob_schema
  blob_schema-names input output o done =
      Yields-ok Kept (blob_schema blob_field_with_options input o) output done (
        Yields-bind _ Kept (dedicated_threshold o.blob_dedicated_size_threshold) _
          (Yields-trivial (dedicated_threshold o.blob_dedicated_size_threshold))
          λ dedicated _.
            Yields-bind _ Kept (uri_blob_columns input [] o.blob_columns) _
              (Yields-trivial (uri_blob_columns input [] o.blob_columns))
              λ uris _.
                let options : BlobFieldOptions = record {
                  inline_size_threshold = o.blob_inline_size_threshold;
                  dedicated_size_threshold = dedicated;
                } in
                Yields-bind (λ gs. map name gs ≡ map name input.columns) Kept
                  (stored_fields blob_field_with_options uris (promotes_binary o) options 0
                    input.columns)
                  _ (stored_fields-names uris (promotes_binary o) options 0 input.columns)
                  λ gs k. (k, refl))
    where
      Kept : Schema → Type 0
      Kept s = (map name s.columns ≡ map name input.columns) × (s.extra ≡ input.extra)
