-- ===== src/LanceDataset/Created.antt =====
-- What holds once a dataset writer is created.
use duckdb_lance_conversion.Base.{
  not_empty, ◌≡◌, ◌⊎◌, inl, inr, refl, ◌≢◌, ◌≤◌, sym, ap, subst, Option, none, some, [], map, Str,
  All, is_empty,
}
use duckdb_lance_conversion.Arrow.{Schema}
use duckdb_lance_conversion.Error.{
  bailed, ok-injective, ok, context, ok_or, IsOk, IsOk-of_eq, ok_or-of_ok, >>=-eq-ok,
}
use duckdb_lance_conversion.LanceSchema.{validate_schema}
use duckdb_lance_conversion.LanceIndex.{new_plan}
use duckdb_lance_conversion.LanceIndex.Planned.{IsIndexable, indexes_of, new_plan_iff}
use duckdb_lance_conversion.Storage.Open.{OpendalStorage, storage_at}
use duckdb_lance_conversion.LanceDataset.{
  LanceLibrary, WriteMode, create_mode, append_mode, overwrite_mode, s3_for, named, WriteOptions,
  Loaded, found, not_found, load_failed, DatasetWriter, create_writer, stored_schema, existing,
  check_appended,
}
use duckdb_lance_conversion.LanceDataset.Generated.{expression_of, validate_generated_columns_iff}

module _ (lib : LanceLibrary) where
  open lib use {storage, Dataset, dataset_fields}

  -- Rows appended to a dataset that exists compute its generated columns alike.
  abbrev pub AppendsAlike : WriteMode → Option Dataset → Schema → Type 0
  AppendsAlike append_mode (some dataset) schema =
      (k : Str)
      → expression_of k (dataset_fields dataset) ≡ expression_of k (map named schema.columns)
  AppendsAlike mode dataset schema = Unit {0}

  check_appended-AppendsAlike :
      (mode : WriteMode) (dataset : Option Dataset) (schema : Schema)
      → IsOk (check_appended lib mode dataset schema)
      → AppendsAlike mode dataset schema
  check_appended-AppendsAlike create_mode dataset schema h = tt
  check_appended-AppendsAlike overwrite_mode dataset schema h = tt
  check_appended-AppendsAlike append_mode none schema h = tt
  check_appended-AppendsAlike append_mode (some dataset) schema h =
      (validate_generated_columns_iff (dataset_fields dataset) (map named schema.columns)).0 h

  -- The writer goes to a location that the destination selects, and that is no storage root.
  abbrev pub IsDestination : Option Str → WriteOptions lib → DatasetWriter lib → Type 0
  IsDestination destination options writer =
      (path : Str) × (target : OpendalStorage storage) × (destination ≡ some path)
      × (storage_at storage path (s3_for lib path options.s3_config) options.opendal_config
          ≡ ok target)
      × (target.object_path ≢ [])
      × (writer.location ≡ target.location)

  -- The dataset to append to is the one that loading the location finds; none where loading finds none.
  abbrev pub IsLoaded : DatasetWriter lib → Type 0
  IsLoaded writer =
      ((d : Dataset) × (lib.load writer.location ≡ found d) × (writer.dataset ≡ some d))
      ⊎ ((lib.load writer.location ≡ not_found) × (writer.dataset ≡ none))

  existing-Loaded :
      (l : Loaded Dataset) (o : Option Dataset)
      → existing lib l ≡ ok o
      → ((d : Dataset) × (l ≡ found d) × (o ≡ some d)) ⊎ ((l ≡ not_found) × (o ≡ none))
  unfolding context
  existing-Loaded (found d) o e = inl (d, refl, cc)
  existing-Loaded not_found o e = inr (refl, cc)
  existing-Loaded (load_failed m) o e = cc

  -- A dataset writer is created only for a schema that Lance accepts, at a location that is no storage
  -- root, with at most one index for each column, on columns of the stored schema that support it. Loading
  -- that location found the writer's dataset, or found that there is none; and where rows are appended to a
  -- dataset, every column has the generated expression that it has there.
  pub create_writer-checks :
      (destination : Option Str) (schema : Schema) (options : WriteOptions lib)
      (writer : DatasetWriter lib)
      → create_writer lib destination schema options ≡ ok writer
      → IsOk (validate_schema schema.columns)
        × IsDestination destination options writer
        × ((stored : Schema) × (stored_schema lib schema options ≡ ok stored)
            × All (IsIndexable stored) options.indexes
            × ((k : Str) → indexes_of k options.indexes ≤ 1))
        × IsLoaded writer
        × AppendsAlike options.mode writer.dataset schema
  unfolding create_writer
  create_writer-checks destination schema options writer e =
      let (u, valid, e1) = >>=-eq-ok (validate_schema schema.columns) _ e in
      let (path, given, e2) = >>=-eq-ok (ok_or destination _) _ e1 in
      let (target, located, e3) =
        >>=-eq-ok
          (storage_at storage path (s3_for lib path options.s3_config) options.opendal_config) _
          e2 in
      let (no_root, e4) = bailed (is_empty target.object_path) _ _ writer e3 in
      let (stored, s, e5) = >>=-eq-ok (stored_schema lib schema options) _ e4 in
      let (indexes, i, e6) = >>=-eq-ok (new_plan stored options.indexes) _ e5 in
      let (dataset, d, e7) = >>=-eq-ok (existing lib (lib.load target.location)) _ e6 in
      let (v, appended, e8) = >>=-eq-ok (check_appended lib options.mode dataset schema) _ e7 in
      let (version, n, e9) = >>=-eq-ok (lib.parse_version options.storage_version) _ e8 in
      let made = ok-injective _ writer e9 in
      let planned = (new_plan_iff stored options.indexes).0 (IsOk-of_eq i) in
      (
        IsOk-of_eq valid,
        (
          path,
          target,
          ok_or-of_ok destination _ path given,
          located,
          not_empty target.object_path no_root,
          ap (λ (w : DatasetWriter lib). w.location) (sym made),
        ),
        (stored, s, planned.0, planned.1),
        subst IsLoaded made (existing-Loaded (lib.load target.location) dataset d),
        subst (λ d. AppendsAlike options.mode d schema)
            (ap (λ (w : DatasetWriter lib). w.dataset) made)
            (check_appended-AppendsAlike options.mode dataset schema (IsOk-of_eq appended)),
      )
