-- ===== src/ColumnStorage.antt =====
-- rust/src/sink/lance/column_storage.rs and column_storage/atif.rs: which columns Lance stores as blobs, on
-- the schema. The blob fields themselves are built by the crate `lance`.
mod Names
mod Examples
use duckdb_lance_conversion.Base.{
  ℕ, suc, ◌==◌, Bool, true, false, ◌&&◌, ◌||◌, Option, none, some, List, [], ◌∷◌, ◌++◌, Str, String,
  codes, same, is_empty, get_elem?, if◌then◌else◌,
}
use duckdb_lance_conversion.Arrow.{
  DataType, utf8, large_utf8, utf8_view, binary, large_binary, binary_view, list, large_list,
  struct, Field, field, Fields, no_fields, fields, Metadata, name, data_type, is_nullable, metadata,
  with_metadata, with_data_type, get_meta, insert_meta, Schema, index_of,
}
use duckdb_lance_conversion.Error.{Result, ok, err, ◌>>=◌, ◌>>◌, fail, bail_if, ok_or, lit, txt}

pub data StoragePolicy : Type 0 where
  text blob : StoragePolicy

unfoldable pub is_binary : DataType → Bool
is_binary binary = true
is_binary large_binary = true
is_binary binary_view = true
is_binary _ = false

abbrev is_value : String → Option Str → Bool
is_value value none = false
is_value value (some v) = same v (codes value)

unfoldable pub is_blob : Field → Bool
is_blob f = is_value "lance.blob.v2" (get_meta (codes "ARROW:extension:name") (metadata f))

abbrev policy_of : Option Str → Result (Option StoragePolicy)
policy_of none = ok none
policy_of (some policy) =
    if same policy (codes "text")
    then ok (some text)
    else if same policy (codes "blob")
    then ok (some blob)
    else fail (lit "invalid ATIF storage policy: " ∷ txt policy ∷ [])

unfoldable pub storage_policy : Field → Result (Option StoragePolicy)
storage_policy f =
    if is_value "atif" (get_meta (codes "lance_conversion:source_type") (metadata f))
    then policy_of (get_meta (codes "lance_conversion:storage_policy") (metadata f))
    else ok none

-- `entry(..).or_insert_with(..)`.
abbrev or_insert : Str → Str → Option Str → Metadata → Metadata
or_insert key value none m = insert_meta key value m
or_insert key value (some v) m = m

unfoldable pub atif_text : Field → Field
atif_text f =
    let compression = codes "lance-encoding:compression" in
    with_metadata (with_data_type f large_binary)
      (or_insert compression (codes "lz4") (get_meta compression (metadata f)) (metadata f))

-- What the code sets of `BlobFieldOptions`; an unset threshold keeps the crate's default.
pub record BlobFieldOptions : Type 0 where
  pub inline_size_threshold : Option ℕ
  pub dedicated_size_threshold : Option ℕ

-- What the schema reads of `WriteOptions`.
pub record BlobOptions : Type 0 where
  pub blob_inline_size_threshold : Option ℕ
  pub blob_dedicated_size_threshold : Option ℕ
  pub blob_columns : List Str

abbrev extend_metadata : Metadata → Metadata → Metadata
extend_metadata m [] = m
extend_metadata m ((k, v) ∷ more) = extend_metadata (insert_meta k v m) more

abbrev is_set : Option ℕ → Bool
is_set none = false
is_set (some n) = true

unfoldable pub ensure_uri_column : DataType → Str → Result (Unit {0})
ensure_uri_column utf8 column = ok tt
ensure_uri_column large_utf8 column = ok tt
ensure_uri_column utf8_view column = ok tt
ensure_uri_column _ column = fail (lit "BLOB_COLUMNS column must be a string: " ∷ txt column ∷ [])

abbrev pub contains : List ℕ → ℕ → Bool
contains [] i = false
contains (j ∷ js) i = j == i || contains js i

-- `input_schema.field(index)` panics out of range, which `index_of` excludes.
abbrev ensure_uri_field : Option Field → Str → Result (Unit {0})
ensure_uri_field none column = ok tt
ensure_uri_field (some f) column = ensure_uri_column (data_type f) column

-- The loop over the blob columns; the set stands as a list.
unfoldable pub uri_blob_columns : Schema → List ℕ → List Str → Result (List ℕ)
uri_blob_columns schema seen [] = ok seen
uri_blob_columns schema seen (column ∷ columns) = do
  index ← ok_or (index_of schema column) (lit "BLOB_COLUMNS column not found: " ∷ txt column ∷ [])
  _ ← ensure_uri_field (get_elem? schema.columns index) column
  bail_if (contains seen index) (lit "BLOB_COLUMNS cannot contain duplicate columns" ∷ [])
  uri_blob_columns schema (index ∷ seen) columns

unfoldable pub dedicated_threshold : Option ℕ → Result (Option ℕ)
dedicated_threshold none = ok none
dedicated_threshold (some n) =
    if n == 0
    then fail (lit "blob dedicated size threshold must be greater than zero" ∷ [])
    else ok (some n)

abbrev pub promotes_binary : BlobOptions → Bool
promotes_binary o =
    is_set o.blob_inline_size_threshold
    || (is_set o.blob_dedicated_size_threshold || (if is_empty o.blob_columns then false else true))

abbrev is_text : Option StoragePolicy → Bool
is_text none = false
is_text (some text) = true
is_text (some blob) = false

abbrev when_promoted : Bool → BlobFieldOptions → Option BlobFieldOptions
when_promoted false options = none
when_promoted true options = some options

module _ (blob_field_with_options : Str → Bool → BlobFieldOptions → Field) where
  unfoldable pub blob_field : Field → BlobFieldOptions → Field
  blob_field f options =
      let stored = blob_field_with_options (name f) (is_nullable f) options in
      with_metadata stored (extend_metadata (metadata f) (metadata stored))

  abbrev blob_or_kept : Field → Option BlobFieldOptions → Field
  blob_or_kept f none = f
  blob_or_kept f (some options) = blob_field f options

  -- A binary field under its policy; `nested` is the rest of `configure_field`.
  abbrev configure_binary :
      Field → Option BlobFieldOptions → Result Field → Option StoragePolicy → Result Field
  configure_binary f options nested (some text) = ok (atif_text f)
  configure_binary f options nested (some blob) = ok (blob_or_kept f options)
  configure_binary f options nested none = nested

  unfoldable mutual
    pub configure_field : Option BlobFieldOptions → Field → Result Field
    configure_field options (field n t nullable m) =
        let nested = map_type t options >>= (λ t'. ok (field n t' nullable m)) in
        if is_blob (field n t nullable m)
        then ok (field n t nullable m)
        else if is_binary t
        then storage_policy (field n t nullable m)
          >>= (λ policy. configure_binary (field n t nullable m) options nested policy)
        else nested

    pub map_type : DataType → Option BlobFieldOptions → Result DataType
    map_type (struct fs) options = configure_fields options fs >>= (λ fs'. ok (struct fs'))
    map_type (list f) options = configure_field options f >>= (λ f'. ok (list f'))
    map_type (large_list f) options = configure_field options f >>= (λ f'. ok (large_list f'))
    map_type t options = ok t

    pub configure_fields : Option BlobFieldOptions → Fields → Result Fields
    configure_fields options no_fields = ok no_fields
    configure_fields options (fields f fs) = do
      f' ← configure_field options f
      fs' ← configure_fields options fs
      ok (fields f' fs')

  abbrev promote : Field → Bool → BlobFieldOptions → Bool → Result Field
  promote f promoted options true = configure_field (when_promoted promoted options) f
  promote f promoted options false = ok (blob_field f options)

  -- One column of the stored schema.
  unfoldable pub stored_field : List ℕ → Bool → BlobFieldOptions → ℕ → Field → Result Field
  stored_field uris promoted options index f =
      if contains uris index
      then ok (blob_field f options)
      else if promoted && is_binary (data_type f)
      then storage_policy f >>= (λ policy. promote f promoted options (is_text policy))
      else configure_field (when_promoted promoted options) f

  unfoldable pub stored_fields :
      List ℕ → Bool → BlobFieldOptions → ℕ → List Field → Result (List Field)
  stored_fields uris promoted options index [] = ok []
  stored_fields uris promoted options index (f ∷ fs) = do
    f' ← stored_field uris promoted options index f
    fs' ← stored_fields uris promoted options (suc index) fs
    ok (f' ∷ fs')

  unfoldable pub blob_schema : Schema → BlobOptions → Result Schema
  unfolding stored_fields uri_blob_columns
  blob_schema input o = do
    dedicated ← dedicated_threshold o.blob_dedicated_size_threshold
    uris ← uri_blob_columns input [] o.blob_columns
    columns ←
        stored_fields uris (promotes_binary o)
          (record {
            inline_size_threshold = o.blob_inline_size_threshold;
            dedicated_size_threshold = dedicated;
          })
          0 input.columns
    ok (record { columns = columns; extra = input.extra })
