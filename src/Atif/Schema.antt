-- ===== src/Atif/Schema.antt =====
-- rust/src/source/atif/media.rs, `embedded_schema`: the schema of trajectories with their media in place.
pub mod Names
use duckdb_lance_conversion.Base.{
  Bool, true, false, ◌||◌, Option, none, some, List, [], ◌∷◌, ◌++◌, Str, codes, same, map,
  if◌then◌else◌,
}
use duckdb_lance_conversion.Arrow.{
  DataType, struct, list, large_binary, Field, field, Fields, no_fields, fields, Metadata, name,
  insert_meta, Schema,
}
use duckdb_lance_conversion.ColumnStorage.{StoragePolicy, text, blob}

abbrev pub source_type : Str
source_type = codes "lance_conversion:source_type"

unfoldable pub policy_at : Str → Option StoragePolicy
policy_at path =
    if same path (codes "steps.message.text")
      || same path (codes "steps.observation.results.content.text")
    then some text
    else if same path (codes "steps.message.source.path")
        || same path (codes "steps.observation.results.content.source.path")
    then some blob
    else none

abbrev policy_text : StoragePolicy → Str
policy_text text = codes "text"
policy_text blob = codes "blob"

abbrev pub marked : Option StoragePolicy → Metadata → Metadata
marked none m = m
marked (some policy) m =
    insert_meta (codes "lance_conversion:storage_policy") (policy_text policy)
      (insert_meta source_type (codes "atif") m)

abbrev is_blob_policy : Option StoragePolicy → Bool
is_blob_policy none = false
is_blob_policy (some text) = false
is_blob_policy (some blob) = true

unfoldable mutual
  unfolding policy_at

  pub embedded_field : Str → Field → Field
  embedded_field path (field n t nullable m) =
      let inner = embedded_type path t in
      field n (if is_blob_policy (policy_at path) then large_binary else inner) nullable
        (marked (policy_at path) m)

  pub embedded_type : Str → DataType → DataType
  embedded_type path (struct fs) = struct (embedded_fields path fs)
  embedded_type path (list item) = list (embedded_field path item)
  embedded_type path t = t

  pub embedded_fields : Str → Fields → Fields
  embedded_fields path no_fields = no_fields
  embedded_fields path (fields f fs) =
      fields (embedded_field (path ++ (b'.' ∷ name f)) f) (embedded_fields path fs)

-- The schema of trajectories is the crate's.
unfoldable pub embedded_schema : Schema → Schema
unfolding embedded_field
embedded_schema trajectories = record {
  columns = map (λ f. embedded_field (name f) f) trajectories.columns;
  extra = insert_meta source_type (codes "atif") trajectories.extra;
}
