-- ===== src/Atif/Schema/Names.antt =====
-- The storage policies that the embedded schema states, as the sink reads them.
use duckdb_lance_conversion.Base.{◌≡◌, refl, Bool, some, Str, codes, same}
use duckdb_lance_conversion.Arrow.{
  Field, field, DataType, large_binary, name, data_type, is_nullable, Metadata, insert_meta,
  get-insert_meta, get-insert_other,
}
use duckdb_lance_conversion.Error.{ok}
use duckdb_lance_conversion.ColumnStorage.{StoragePolicy, text, blob, storage_policy}
use duckdb_lance_conversion.Atif.Schema.{source_type, policy_at, marked, embedded_field}

-- What the sink finds on a field with such metadata.
policy-marked :
    (n : Str) (t : DataType) (b : Bool) (m : Metadata) (policy : StoragePolicy)
    → storage_policy (field n t b (marked (some policy) m)) ≡ ok (some policy)
unfolding storage_policy same
policy-marked n t b m text =
    rw
      (
        get-insert_other source_type (codes "lance_conversion:storage_policy") (codes "text")
            (insert_meta source_type (codes "atif") m) refl,
        get-insert_meta source_type (codes "atif") m,
        get-insert_meta (codes "lance_conversion:storage_policy") (codes "text")
            (insert_meta source_type (codes "atif") m),
      )
      refl
policy-marked n t b m blob =
    rw
      (
        get-insert_other source_type (codes "lance_conversion:storage_policy") (codes "blob")
            (insert_meta source_type (codes "atif") m) refl,
        get-insert_meta source_type (codes "atif") m,
        get-insert_meta (codes "lance_conversion:storage_policy") (codes "blob")
            (insert_meta source_type (codes "atif") m),
      )
      refl

-- The shape of a field with a policy.
abbrev pub HasShape : StoragePolicy → Field → Field → Type 0
HasShape text f g = (name g ≡ name f) × (is_nullable g ≡ is_nullable f)
HasShape blob f g =
    (name g ≡ name f) × (is_nullable g ≡ is_nullable f) × (data_type g ≡ large_binary)

field-HasShape :
    (path n : Str) (t : DataType) (b : Bool) (m : Metadata) (policy : StoragePolicy)
    → policy_at path ≡ some policy
    → HasShape policy (field n t b m) (embedded_field path (field n t b m))
unfolding embedded_field
field-HasShape path n t b m text e = (refl, refl)
field-HasShape path n t b m blob e = (refl, refl, rw e refl)

-- Where the embedded schema gives a field a storage policy, the sink reads that policy back from the field's
-- metadata, whatever metadata the field had; the field keeps its name and whether it may be null, and
-- a blob is binary.
pub embedded_field-policy :
    (path : Str) (f : Field) (policy : StoragePolicy)
    → policy_at path ≡ some policy
    → (storage_policy (embedded_field path f) ≡ ok (some policy))
      × HasShape policy f (embedded_field path f)
unfolding embedded_field
embedded_field-policy path (field n t b m) policy e =
    (rw e (policy-marked n _ b m policy), field-HasShape path n t b m policy e)
