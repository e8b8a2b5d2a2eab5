-- ===== src/HuggingFace/Examples.antt =====
-- A split that is converted in part, with two shards.
use duckdb_lance_conversion.Base.{
  inr, ◌≡◌, refl, true, false, List, [], ◌∷◌, Str, codes, same, if◌then◌else◌,
}
use duckdb_lance_conversion.Error.{Result, ok}
use duckdb_lance_conversion.ParquetRead.Open.{ParquetLibrary}
use duckdb_lance_conversion.Storage.Sample.{default_config, library}
use duckdb_lance_conversion.HuggingFace.{
  Entry, HuggingFaceLibrary, HuggingFaceSource, new_source, directories, parquet_files,
}
use duckdb_lance_conversion.HuggingFace.Shards.{Chosen, parquet_files-Chosen}

abbrev listing : Str → List Entry
listing directory =
    if same directory (codes "default/partial-train/")
    then (codes "b.parquet", true) ∷ (codes "sub", false) ∷ (codes "a.parquet", true) ∷ []
    else []

-- Files without row groups.
abbrev empty_files : ParquetLibrary
empty_files = record {
  Field = Unit {0};
  Array = Unit {0};
  Metadata = Unit {0};
  same_schema = λ a b. true;
  load_async = λ path. ([], inr tt);
  schema = λ metadata. tt ∷ [];
  chunk_sizes = λ metadata. [];
  leaf_included = λ metadata roots leaf. true;
  build = λ path metadata roots batch_size index. inr [];
  flatten_unordered = λ parallelism streams. [];
}

abbrev hub : HuggingFaceLibrary
hub = record {
  storage = library;
  list = λ operator directory. ok (listing directory);
  parquet = λ operator. empty_files;
}

abbrev source : HuggingFaceSource hub
source = new_source hub default_config (codes "owner/name")

finds :
    parquet_files hub source (codes "owner/name") ≡ ok (codes "a.parquet" ∷ codes "b.parquet" ∷ [])
unfolding parquet_files new_source same duckdb_lance_conversion.Error.context
    duckdb_lance_conversion.FfiConfig.before
finds = refl

parquet_files-Chosen_example :
    Chosen
      (hub.list (codes "owner/name"))
      (directories hub source)
      (codes "a.parquet" ∷ codes "b.parquet" ∷ [])
parquet_files-Chosen_example =
    parquet_files-Chosen hub source (codes "owner/name")
      (codes "a.parquet" ∷ codes "b.parquet" ∷ []) finds
