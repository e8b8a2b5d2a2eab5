-- ===== src/HuggingFace.antt =====
-- rust/src/source/huggingface.rs: a split of a Hugging Face dataset, read from its Parquet conversion.
mod Shards
mod Examples
use duckdb_lance_conversion.Base.{
  ℕ, Bool, true, false, ◌&&◌, ◌||◌, Option, none, some, List, [], ◌∷◌, ◌++◌, Str, codes, is_empty,
  ends_with, if◌then◌else◌,
}
use duckdb_lance_conversion.Error.{
  Result, ok, err, ◌>>=◌, ◌>>◌, map_ok, bail_if, fail, context, lit, txt, Message,
}
use duckdb_lance_conversion.FfiConfig.{before}
use duckdb_lance_conversion.Metrics.{ReadMetrics}
use duckdb_lance_conversion.Source.{
  SourceReadOptions, default_max_read_parallelism, validate_read_options,
}
use duckdb_lance_conversion.Storage.Open.{StorageLibrary, Config, check, huggingface_operator}
use duckdb_lance_conversion.ParquetRead.Open.{ParquetLibrary, Stream, open_parquet_paths}

abbrev default_batch_size : ℕ
default_batch_size = 8192

abbrev default_read_ahead_bytes : ℕ
default_read_ahead_bytes = 33_554_432

abbrev parquet_revision : Str
parquet_revision = codes "refs/convert/parquet"

-- An entry of a listing: its path, and whether it is a file.
abbrev pub Entry : Type 0
Entry = Str × Bool

unfoldable pub shard_paths : List Entry → List Str
unfolding ends_with
shard_paths [] = []
shard_paths ((path, is_file) ∷ entries) =
    let rest = shard_paths entries in
    if is_file && ends_with (codes ".parquet") path then path ∷ rest else rest

-- `sort_unstable` on paths.
unfoldable pub insert_path : Str → List Str → List Str
insert_path p [] = p ∷ []
insert_path p (q ∷ qs) = if before q p then q ∷ insert_path p qs else p ∷ q ∷ qs

unfoldable pub sort_paths : List Str → List Str
unfolding insert_path
sort_paths [] = []
sort_paths (p ∷ ps) = insert_path p (sort_paths ps)

unfoldable pub list_parquet_files : (Str → Result (List Entry)) → Str → Result (List Str)
unfolding shard_paths sort_paths
list_parquet_files list directory =
    context (list directory) (lit "listing " ∷ txt directory ∷ [])
    >>= (λ entries. ok (sort_paths (shard_paths entries)))

-- The loop over the directories: the first that has shards.
unfoldable pub first_directory : (Str → Result (List Entry)) → List Str → Result (List Str)
unfolding list_parquet_files
first_directory list [] = fail (lit "source contains no Parquet shards" ∷ [])
first_directory list (directory ∷ directories) =
    let rest = first_directory list directories in
    list_parquet_files list directory >>= (λ paths. if is_empty paths then rest else ok paths)

-- What the source uses of its crates: the storage library, an operator's listing, and the Parquet reader
-- over it.
pub record HuggingFaceLibrary : Type 1 where
  pub storage : StorageLibrary
  pub list : storage.Operator → Str → Result (List Entry)
  pub parquet : storage.Operator → ParquetLibrary

module _ (lib : HuggingFaceLibrary) where
  open lib use {storage, list, parquet}

  pub record HuggingFaceSource : Type 0 where
    pub dataset : Str
    pub config : Str
    pub split : Str
    pub token : Option Str
    pub preserve_insertion_order : Bool
    pub projection : Option (List ℕ)
    pub read_options : SourceReadOptions
    pub read_ahead_bytes : ℕ
    pub opendal_config : Config storage

  unfoldable pub new_source : Config storage → Str → HuggingFaceSource
  new_source default_config dataset = record {
    dataset = dataset;
    config = codes "default";
    split = codes "train";
    token = none;
    preserve_insertion_order = true;
    projection = none;
    read_options = record { max_read_parallelism = default_max_read_parallelism };
    read_ahead_bytes = default_read_ahead_bytes;
    opendal_config = default_config;
  }

  unfoldable pub validate_source : HuggingFaceSource → Result (Unit {0})
  validate_source s =
      bail_if (is_empty s.dataset || (is_empty s.config || is_empty s.split))
        (lit "dataset, config, and split must not be empty" ∷ [])

  -- `<config>/<split>/`, and the directory of a split that is only converted in part.
  abbrev pub directories : HuggingFaceSource → List Str
  directories s =
      (s.config ++ (b'/' ∷ (s.split ++ codes "/")))
      ∷ (s.config ++ (codes "/partial-" ++ (s.split ++ codes "/")))
      ∷ []

  unfoldable pub parquet_files : HuggingFaceSource → storage.Operator → Result (List Str)
  unfolding first_directory
  parquet_files s operator = first_directory (list operator) (directories s)

  abbrev source_context : HuggingFaceSource → Message
  source_context s =
      lit "reading Hugging Face dataset '"
      ∷ txt s.dataset
      ∷ lit "' config '"
      ∷ txt s.config
      ∷ lit "' split '"
      ∷ txt s.split
      ∷ lit "'"
      ∷ []

  -- The checks and the listing of `open`: the operator, and the shards to read.
  unfoldable pub located : HuggingFaceSource → Result (storage.Operator × List Str)
  unfolding parquet_files validate_source
  located s = do
    _ ← validate_source s
    _ ← check storage s.opendal_config
    _ ← validate_read_options s.read_options
    operator ← huggingface_operator storage s.dataset parquet_revision s.token s.opendal_config
    paths ← context (parquet_files s operator) (source_context s)
    ok (operator, paths)

  -- What an opened source returns, by the operator that it reads through.
  abbrev pub Opened : Type 0
  Opened =
      (operator : storage.Operator) × (List ((parquet operator).Field) × Stream (parquet operator))

  abbrev pub tagged :
      HuggingFaceSource
      → (operator : storage.Operator)
      → ReadMetrics × Result (List ((parquet operator).Field) × Stream (parquet operator))
      → ReadMetrics × Result Opened
  tagged s operator (m, r) = (m, context (map_ok (λ o. (operator, o)) r) (source_context s))

  abbrev pub open_shards :
      HuggingFaceSource
      → ReadMetrics
      → Result (storage.Operator × List Str)
      → ReadMetrics × Result Opened
  open_shards s m (err e) = (m, err e)
  open_shards s m (ok (operator, paths)) = tagged s operator (
      open_parquet_paths (parquet operator) paths default_batch_size s.preserve_insertion_order
        s.read_options.max_read_parallelism s.projection m)

  unfoldable pub open_huggingface : HuggingFaceSource → ReadMetrics → ReadMetrics × Result Opened
  unfolding located
  open_huggingface s m = open_shards s m (located s)
