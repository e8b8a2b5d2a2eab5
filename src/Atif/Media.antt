-- ===== src/Atif/Media.antt =====
-- rust/src/source/atif/media.rs: where the media of a content part are, and reading them.
use duckdb_lance_conversion.Base.{
  ℕ, Bool, true, false, ◌||◌, Option, none, some, List, [], ◌∷◌, ◌++◌, Str, codes, same, is_empty,
  length, ◌==◌, starts_with, ends_with, if◌then◌else◌,
}
use duckdb_lance_conversion.Error.{
  Result, ok, err, ◌>>=◌, ◌>>◌, map_ok, bail_if, ok_or, fail, context, lit, txt, from_cause,
  parse_error,
}
use duckdb_lance_conversion.Metrics.{ReadMetrics, add_total_bytes, add_bytes_read}
use duckdb_lance_conversion.Storage.Open.{StorageLibrary, S3StorageConfig, Config}
use duckdb_lance_conversion.Storage.Input.{InputFile, open_input}

pub data ContentType : Type 0 where
  text image audio : ContentType

unfoldable pub content_type : Str → Result ContentType
content_type kind =
    if same kind (codes "text")
    then ok text
    else if same kind (codes "image")
    then ok image
    else if same kind (codes "audio")
    then ok audio
    else fail (lit "unsupported ATIF content type: " ∷ txt kind ∷ [])

-- What the media use of their crates beside the storage: URLs, base64, and an object's bytes. `parent` is that of
-- a path, `join_url` a reference against a base.
pub record MediaLibrary : Type 1 where
  pub storage : StorageLibrary
  pub join_url : storage.Url → Str → Option storage.Url
  pub port_or_known_default : storage.Url → Option ℕ
  pub username : storage.Url → Str
  pub password : storage.Url → Option Str
  pub parent : Str → Option Str
  pub percent_bytes : Str → List ℕ
  pub base64 : List ℕ → Option (List ℕ)
  pub stat : storage.Operator → Str → Result ℕ
  pub object : storage.Operator → Str → ℕ → Result (List (List ℕ))

abbrev pub same_text : Option Str → Option Str → Bool
same_text none none = true
same_text none (some b) = false
same_text (some a) none = false
same_text (some a) (some b) = same a b

abbrev pub same_number : Option ℕ → Option ℕ → Bool
same_number none none = true
same_number none (some b) = false
same_number (some a) none = false
same_number (some a) (some b) = a == b

abbrev pub is_given : Option Str → Bool
is_given none = false
is_given (some s) = true

-- `split_once(',')`.
unfoldable pub split_once : ℕ → Str → Option (Str × Str)
split_once sep [] = none
split_once sep (c ∷ cs) =
    let rest = split_once sep cs in
    if c == sep
    then some ([], cs)
    else elim rest [ none ↦ none | some (before, after) ↦ some (c ∷ before, after) ]

-- One row of a content part: its type, whether it has a source, and the source's path.
pub record ContentPart : Type 0 where
  pub kind : Str
  pub has_source : Bool
  pub path : Option Str

module _ (lib : MediaLibrary) where
  open lib use {
    storage, join_url, port_or_known_default, username, password, parent, percent_bytes, base64,
    stat, object,
  }
  open storage use {
    Url, parse_url, scheme, host_str, url_text, to_file_path, is_absolute, join_path,
  }

  abbrev pub is_remote : Str → Bool
  is_remote s = same s (codes "s3") || (same s (codes "http") || same s (codes "https"))

  abbrev pub foreign : Url → Url → Bool
  foreign base target =
      (if same (scheme target) (scheme base) then false else true)
      || ((if same_text (host_str target) (host_str base) then false else true)
          || ((if same_number (port_or_known_default target) (port_or_known_default base)
                then false
                else true)
              || ((if is_empty (username target) then false else true)
                  || is_given (password target))))

  abbrev pub joined : Option Url → Result Url
  joined none = err (from_cause (parse_error []))
  joined (some u) = ok u

  -- A reference in a remote document.
  abbrev pub remote_uri : Url → Str → Result Str
  remote_uri base reference = do
    target ← joined (join_url base reference)
    bail_if (foreign base target)
        (lit "ATIF remote media must use the trajectory's storage origin" ∷ [])
    ok (url_text target)

  abbrev file_uri : Option Str → Result Str
  file_uri none = fail (lit "invalid ATIF media file URI" ∷ [])
  file_uri (some path) = ok path

  abbrev beside : Str → Str → Option Str → Str
  beside document reference none = join_path (codes ".") reference
  beside document reference (some dir) = join_path dir reference

  abbrev local_url : Str → Str → Option Url → Result Str
  local_url document reference none = ok (beside document reference (parent document))
  local_url document reference (some url) =
      if same (scheme url) (codes "file")
      then file_uri (to_file_path url)
      else if is_remote (scheme url)
      then ok (url_text url)
      else fail (lit "unsupported ATIF media scheme: " ∷ txt (scheme url) ∷ [])

  -- A reference in a local document.
  abbrev pub local_uri : Str → Str → Result Str
  local_uri document reference =
      if is_absolute reference
      then ok reference
      else local_url document reference (parse_url reference)

  abbrev pub located_uri : Str → Str → Option Url → Result Str
  located_uri document reference none = local_uri document reference
  located_uri document reference (some base) =
      if is_remote (scheme base) then remote_uri base reference else local_uri document reference

  abbrev pub is_data : Str → Bool
  is_data uri = starts_with (codes "data:") uri

  unfoldable pub resolve_uri : Str → Str → Result Str
  resolve_uri document reference =
      if is_data reference
      then ok reference
      else located_uri document reference (parse_url document)

  unfoldable pub decode_data_uri : Str → Result (List ℕ)
  unfolding split_once
  decode_data_uri uri = do
    parts ← ok_or (split_once b',' uri) (lit "invalid ATIF media data URI" ∷ [])
    if ends_with (codes ";base64") parts.0
        then ok_or (base64 (percent_bytes parts.1)) (lit "invalid ATIF media base64" ∷ [])
        else ok (percent_bytes parts.1)

  pub record MediaResolver : Type 0 where
    pub document : Str
    pub s3_config : Option S3StorageConfig
    pub opendal_config : Config storage

  abbrev pub concat : List (List ℕ) → List ℕ
  concat [] = []
  concat (chunk ∷ chunks) = chunk ++ concat chunks

  -- The reads, each counted.
  unfoldable pub count_chunks : ReadMetrics → List (List ℕ) → ReadMetrics
  unfolding add_bytes_read
  count_chunks m [] = m
  count_chunks m (chunk ∷ chunks) = count_chunks (add_bytes_read m (length chunk)) chunks

  abbrev pub whole : ReadMetrics → ℕ → Result (List (List ℕ)) → ReadMetrics × Result (List ℕ)
  whole m size (err e) = (m, err e)
  whole m size (ok chunks) = (
    count_chunks m chunks,
    (bail_if (if length (concat chunks) == size then false else true)
          (lit "ATIF media size changed during read" ∷ [])
        >> ok (concat chunks)),
  )

  abbrev pub sized : ReadMetrics → InputFile storage → Result ℕ → ReadMetrics × Result (List ℕ)
  sized m input (err e) = (m, err e)
  sized m input (ok size) =
      whole (add_total_bytes m size) size (object input.operator input.opendal_path size)

  abbrev pub opened : ReadMetrics → Result (InputFile storage) → ReadMetrics × Result (List ℕ)
  opened m (err e) = (m, err e)
  opened m (ok input) = sized m input (stat input.operator input.opendal_path)

  abbrev pub s3_for : Str → Option S3StorageConfig → Option S3StorageConfig
  s3_for uri config = if starts_with (codes "s3://") uri then config else none

  -- `MediaResolver::read`.
  unfoldable pub read_media : MediaResolver → ReadMetrics → Str → ReadMetrics × Result (List ℕ)
  unfolding decode_data_uri count_chunks
  read_media r m uri =
      if is_data uri
      then (m, decode_data_uri uri)
      else opened m (open_input storage uri (s3_for uri r.s3_config) r.opendal_config)

  abbrev pub payload :
      MediaResolver → ReadMetrics → Str → Result Str → ReadMetrics × Result (Option (List ℕ))
  payload r m path (err e) = (m, context (err e) (lit "ATIF media URI" ∷ []))
  payload r m path (ok uri) =
      let (m', bytes) = read_media r m uri in
      (m', map_ok some (context bytes (lit "ATIF media " ∷ txt path ∷ [])))

  abbrev pub media_of :
      MediaResolver → ReadMetrics → Bool → Option Str → ReadMetrics × Result (Option (List ℕ))
  media_of r m true (some path) = payload r m path (resolve_uri r.document path)
  media_of r m true none = (m, fail (lit "missing ATIF media source path" ∷ []))
  media_of r m false path = (m, fail (lit "missing ATIF media source path" ∷ []))

  abbrev pub typed :
      MediaResolver
      → ReadMetrics
      → ContentPart
      → Result ContentType
      → ReadMetrics × Result (Option (List ℕ))
  typed r m part (err e) = (m, err e)
  typed r m part (ok text) = (m, ok none)
  typed r m part (ok image) = media_of r m part.has_source part.path
  typed r m part (ok audio) = media_of r m part.has_source part.path

  -- One row of the column of paths: a part that is null or a text has no media.
  unfoldable pub media_cell :
      MediaResolver → ReadMetrics → Option ContentPart → ReadMetrics × Result (Option (List ℕ))
  unfolding resolve_uri read_media content_type
  media_cell r m none = (m, ok none)
  media_cell r m (some part) = typed r m part (content_type part.kind)

  abbrev and_rest :
      ReadMetrics × Result (Option (List ℕ))
      → (ReadMetrics → ReadMetrics × Result (List (Option (List ℕ))))
      → ReadMetrics × Result (List (Option (List ℕ)))
  and_rest (m, err e) f = (m, err e)
  and_rest (m, ok cell) f = let (m', rest) = f m in (m', map_ok (λ cells. cell ∷ cells) rest)

  -- The loop over the rows.
  unfoldable pub media_cells :
      MediaResolver
      → ReadMetrics
      → List (Option ContentPart)
      → ReadMetrics × Result (List (Option (List ℕ)))
  unfolding media_cell
  media_cells r m [] = (m, ok [])
  media_cells r m (part ∷ parts) = and_rest (media_cell r m part) (λ m'. media_cells r m' parts)
