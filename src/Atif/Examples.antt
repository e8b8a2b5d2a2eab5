-- ===== src/Atif/Examples.antt =====
-- An image beside a remote trajectory. A base is joined with a reference by taking the reference as its path.
use duckdb_lance_conversion.Base.{
  ℕ, ◌≡◌, refl, true, false, Option, none, some, List, [], ◌∷◌, ◌++◌, Str, codes, same, same_iff,
  starts_with, ◌⊎◌, inl, inr, Bool-cases, ◌||◌, arith, if◌then◌else◌,
}
use duckdb_lance_conversion.Error.{Result, ok}
use duckdb_lance_conversion.Arrow.{Field, field, utf8}
use duckdb_lance_conversion.ColumnStorage.{blob, storage_policy}
use duckdb_lance_conversion.Atif.Schema.{policy_at, embedded_field}
use duckdb_lance_conversion.Atif.Schema.Names.{HasShape, embedded_field-policy}
use duckdb_lance_conversion.Metrics.{default_metrics}
use duckdb_lance_conversion.Storage.Sample.{default_config, library, page}
use duckdb_lance_conversion.Atif.Media.{
  MediaLibrary, MediaResolver, ContentPart, media_cell, is_remote,
}
use duckdb_lance_conversion.Atif.Origin.{HasSchemeFirst, IsOwnMedia, media_cell-IsOwnMedia}

abbrev media : MediaLibrary
media = record {
  storage = library;
  join_url = λ base reference. some (record base { path = b'/' ∷ reference });
  port_or_known_default = λ url. some 80;
  username = λ url. [];
  password = λ url. none;
  parent = λ path. none;
  percent_bytes = λ text. text;
  base64 = λ bytes. some bytes;
  stat = λ operator path. ok 2;
  object = λ operator path size. ok ((1 ∷ 2 ∷ []) ∷ []);
}

abbrev resolver : MediaResolver media
resolver = record {
  document = codes "http://h/a";
  s3_config = none;
  opendal_config = default_config;
}

abbrev picture : ContentPart
picture = record { kind = codes "image"; has_source = true; path = some (codes "a") }

shows : (media_cell media resolver default_metrics (some picture)).1 ≡ ok (some (1 ∷ 2 ∷ []))
unfolding media_cell same duckdb_lance_conversion.Base.starts_with
    duckdb_lance_conversion.Error.context duckdb_lance_conversion.Storage.Input.open_input
    duckdb_lance_conversion.Storage.Open.http_operator duckdb_lance_conversion.Storage.validate
    duckdb_lance_conversion.Base.trim_start_matches
shows = refl

remote_scheme :
    (s : Str)
    → is_remote media s ≡ true
    → (s ≡ codes "s3") ⊎ ((s ≡ codes "http") ⊎ (s ≡ codes "https"))
remote_scheme s h = elim (Bool-cases (same s (codes "s3"))) [
  | inl e ↦ inl ((same_iff s (codes "s3")).0 e)
  | inr e ↦ elim (Bool-cases (same s (codes "http"))) [
    | inl f ↦ inr (inl ((same_iff s (codes "http")).0 f))
    | inr f ↦ inr (inr ((same_iff s (codes "https")).0 (ground arith)))
  ]
]

no_data :
    (s host path : Str)
    → (s ≡ codes "s3") ⊎ ((s ≡ codes "http") ⊎ (s ≡ codes "https"))
    → starts_with (codes "data:") ((s ++ (codes "://" ++ host)) ++ path) ≡ false
unfolding starts_with
no_data s host path (inl e) = rw e refl
no_data s host path (inr (inl e)) = rw e refl
no_data s host path (inr (inr e)) = rw e refl

scheme_first : HasSchemeFirst media
scheme_first u h = no_data u.scheme u.host u.path (remote_scheme u.scheme h)

media_cell-IsOwnMedia_example : IsOwnMedia media resolver page picture (1 ∷ 2 ∷ [])
unfolding same
media_cell-IsOwnMedia_example =
    media_cell-IsOwnMedia media scheme_first resolver default_metrics page refl refl picture
      (1 ∷ 2 ∷ []) shows

abbrev media_path : Str
media_path = codes "steps.message.source.path"

abbrev path_field : Field
path_field = field (codes "path") utf8 true ((codes "k", codes "v") ∷ [])

is_media : policy_at media_path ≡ some blob
unfolding policy_at same
is_media = refl

embedded_field-policy_example :
    (storage_policy (embedded_field media_path path_field) ≡ ok (some blob))
    × HasShape blob path_field (embedded_field media_path path_field)
embedded_field-policy_example = embedded_field-policy media_path path_field blob is_media
