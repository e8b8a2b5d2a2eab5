-- ===== src/Storage/Backends.antt =====
-- What is behind the storage that a path selects.
use duckdb_lance_conversion.Base.{
  ◌≡◌, ◌≢◌, ◌⊎◌, refl, sym, subst, true, false, Bool, Option, none, some, [], ◌∷◌, Str, codes, same,
  same_iff, trim_start_matches, inl, inr, if◌then◌else◌, not_differs,
}
use duckdb_lance_conversion.Error.{
  bailed, ok-injective, ok, context, ok_or, >>=-eq-ok, context-of_ok, ok_or-of_ok, Message,
}
use duckdb_lance_conversion.Storage.{is_s3_uri, backend, from_path}
use duckdb_lance_conversion.Storage.Open.{
  StorageLibrary, S3StorageConfig, S3Builder, OpendalStorage, Config, check, layers, apply,
  absolute_path, from_local_path, parsed, nonempty_text, s3_builder, from_s3_uri, done, storage_at,
}

nonempty_some : (o : Option Str) (s : Str) → nonempty_text o ≡ some s → (o ≡ some s) × (s ≢ [])
nonempty_some none s e = cc
nonempty_some (some []) s e = cc
nonempty_some (some (c ∷ cs)) s e = (e, λ none_left. cc)

-- The builder has the bucket, the credentials and the style of the configuration.
pub record IsS3Builder (bucket : Str) (c : S3StorageConfig) (b : S3Builder) : Type 0 where
  pub same_bucket : b.bucket ≡ bucket
  pub same_key : b.access_key_id ≡ c.key_id
  pub same_secret : b.secret_access_key ≡ c.secret
  pub same_token : b.session_token ≡ c.session_token
  pub same_style : b.virtual_host_style ≡ c.virtual_host_style

s3_builder-IsS3Builder :
    (bucket : Str) (c : S3StorageConfig) → IsS3Builder bucket c (s3_builder bucket c)
unfolding s3_builder
s3_builder-IsS3Builder bucket c = record {
  same_bucket = refl;
  same_key = refl;
  same_secret = refl;
  same_token = refl;
  same_style = refl;
}

module _ (lib : StorageLibrary) where
  open lib use {
    Url, parse_url, scheme, host_str, path, from_file_path, path_from, from_url_path, Operator,
    fs_operator, s3_operator, layer,
  }

  -- The operator is the service with the layers of a policy that was accepted.
  abbrev pub IsLayered : Config lib → Operator → Operator → Type 0
  IsLayered config service operator =
      (policy : Config lib) × (check lib config ≡ ok policy)
      × (operator ≡ layer (layers lib policy) service)

  pub apply-IsLayered :
      (config : Config lib) (service operator : Operator)
      → apply lib config service ≡ ok operator
      → IsLayered config service operator
  unfolding apply
  apply-IsLayered config service operator e =
      let (policy, c, e1) = >>=-eq-ok (check lib config) _ e in
      (policy, c, sym (ok-injective (layer (layers lib policy) service) operator e1))

  -- An object of a bucket, reached with the given configuration.
  pub record IsBucket (p : Str) (c : S3StorageConfig) (config : Config lib) (s : OpendalStorage lib)
      : Type 0 where
    pub bucket : Str
    pub builder : S3Builder
    pub service : Operator
    pub parses : parse_url p ≡ some s.location
    pub is_s3 : scheme s.location ≡ codes "s3"
    pub in_bucket : host_str s.location ≡ some bucket
    pub named : bucket ≢ []
    pub built : IsS3Builder bucket c builder
    pub served : s3_operator builder ≡ ok service
    pub layered : IsLayered config service s.operator
    pub decodes : from_url_path (path s.location) ≡ some s.object_path

  -- A file of the machine, below the root of its file system.
  pub record IsLocal (p : Str) (s : OpendalStorage lib) : Type 0 where
    pub absolute : Str
    pub resolves : absolute_path lib p ≡ ok absolute
    pub located : from_file_path absolute ≡ some s.location
    pub served : fs_operator ≡ ok s.operator
    pub object : s.object_path ≡ path_from (trim_start_matches b'/' absolute)

  from_local_path-IsLocal :
      (p : Str) (s : OpendalStorage lib) → from_local_path lib p ≡ ok s → IsLocal p s
  unfolding from_local_path
  from_local_path-IsLocal p s e =
      let (absolute, a, e1) = >>=-eq-ok (absolute_path lib p) _ e in
      let (location, l, e2) = >>=-eq-ok (ok_or (from_file_path absolute) _) _ e1 in
      let (operator, o, e3) = >>=-eq-ok (context fs_operator _) _ e2 in
      let made = ok-injective _ s e3 in
      subst (IsLocal p) made (record {
        absolute = absolute;
        resolves = a;
        located = ok_or-of_ok (from_file_path absolute) _ location l;
        served = context-of_ok fs_operator _ operator o;
        object = refl;
      })

  parsed_url :
      (o : Option Url) (m : Message) (u : Url) → context (parsed lib o) m ≡ ok u → o ≡ some u
  unfolding context
  parsed_url none m u e = cc
  parsed_url (some v) m u e = cc

  from_s3_uri-IsBucket :
      (p : Str) (c : S3StorageConfig) (config : Config lib) (s : OpendalStorage lib)
      → from_s3_uri lib p c config ≡ ok s
      → IsBucket p c config s
  unfolding from_s3_uri
  from_s3_uri-IsBucket p c config s e =
      let (location, l, e1) = >>=-eq-ok (context (parsed lib (parse_url p)) _) _ e in
      let (is, e2) =
        bailed (if same (scheme location) (codes "s3") then false else true) _ _ s e1 in
      let (bucket, b, e3) = >>=-eq-ok (ok_or (nonempty_text (host_str location)) _) _ e2 in
      let (service, v, e4) = >>=-eq-ok (context (s3_operator (s3_builder bucket c)) _) _ e3 in
      let (operator, o, e5) = >>=-eq-ok (apply lib config service) _ e4 in
      let (object_path, t, e6) = >>=-eq-ok (ok_or (from_url_path (path location)) _) _ e5 in
      let made = ok-injective _ s e6 in
      let some_bucket =
        nonempty_some (host_str location) bucket
          (ok_or-of_ok (nonempty_text (host_str location)) _ bucket b) in
      subst (IsBucket p c config) made (record {
        bucket = bucket;
        builder = s3_builder bucket c;
        service = service;
        parses = parsed_url (parse_url p) _ location l;
        is_s3 = (same_iff (scheme location) (codes "s3")).0 (not_differs _ is);
        in_bucket = some_bucket.0;
        named = some_bucket.1;
        built = s3_builder-IsS3Builder bucket c;
        served = context-of_ok (s3_operator (s3_builder bucket c)) _ service v;
        layered = apply-IsLayered config service operator o;
        decodes = ok_or-of_ok (from_url_path (path location)) _ object_path t;
      })

  -- An S3 URI with its configuration, or a local path without one.
  abbrev pub IsStorage : Str → Option S3StorageConfig → Config lib → OpendalStorage lib → Type 0
  IsStorage p s3 config s =
      ((is_s3_uri p ≡ true) × ((c : S3StorageConfig) × (s3 ≡ some c) × IsBucket p c config s))
      ⊎ ((is_s3_uri p ≡ false) × (s3 ≡ none) × IsLocal p s)

  backend-IsStorage :
      (b : Bool) (p : Str) (s3 : Option S3StorageConfig) (config : Config lib)
      (s : OpendalStorage lib)
      → is_s3_uri p ≡ b
      → backend
          (done lib (check lib config))
          (λ uri c. from_s3_uri lib uri c config)
          (from_local_path lib)
          b
          p
          s3
        ≡ ok s
      → IsStorage p s3 config s
  backend-IsStorage true p none config s u e = cc
  backend-IsStorage true p (some c) config s u e =
      inl (u, (c, refl, from_s3_uri-IsBucket p c config s e))
  backend-IsStorage false p none config s u e = inr (u, refl, from_local_path-IsLocal p s e)
  backend-IsStorage false p (some c) config s u e = cc

  pub storage_at-IsStorage :
      (p : Str) (s3 : Option S3StorageConfig) (config : Config lib) (s : OpendalStorage lib)
      → storage_at lib p s3 config ≡ ok s
      → IsStorage p s3 config s
  unfolding from_path
  storage_at-IsStorage p s3 config s e =
      let (u, v, e1) = >>=-eq-ok (done lib (check lib config)) _ e in
      backend-IsStorage (is_s3_uri p) p s3 config s refl e1
