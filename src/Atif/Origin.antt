-- ===== src/Atif/Origin.antt =====
-- Where the media of a remote document come from.
use duckdb_lance_conversion.Base.{
  not_differs, ℕ, ◌≡◌, ◌⊎◌, inl, inr, refl, sym, ap, subst, Bool, true, false, ◌||◌, Option, none,
  some, List, [], ◌∷◌, Str, same, same_iff, is_empty, arith, Bool-cases, if◌then◌else◌, ◌∙◌,
}
use duckdb_lance_conversion.Error.{bailed, Result, ok, err, map_ok, context, >>=-eq-ok, Message}
use duckdb_lance_conversion.Metrics.{ReadMetrics}
use duckdb_lance_conversion.Storage.Input.{open_input}
use duckdb_lance_conversion.Atif.Media.{
  ContentType, text, image, audio, ContentPart, content_type, MediaLibrary, MediaResolver,
  same_text, same_number, is_given, is_remote, foreign, joined, remote_uri, located_uri, is_data,
  resolve_uri, read_media, payload, media_of, typed, media_cell, s3_for, opened, decode_data_uri,
}
use duckdb_lance_conversion.Atif.Object.{IsObject, opened-IsObject}

same_text→eq : (a b : Option Str) → same_text a b ≡ true → a ≡ b
same_text→eq none none h = refl
same_text→eq none (some b) h = cc
same_text→eq (some a) none h = cc
same_text→eq (some a) (some b) h = ap some ((same_iff a b).0 h)

same_number→eq : (a b : Option ℕ) → same_number a b ≡ true → a ≡ b
same_number→eq none none h = refl
same_number→eq none (some b) h = cc
same_number→eq (some a) none h = cc
same_number→eq (some a) (some b) h = ground arith

or_false : (a b : Bool) → (a || b) ≡ false → (a ≡ false) × (b ≡ false)
or_false true b h = cc
or_false false b h = (refl, h)

empty_text : (s : Str) → (if is_empty s then false else true) ≡ false → s ≡ []
empty_text [] h = refl
empty_text (c ∷ cs) h = cc

absent : (o : Option Str) → is_given o ≡ false → o ≡ none
absent none h = refl
absent (some s) h = cc

taken : {A : Type 0} (x y z : A) (b : Bool) → b ≡ true → (if b then x else y) ≡ z → x ≡ z
taken x y z true h e = e
taken x y z false h e = cc

other : {A : Type 0} (x y z : A) (b : Bool) → b ≡ false → (if b then x else y) ≡ z → y ≡ z
other x y z true h e = cc
other x y z false h e = e

was_read :
    (r : Result (List ℕ)) (c : Message) (bytes : List ℕ)
    → map_ok some (context r c) ≡ ok (some bytes)
    → r ≡ ok bytes
unfolding context
was_read (ok a) c bytes e = cc
was_read (err x) c bytes e = cc

module _ (lib : MediaLibrary) where
  open lib use {storage, stat, object, join_url, port_or_known_default, username, password}
  open storage use {Url, parse_url, scheme, host_str, url_text}

  -- The target has the scheme, the host and the port of the base, and no credentials.
  pub record IsSameOrigin (base target : Url) : Type 0 where
    pub same_scheme : scheme target ≡ scheme base
    pub same_host : host_str target ≡ host_str base
    pub same_port : port_or_known_default target ≡ port_or_known_default base
    pub no_username : username target ≡ []
    pub no_password : password target ≡ none

  not_foreign-IsSameOrigin :
      (base target : Url) → foreign lib base target ≡ false → IsSameOrigin base target
  not_foreign-IsSameOrigin base target h =
      let (s, h1) = or_false (if same (scheme target) (scheme base) then false else true) _ h in
      let (o, h2) =
        or_false (if same_text (host_str target) (host_str base) then false else true) _ h1 in
      let (p, h3) =
        or_false
          (if same_number (port_or_known_default target) (port_or_known_default base)
            then false
            else true)
          _ h2 in
      let (u, w) = or_false (if is_empty (username target) then false else true) _ h3 in
      record {
        same_scheme = (same_iff (scheme target) (scheme base)).0 (not_differs _ s);
        same_host = same_text→eq _ _ (not_differs _ o);
        same_port = same_number→eq _ _ (not_differs _ p);
        no_username = empty_text (username target) u;
        no_password = absent (password target) w;
      }

  -- A text of a URL begins with the URL's scheme.
  abbrev pub HasSchemeFirst : Type 0
  HasSchemeFirst = (u : Url) → is_remote lib (scheme u) ≡ true → is_data lib (url_text u) ≡ false

  -- The reference holds the bytes itself, or it names an object of the same origin and they are the object's.
  abbrev pub IsOwn : MediaResolver lib → Url → Str → List ℕ → Type 0
  IsOwn r base reference bytes =
      ((is_data lib reference ≡ true) × (decode_data_uri lib reference ≡ ok bytes))
      ⊎ ((is_data lib reference ≡ false)
          × ((target : Url) × (join_url base reference ≡ some target)
              × IsSameOrigin base target
              × IsObject lib r (url_text target) bytes))

  -- Where a resolved reference leads.
  Leads : Url → Str → Str → Type 0
  Leads base reference uri =
      ((is_data lib reference ≡ true) × (uri ≡ reference))
      ⊎ ((is_data lib reference ≡ false)
          × ((target : Url) × (join_url base reference ≡ some target)
              × IsSameOrigin base target
              × (uri ≡ url_text target)))

  joined_url : (o : Option Url) (u : Url) → joined lib o ≡ ok u → o ≡ some u
  joined_url none u e = cc
  joined_url (some v) u e = cc

  remote_uri-Leads :
      (base : Url) (reference uri : Str)
      → is_data lib reference ≡ false
      → remote_uri lib base reference ≡ ok uri
      → Leads base reference uri
  unfolding Leads
  remote_uri-Leads base reference uri d e =
      let (target, j, e1) = >>=-eq-ok (joined lib (join_url base reference)) _ e in
      let (near, e2) = bailed (foreign lib base target) _ _ uri e1 in
      let same_uri : url_text target ≡ uri = cc in
      inr (
        d,
        (
          target,
          joined_url (join_url base reference) target j,
          not_foreign-IsSameOrigin base target near,
          sym same_uri,
        ),
      )

  resolve_uri-Leads :
      (document reference uri : Str) (base : Url)
      → parse_url document ≡ some base
      → is_remote lib (scheme base) ≡ true
      → resolve_uri lib document reference ≡ ok uri
      → Leads base reference uri
  unfolding resolve_uri Leads
  resolve_uri-Leads document reference uri base p r e = elim (Bool-cases (is_data lib reference)) [
    | inl d ↦
        let chosen = taken _ _ (ok uri) (is_data lib reference) d e in
        let own : uri ≡ reference = cc in inl (d, own)
    | inr d ↦ remote_uri-Leads base reference uri d (
        taken _ _ (ok uri) (is_remote lib (scheme base)) r (
          subst (λ o. located_uri lib document reference o ≡ ok uri) p
            (other _ _ (ok uri) (is_data lib reference) d e)))
  ]

  -- The media of a part: its reference, and what that leads to.
  abbrev pub IsOwnMedia : MediaResolver lib → Url → ContentPart → List ℕ → Type 0
  IsOwnMedia r base part bytes =
      (reference : Str) × (part.path ≡ some reference) × IsOwn r base reference bytes

  module _ (scheme_first : HasSchemeFirst) (r : MediaResolver lib) (m : ReadMetrics) (base : Url)
      (remote : parse_url r.document ≡ some base)
      (scheme_is : is_remote lib (scheme base) ≡ true) where
    led-IsOwn :
        (reference uri : Str) (bytes : List ℕ)
        → Leads base reference uri
        → (read_media lib r m uri).1 ≡ ok bytes
        → IsOwn r base reference bytes
    unfolding Leads read_media
    led-IsOwn reference uri bytes (inl (d, same_uri)) h =
        let is : is_data lib uri ≡ true = subst (λ u. is_data lib u ≡ true) (sym same_uri) d in
        inl (
          d,
          subst (λ u. decode_data_uri lib u ≡ ok bytes) same_uri
              (ap
                  (λ b.
                    (if b
                      then (m, decode_data_uri lib uri)
                      else opened lib m
                          (open_input storage uri (s3_for lib uri r.s3_config) r.opendal_config)).1)
                  (sym is)
                ∙ h),
        )
    led-IsOwn reference uri bytes (inr (d, (target, j, origin, same_uri))) h =
        let near : is_remote lib (scheme target) ≡ true =
          subst (λ s. is_remote lib s ≡ true) (sym origin.same_scheme) scheme_is in
        let plain : is_data lib uri ≡ false =
          subst (λ u. is_data lib u ≡ false) (sym same_uri) (scheme_first target near) in
        inr (
          d,
          (
            target,
            j,
            origin,
            subst (λ u. IsObject lib r u bytes) same_uri
                (opened-IsObject lib r uri m
                  (open_input storage uri (s3_for lib uri r.s3_config) r.opendal_config) bytes refl
                  (ap
                      (λ b.
                        (if b
                          then (m, decode_data_uri lib uri)
                          else opened lib m (
                              open_input storage uri (s3_for lib uri r.s3_config)
                                r.opendal_config)).1)
                      (sym plain)
                    ∙ h)),
          ),
        )

    payload-IsOwn :
        (path : Str) (u : Result Str) (bytes : List ℕ)
        → resolve_uri lib r.document path ≡ u
        → (payload lib r m path u).1 ≡ ok (some bytes)
        → IsOwn r base path bytes
    unfolding context
    payload-IsOwn path (err e) bytes h k = cc
    payload-IsOwn path (ok uri) bytes h k =
        led-IsOwn path uri bytes (resolve_uri-Leads r.document path uri base remote scheme_is h)
          (was_read (read_media lib r m uri).1 _ bytes k)

    media_of-IsOwn :
        (b : Bool) (path : Option Str) (bytes : List ℕ)
        → (media_of lib r m b path).1 ≡ ok (some bytes)
        → (reference : Str) × (path ≡ some reference) × IsOwn r base reference bytes
    media_of-IsOwn true (some path) bytes e =
        (path, refl, payload-IsOwn path (resolve_uri lib r.document path) bytes refl e)
    media_of-IsOwn true none bytes e = cc
    media_of-IsOwn false path bytes e = cc

    typed-IsOwn :
        (part : ContentPart) (k : Result ContentType) (bytes : List ℕ)
        → (typed lib r m part k).1 ≡ ok (some bytes)
        → IsOwnMedia r base part bytes
    typed-IsOwn part (err x) bytes e = cc
    typed-IsOwn part (ok text) bytes e = cc
    typed-IsOwn part (ok image) bytes e = media_of-IsOwn part.has_source part.path bytes e
    typed-IsOwn part (ok audio) bytes e = media_of-IsOwn part.has_source part.path bytes e

    -- The media that a content part of a remote document gets are decoded from its own reference, where that is a
    -- data URI, and otherwise are the whole object at the URL that the reference names against the document: a URL
    -- of the document's own scheme, host and port, without credentials. The text of a URL begins with its scheme.
    pub media_cell-IsOwnMedia :
        (part : ContentPart) (bytes : List ℕ)
        → (media_cell lib r m (some part)).1 ≡ ok (some bytes)
        → IsOwnMedia r base part bytes
    unfolding media_cell
    media_cell-IsOwnMedia part bytes e = typed-IsOwn part (content_type part.kind) bytes e
