-- ===== src/Registry/Fetch/Genuine.antt =====
-- Where the digests that are fetched come from.
use aether_supervisor.Prelude.{
  Text, Bool, true, Option, none, some, List, [], ◌∷◌, ◌⊎◌, inl, inr, ◌≡◌, refl, Bool-cases,
  Option-cases, if-keeps,
}
use aether_supervisor.Container.Identifier.{is_empty}
use aether_supervisor.Registry.Response.Content.{IsDigestOf, extract-IsDigestOf}
use aether_supervisor.Registry.Response.{
  Method, get, Response, Handled, digest, retry, invalid, is_success,
}
use aether_supervisor.Registry.Response.Extract.{handle_manifest_response-digest}
use aether_supervisor.Registry.Auth.{Url, Libraries, Request, AuthError, Token, get_token}
use aether_supervisor.Registry.Fetch.{
  Formats, Web, FetchError, ManifestUrl, Fetched, with_response, handle, settle,
  retry_manifest_request, retry_at, follow, request_manifest, with_token, fetch_remote,
  fetch_digest, build_manifest_url, host_override, transform_auth, with_host,
}
use aether_supervisor.Registry.Fetch.Manifest.{
  IsManifestOf, IsBuilt, IsBuilt?, build_manifest_url-IsBuilt,
}

module _ (l : Libraries) (formats : Formats) {W : Type 0} (web : Web W) (tls_skip : Bool)
    (image : Text) where
  -- The network has answered a request for the manifest of the image by a successful answer with
  -- this digest.
  abbrev pub IsAnswered : Text → Type 0
  IsAnswered d =
      (method : Method) × (request : Request) × (w : W) × (r : Response) × ((web.send method request
          w).0
        ≡ some r)
      × IsManifestOf l formats tls_skip image request.url
      × (is_success r.status ≡ true)
      × IsDigestOf formats.json_digest r d

  abbrev pub IsGenuine : Fetched l formats web → Type 0
  IsGenuine (inl e, w) = Unit
  IsGenuine (inr d, w) = (d ≡ []) ⊎ IsAnswered d

  with_response-IsGenuine :
      (method : Method) (url token : Text) (w : W) (next : Response → W → Fetched l formats web)
      → ((r : Response) (w' : W)
          → (web.send method (record { url = url; authorization = token }) w).0 ≡ some r
          → IsGenuine (next r w'))
      → IsGenuine (with_response l formats web method url token w next)
  with_response-IsGenuine method url token w next f = elim (Bool-cases (l.accepts url)) [
    | inl h ↦ rw h (answered (web.send method (record { url = url; authorization = token }) w) f)
    | inr h ↦ rw h tt
  ]
    where
      answered :
          (a : Option Response × W)
          → ((r : Response) (w' : W) → a.0 ≡ some r → IsGenuine (next r w'))
          → IsGenuine (elim a.0 as (λ _. Fetched l formats web) [
            | none ↦ (inl FetchError.execute_request, a.1)
            | some r ↦ next r a.1
          ])
      answered (none, w') g = tt
      answered (some r, w') g = g r w' refl

  -- What a digest read from an answer says
  abbrev Says : Handled → Type 0
  Says h = (d : Text) → h ≡ digest d → (d ≡ []) ⊎ IsAnswered d

  handle-Says :
      (method : Method) (request : Request) (w : W) (original challenge : Text) (redirected : Bool)
      (current : Text) (r : Response)
      → (web.send method request w).0 ≡ some r
      → IsManifestOf l formats tls_skip image request.url
      → Says (handle l formats web method original challenge redirected current r)
  handle-Says method request w original challenge redirected current r sent of_image [] e = inl refl
  handle-Says method request w original challenge redirected current r sent of_image (c ∷ d) e =
      let (success, found) =
        handle_manifest_response-digest formats.json_digest
          (λ t. elim (l.parse_url t) [ none ↦ none | some u ↦ some u.host ]) r method original
          challenge redirected current (c ∷ d) e (λ absurdity. cc) in
      inr (
        method,
        request,
        w,
        r,
        sent,
        of_image,
        success,
        extract-IsDigestOf formats.json_digest method r (c ∷ d) found,
      )

  settle-IsGenuine : (h : Handled) (w : W) → Says h → IsGenuine (settle l formats web h w)
  settle-IsGenuine (digest d) w says = says d refl
  settle-IsGenuine (retry host) w says = inl refl
  settle-IsGenuine invalid w says = tt

  retry_at-IsGenuine :
      (method : Method) (token : Token) (original : Text) (u : Url) (w : W)
      → IsManifestOf l formats tls_skip image (l.render u)
      → IsGenuine (retry_at l formats web method token original u w)
  unfolding retry_manifest_request
  retry_at-IsGenuine method token original u w of_image =
      if-keeps IsGenuine (is_empty (l.render u)) _ _ (inl refl) (
        with_response-IsGenuine method (l.render u) token.header w _ (λ r w' sent.
          settle-IsGenuine _ w' (
            handle-Says method (record { url = l.render u; authorization = token.header }) w
              original token.challenge_host token.redirected u.host r sent of_image)))

  follow-IsGenuine :
      (method : Method) (token : Token) (original : Text) (parsed : Url) (h : Handled) (w : W)
      → ((host : Text)
          → IsManifestOf l formats tls_skip image (l.render (with_host l formats host parsed)))
      → Says h
      → IsGenuine (follow l formats web method token original parsed h w)
  follow-IsGenuine method token original parsed (digest d) w moved says = says d refl
  follow-IsGenuine method token original parsed (retry host) w moved says =
      retry_at-IsGenuine method token original (with_host l formats host parsed) w (moved host)
  follow-IsGenuine method token original parsed invalid w moved says = tt

  request_manifest-IsGenuine :
      (method : Method) (token : Token) (original : Text) (m : ManifestUrl l formats) (w : W)
      → IsBuilt l formats tls_skip image m
      → IsGenuine (request_manifest l formats web method token original m w)
  unfolding request_manifest
  request_manifest-IsGenuine method token original m w (of_image, moved) =
      let read =
        handle l formats web method original token.challenge_host token.redirected m.parsed.host in
      with_response-IsGenuine method m.text token.header w
        (λ r w'. follow l formats web method token original m.parsed (read r) w')
        (λ r w' sent. follow-IsGenuine method token original m.parsed (read r) w' moved (
          handle-Says method (record { url = m.text; authorization = token.header }) w original
            token.challenge_host token.redirected m.parsed.host r sent of_image))

  with_token-IsGenuine :
      (method : Method) (original : Text) (token : AuthError ⊎ Token) (w : W)
      → IsGenuine (with_token l formats web tls_skip method image original token w)
  with_token-IsGenuine method original (inl e) w = tt
  with_token-IsGenuine method original (inr token) w =
      placed
        (build_manifest_url l formats tls_skip image (host_override l formats web token original))
        (build_manifest_url-IsBuilt l formats tls_skip image
          (host_override l formats web token original))
    where
      placed :
          (o : Option (ManifestUrl l formats))
          → IsBuilt? l formats tls_skip image o
          → IsGenuine (elim o as (λ _. Fetched l formats web) [
            | none ↦ (inl FetchError.failed_build_manifest_url, w)
            | some m ↦ request_manifest l formats web method token original m w
          ])
      placed none h = tt
      placed (some m) h = request_manifest-IsGenuine method token original m w h

  fetch_remote-IsGenuine :
      (method : Method) (registry_auth : Text) (w : W)
      → IsGenuine (fetch_remote l formats web tls_skip method image registry_auth w)
  unfolding fetch_remote
  fetch_remote-IsGenuine method registry_auth w =
      elim (Option-cases (build_manifest_url l formats tls_skip image [])) [
        | inl h ↦ rw (h, fetch_remote) tt
        | inr (m, h) ↦
            rw (h, fetch_remote)
              (let got =
                  get_token l (web.send get) tls_skip image (transform_auth l formats registry_auth)
                    w in
                with_token-IsGenuine method m.original_host got.0 got.1)
      ]

  pub fetch_digest-IsGenuine :
      (method : Method) (registry_auth : Text) (w : W)
      → IsGenuine (fetch_digest l formats web tls_skip method image registry_auth w)
  unfolding fetch_digest
  fetch_digest-IsGenuine method registry_auth w = inspected (web.inspect image w)
    where
      inspected :
          (o : Option (List Text) × W)
          → IsGenuine (elim o.0 as (λ _. Fetched l formats web) [
            | none ↦ (inl FetchError.execute_request, o.1)
            | some digests ↦ elim digests [
              | [] ↦ (inr [], o.1)
              | (_ ∷ _) ↦ fetch_remote l formats web tls_skip method image registry_auth o.1
            ]
          ])
      inspected (none, w') = tt
      inspected (some [], w') = inl refl
      inspected (some (_ ∷ _), w') = fetch_remote-IsGenuine method registry_auth w'
