-- ===== src/Registry/Fetch.antt =====
-- CompareDigest and fetchDigest of pkg/registry/digest/digest.go, with BuildManifestURL there and in
-- pkg/registry/manifest/manifest.go, and TransformAuth of pkg/registry/auth/auth.go.
pub mod Manifest
pub mod Genuine
pub mod Found
mod Tests
use aether_supervisor.Prelude.{
  Text, codes, text_eq, Bool, true, false, ◌&&◌, not, Option, none, some, List, [], ◌∷◌, ◌++◌, ◌⊎◌,
  inl, inr, if◌then◌else◌,
}
use aether_supervisor.Container.Identifier.{is_empty}
use aether_supervisor.Registry.{digests_match}
use aether_supervisor.Registry.Response.{
  Method, head, get, Response, Handled, digest, retry, invalid, handle_manifest_response,
}
use aether_supervisor.Registry.Auth.{
  Url, Reference, Libraries, Request, AuthError, Token, address_or_empty, get_registry_address,
  get_token,
}

-- What a container tells of its image: its name and, where there is any, the digests of its record.
pub record Image : Type 0 where
  pub name : Text
  pub repo_digests : Option (List Text)

-- The libraries that only this file needs. `decode` and `encode` are those of base64, and
-- `credentials` gives the user name and the password that json.Unmarshal finds.
pub record Formats : Type 0 where
  pub parse_docker_ref : Text → Option (Reference × Option Text)
  pub json_digest : Text → Option Text
  pub decode : Text → Text
  pub encode : Text → Text
  pub credentials : Text → Text × Text

-- The network, and the images that Docker has
pub record Web (W : Type 0) : Type 0 where
  pub send : Method → Request → W → Option Response × W
  pub inspect : Text → W → Option (List Text) × W

pub data FetchError : Type 0 where
  missing_image_info : FetchError
  execute_request : FetchError
  create_request : FetchError
  failed_build_manifest_url : FetchError
  get_token_failed : AuthError → FetchError
  invalid_response : FetchError

module _ (l : Libraries) (formats : Formats) where
  unfoldable pub transform_auth : Text → Text
  transform_auth registry_auth =
      let (username, password) = formats.credentials (formats.decode registry_auth) in
      if is_empty username
      then registry_auth
      else if is_empty password
      then registry_auth
      else formats.encode (username ++ codes ":" ++ password)

  -- BuildManifestURL of the package manifest
  unfoldable pub image_manifest_url : Text → Text → Option Text
  unfolding get_registry_address
  image_manifest_url scheme image = elim (formats.parse_docker_ref image) [
    | none ↦ none
    | some (r, tag) ↦ elim tag [
      | none ↦ none
      | some t ↦ some (
          l.render (record {
            scheme = scheme;
            host = address_or_empty l r.name;
            path = codes "/v2/" ++ r.path ++ codes "/manifests/" ++ t;
            query = [];
          }))
    ]
  ]

  pub record ManifestUrl : Type 0 where
    pub text : Text
    pub original_host : Text
    pub parsed : Url

  abbrev pub with_host : Text → Url → Url
  with_host host u = record u { host = host }

  abbrev pub override_host : Text → Text → Text → Url → Option ManifestUrl
  override_host host_override text original u =
      if is_empty u.host
      then none
      else if is_empty host_override
      then some (record { text = text; original_host = original; parsed = u })
      else some (record {
        text = l.render (with_host host_override u);
        original_host = original;
        parsed = with_host host_override u;
      })

  abbrev pub manifest_host : Text → Text → Url → Option ManifestUrl
  manifest_host host_override text u =
      if text_eq u.host (codes "lscr.io")
      then override_host host_override (l.render (with_host (codes "ghcr.io") u)) u.host
          (with_host (codes "ghcr.io") u)
      else override_host host_override text u.host u

  unfoldable pub build_manifest_url : Bool → Text → Text → Option ManifestUrl
  unfolding image_manifest_url
  build_manifest_url tls_skip image host_override =
      elim (image_manifest_url (if tls_skip then codes "http" else codes "https") image) [
        | none ↦ none
        | some text ↦ elim (l.parse_url text) [
          | none ↦ none
          | some u ↦ manifest_host host_override text u
        ]
      ]

  module _ {W : Type 0} (web : Web W) where
    abbrev pub Fetched : Type 0
    Fetched = (FetchError ⊎ Text) × W

    -- The request is made and sent, and what follows reads the answer.
    abbrev pub with_response : Method → Text → Text → W → (Response → W → Fetched) → Fetched
    with_response method url token w next =
        if l.accepts url
        then (let (answer, w') = web.send method (record { url = url; authorization = token }) w in
            elim answer [ none ↦ (inl execute_request, w') | some r ↦ next r w' ])
        else (inl create_request, w)

    abbrev pub handle : Method → Text → Text → Bool → Text → Response → Handled
    handle method original_host challenge_host redirected current_host r =
        handle_manifest_response formats.json_digest
          (λ t. elim (l.parse_url t) [ none ↦ none | some u ↦ some u.host ]) r method original_host
          challenge_host redirected current_host

    -- A second retry that the answer asks for is not made.
    abbrev pub settle : Handled → W → Fetched
    settle (digest d) w = (inr d, w)
    settle (retry _) w = (inr [], w)
    settle invalid w = (inl invalid_response, w)

    unfoldable pub retry_manifest_request :
        Method → Text → Text → Text → Text → Bool → Url → W → Fetched
    unfolding handle_manifest_response
    retry_manifest_request method updated_url token original_host challenge_host redirected parsed
          w =
        with_response method updated_url token w
          (λ r w'. settle (handle method original_host challenge_host redirected parsed.host r) w')

    abbrev pub retry_at : Method → Token → Text → Url → W → Fetched
    retry_at method token original_host u w =
        if is_empty (l.render u)
        then (inr [], w)
        else retry_manifest_request method (l.render u) token.header original_host
            token.challenge_host token.redirected u w

    abbrev pub follow : Method → Token → Text → Url → Handled → W → Fetched
    follow method token original_host parsed (digest d) w = (inr d, w)
    follow method token original_host parsed (retry h) w =
        retry_at method token original_host (with_host h parsed) w
    follow method token original_host parsed invalid w = (inl invalid_response, w)

    unfoldable pub request_manifest : Method → Token → Text → ManifestUrl → W → Fetched
    unfolding retry_manifest_request handle_manifest_response
    request_manifest method token original_host m w =
        with_response method m.text token.header w (λ r w'.
          follow method token original_host m.parsed
            (handle method original_host token.challenge_host token.redirected m.parsed.host r) w')

    abbrev pub host_override : Token → Text → Text
    host_override token original_host =
        if not (is_empty token.challenge_host)
          && not (text_eq token.challenge_host original_host)
          && token.redirected
        then token.challenge_host
        else []

    abbrev pub with_token : Bool → Method → Text → Text → AuthError ⊎ Token → W → Fetched
    with_token tls_skip method image original_host (inl e) w = (inl (get_token_failed e), w)
    with_token tls_skip method image original_host (inr token) w =
        elim (build_manifest_url tls_skip image (host_override token original_host)) [
          | none ↦ (inl failed_build_manifest_url, w)
          | some m ↦ request_manifest method token original_host m w
        ]

    unfoldable pub fetch_remote : Bool → Method → Text → Text → W → Fetched
    unfolding transform_auth build_manifest_url request_manifest get_token
    fetch_remote tls_skip method image registry_auth w =
        elim (build_manifest_url tls_skip image []) [
          | none ↦ (inl failed_build_manifest_url, w)
          | some m ↦
              let (token, w') =
                get_token l (web.send get) tls_skip image (transform_auth registry_auth) w in
              with_token tls_skip method image m.original_host token w'
        ]

    -- An image that Docker has no digests of is built locally, and nothing is fetched for it.
    unfoldable pub fetch_digest : Bool → Method → Text → Text → W → Fetched
    unfolding fetch_remote
    fetch_digest tls_skip method image registry_auth w =
        let (inspected, w') = web.inspect image w in
        elim inspected [
          | none ↦ (inl execute_request, w')
          | some digests ↦ elim digests [
            | [] ↦ (inr [], w')
            | (_ ∷ _) ↦ fetch_remote tls_skip method image registry_auth w'
          ]
        ]

    abbrev pub Compared : Type 0
    Compared = (FetchError ⊎ Bool) × W

    abbrev pub compared : List Text → Fetched → Compared
    compared digests (inl e, w) = (inl e, w)
    compared digests (inr d, w) = (inr (digests_match digests d), w)

    -- An empty digest of the HEAD request makes a GET request follow.
    abbrev pub after_head : (W → Fetched) → List Text → Fetched → Compared
    after_head fetch_by_get digests (inl e, w) = (inl e, w)
    after_head fetch_by_get digests (inr [], w) = compared digests (fetch_by_get w)
    after_head fetch_by_get digests (inr (c ∷ d), w) = compared digests (inr (c ∷ d), w)

    unfoldable pub compare_digest : Bool → Image → Text → W → Compared
    unfolding fetch_digest digests_match
    compare_digest tls_skip image registry_auth w = elim image.repo_digests [
      | none ↦ (inl missing_image_info, w)
      | some digests ↦
          after_head (fetch_digest tls_skip get image.name registry_auth) digests
            (fetch_digest tls_skip head image.name registry_auth w)
    ]
