-- ===== src/Registry/Auth.antt =====
-- The token for a registry: GetToken of pkg/registry/auth/auth.go and what it is made of. The
-- packages reference, net/url, net/http and encoding/json are parameters.
pub mod Frame
use aether_supervisor.Prelude.{
  Text, lookup, insert, codes, text_eq, trim_space, has_prefix, Bool, true, false, ◌||◌, not,
  Option, none, some, List, [], ◌∷◌, ◌++◌, ◌⊎◌, inl, inr, ◌==◌, if◌then◌else◌,
}
use aether_supervisor.Container.Identifier.{is_empty}
use aether_supervisor.Registry.Challenge.{
  Challenge, ChallengeError, to_lower, value_of, process_challenge, extract_challenge_host,
  challenge_values,
}
use aether_supervisor.Registry.Response.{Response}

pub record Url : Type 0 where
  pub scheme : Text
  pub host : Text
  pub path : Text
  pub query : List (Text × Text)

-- reference.Named: its Name, Domain and Path
pub record Reference : Type 0 where
  pub name : Text
  pub domain : Text
  pub path : Text

-- `none` is an error of the library. `accepts` says whether http.NewRequestWithContext takes a URL.
pub record Libraries : Type 0 where
  pub parse_normalized : Text → Option Reference
  pub parse_url : Text → Option Url
  pub render : Url → Text
  pub accepts : Text → Bool
  pub json_token : Text → Option Text

-- An absent header Authorization is empty.
pub record Request : Type 0 where
  pub url : Text
  pub authorization : Text

pub data AuthError : Type 0 where
  parse_image_name : AuthError
  create_request : AuthError
  execute_request : AuthError
  unmarshal_response : AuthError
  invalid_header : AuthError
  invalid_realm_url : AuthError
  no_credentials : AuthError
  unsupported : AuthError
  decode_response : AuthError

pub record Token : Type 0 where
  pub header : Text
  pub challenge_host : Text
  pub redirected : Bool

abbrev pub challenge_request : Text → Request
challenge_request url = record { url = url; authorization = [] }

abbrev pub basic : Text → Text
basic registry_auth = if is_empty registry_auth then [] else codes "Basic " ++ registry_auth

module _ (l : Libraries) where
  unfoldable pub get_registry_address : Text → Option Text
  get_registry_address image_ref = elim (l.parse_normalized image_ref) [
    | none ↦ none
    | some r ↦
        some (if text_eq r.domain (codes "docker.io") then codes "index.docker.io" else r.domain)
  ]

  abbrev pub address_or_empty : Text → Text
  address_or_empty name = elim (get_registry_address name) [ none ↦ [] | some a ↦ a ]

  unfoldable pub get_challenge_url : Bool → Reference → Url
  unfolding get_registry_address
  get_challenge_url tls_skip image_ref =
      let host = address_or_empty image_ref.name in
      record {
        scheme = if tls_skip then codes "http" else codes "https";
        host = if text_eq host (codes "lscr.io") then codes "ghcr.io" else host;
        path = codes "/v2/";
        query = [];
      }

  abbrev add_query : Text → Text → Option Url → AuthError ⊎ Url
  add_query service scope none = inl invalid_realm_url
  add_query service scope (some u) =
      inr (record u { query = u.query ++ (codes "service", service) ∷ (codes "scope", scope) ∷ [] })

  unfoldable pub get_auth_url : Text → Reference → AuthError ⊎ Url
  unfolding challenge_values get_registry_address
  get_auth_url challenge image_ref =
      let parsed = challenge_values challenge in
      let values =
        if text_eq (address_or_empty image_ref.name) (codes "lscr.io")
        then insert (codes "realm") (codes "https://ghcr.io/token") parsed
        else parsed in
      let realm = value_of (codes "realm") values in
      let service = value_of (codes "service") values in
      if is_empty realm || is_empty service
      then inl invalid_header
      else add_query service (codes "repository:" ++ image_ref.path ++ codes ":pull")
          (l.parse_url realm)

  module _ {W : Type 0} (send : Request → W → Option Response × W) where
    -- A body that cannot be read is empty.
    abbrev token_of : Option Response → AuthError ⊎ Text
    token_of none = inl execute_request
    token_of (some r) =
        let body : Text = elim r.body [ none ↦ [] | some b ↦ b ] in
        elim (l.json_token body) [
          | none ↦ inl unmarshal_response
          | some t ↦ inr (codes "Bearer " ++ t)
        ]

    unfoldable pub request_token : Text → Text → W → (AuthError ⊎ Text) × W
    request_token url registry_auth w =
        if l.accepts url
        then (let (answer, w') =
              send (record { url = url; authorization = basic registry_auth }) w in
            (token_of answer, w'))
        else (inl create_request, w)

    unfoldable pub get_bearer_header : Text → Reference → Text → W → (AuthError ⊎ Text) × W
    unfolding get_auth_url request_token
    get_bearer_header challenge image_ref registry_auth w =
        elim (get_auth_url challenge image_ref) [
          | inl e ↦ (inl e, w)
          | inr u ↦ request_token (l.render u) registry_auth w
        ]

    unfoldable pub challenge_host_of : Text → Text
    unfolding process_challenge extract_challenge_host
    challenge_host_of www_auth_header = elim (process_challenge www_auth_header) [
      | inl _ ↦ []
      | inr c ↦ if is_empty c.realm then [] else extract_challenge_host c.realm
    ]

    abbrev bearer_token : Text → Bool → AuthError ⊎ Text → AuthError ⊎ Token
    bearer_token challenge_host redirected (inl _) = inl decode_response
    bearer_token challenge_host redirected (inr token) =
        if is_empty token
        then inl decode_response
        else inr
            (record { header = token; challenge_host = challenge_host; redirected = redirected })

    unfoldable pub handle_bearer_auth : Text → Text → Text → Bool → W → (AuthError ⊎ Token) × W
    unfolding get_bearer_header challenge_host_of
    handle_bearer_auth www_auth_header image registry_auth redirected w =
        elim (l.parse_normalized image) [
          | none ↦ (inl parse_image_name, w)
          | some image_ref ↦
              let (token, w') =
                get_bearer_header (to_lower www_auth_header) image_ref registry_auth w in
              (bearer_token (challenge_host_of www_auth_header) redirected token, w')
        ]

    abbrev no_token : Bool → AuthError ⊎ Token
    no_token redirected = inr (record { header = []; challenge_host = []; redirected = redirected })

    abbrev basic_token : Text → Bool → AuthError ⊎ Token
    basic_token registry_auth redirected =
        if is_empty registry_auth
        then inl no_credentials
        else inr (record {
          header = codes "Basic " ++ registry_auth;
          challenge_host = [];
          redirected = redirected;
        })

    -- What the answer to the challenge request asks for
    unfoldable pub answer_challenge : Text → Text → Url → Response → W → (AuthError ⊎ Token) × W
    unfolding handle_bearer_auth trim_space
    answer_challenge image registry_auth challenge_url res w =
        let redirected = not (text_eq res.host challenge_url.host) in
        let challenge = to_lower (trim_space res.www_authenticate) in
        if res.status == 200 || is_empty res.www_authenticate
        then (no_token redirected, w)
        else if has_prefix challenge (codes "basic")
        then (basic_token registry_auth redirected, w)
        else if has_prefix challenge (codes "bearer")
        then handle_bearer_auth res.www_authenticate image registry_auth redirected w
        else (inl unsupported, w)

    unfoldable pub get_token : Bool → Text → Text → W → (AuthError ⊎ Token) × W
    unfolding get_challenge_url answer_challenge
    get_token tls_skip image registry_auth w = elim (l.parse_normalized image) [
      | none ↦ (inl parse_image_name, w)
      | some image_ref ↦
          let challenge_url = get_challenge_url tls_skip image_ref in
          if l.accepts (l.render challenge_url)
          then (let (answer, w') = send (challenge_request (l.render challenge_url)) w in
              elim answer [
                | none ↦ (inl execute_request, w')
                | some res ↦ answer_challenge image registry_auth challenge_url res w'
              ])
          else (inl create_request, w)
    ]
