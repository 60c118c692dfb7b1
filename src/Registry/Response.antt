-- ===== src/Registry/Response.antt =====
-- What the answer of a registry to a request for a manifest says: ExtractHeadDigest, ExtractGetDigest
-- and HandleManifestResponse of pkg/registry/digest/digest.go. `json_digest` stands for json.Unmarshal
-- into a record with a digest, and `url_host` for the host that url.Parse finds; `none` is an error.
pub mod Extract
pub mod Content
use aether_supervisor.Prelude.{
  Text, text_eq, trim_space, has_prefix, contains, codes, Bool, true, false, ◌&&◌, ◌||◌, not,
  Option, none, some, [], ◌∷◌, ℕ, length, ltb, leb, ◌==◌, if◌then◌else◌,
}
use aether_supervisor.Container.Identifier.{is_empty}
use aether_supervisor.Registry.{normalize_digest}

pub data Method : Type 0 where
  head : Method
  get : Method

-- An absent header is empty; a body that cannot be read is `none`; `host` is that of the request that
-- was answered at last.
pub record Response : Type 0 where
  pub status : ℕ
  pub host : Text
  pub content_digest : Text
  pub www_authenticate : Text
  pub content_type : Text
  pub location : Text
  pub body : Option Text

-- A digest, which may be empty; a retry on another host; or the error of an invalid response.
pub data Handled : Type 0 where
  digest : Text → Handled
  retry : Text → Handled
  invalid : Handled

unfoldable pub extract_head_digest : Response → Option Text
extract_head_digest r =
    if is_empty r.content_digest then none else some (normalize_digest r.content_digest)

abbrev pub plain_digest : Text → Option Text
plain_digest body_str =
    if not (has_prefix body_str (codes "sha256:")) || ltb (length body_str) 20
    then none
    else some (normalize_digest body_str)

abbrev pub is_json : Text → Bool
is_json content_type =
    contains content_type (codes "application/json")
    || contains content_type (codes "application/vnd.oci")
    || contains content_type (codes "application/vnd.docker")

abbrev pub is_success : ℕ → Bool
is_success status = leb 200 status && ltb status 300

abbrev pub is_refused : ℕ → Bool
is_refused status = status == 404 || status == 401

abbrev pub extracted : Option Text → Handled
extracted none = invalid
extracted (some d) = digest d

-- A HEAD request that fails otherwise than by 404
abbrev pub head_fallback : Method → ℕ → Bool
head_fallback get status = false
head_fallback head status = not (is_success status) && not (status == 404)

abbrev pub fall_back : ℕ → Text → Text → Bool → Text → Handled
fall_back status original_host challenge_host redirected current_host =
    if not redirected
      && not (is_empty challenge_host)
      && text_eq current_host original_host
      && is_refused status
    then retry challenge_host
    else digest []

abbrev pub not_found_by_head : Method → ℕ → Bool
not_found_by_head get status = false
not_found_by_head head status = status == 404

abbrev pub failure : Method → ℕ → Text → Text → Text → Handled
failure method status original_host challenge_host current_host =
    if not_found_by_head method status
    then invalid
    else if is_refused status && not (text_eq current_host original_host)
    then retry original_host
    else if is_refused status && not (is_empty challenge_host) && text_eq current_host original_host
    then retry challenge_host
    else invalid

module _ (json_digest : Text → Option Text) where
  abbrev pub manifest_digest : Text → Text → Option Text
  manifest_digest body body_str = elim (json_digest body) [
    | some d ↦ if is_empty d then none else some (normalize_digest d)
    | none ↦ plain_digest body_str
  ]

  abbrev pub body_digest : Text → Text → Text → Option Text
  body_digest content_type body body_str =
      if is_empty body_str
      then none
      else if has_prefix body_str (codes "{") || has_prefix body_str (codes "[")
      then (if is_json content_type then manifest_digest body body_str else none)
      else plain_digest body_str

  unfoldable pub extract_get_digest : Response → Option Text
  unfolding trim_space
  extract_get_digest r =
      if is_empty r.content_digest
      then elim r.body [
        | none ↦ none
        | some body ↦ body_digest r.content_type body (trim_space body)
      ]
      else some (normalize_digest r.content_digest)

  unfoldable pub extract : Method → Response → Option Text
  unfolding extract_head_digest extract_get_digest
  extract head r = extract_head_digest r
  extract get r = extract_get_digest r

-- The host of a redirection to another one
abbrev pub redirect_host : (Text → Option Text) → ℕ → Text → Text → Option Text
redirect_host url_host status location current_host =
    if leb 300 status && ltb status 400 && not (is_empty location)
    then elim (url_host location) [
      | none ↦ none
      | some h ↦ if is_empty h || text_eq h current_host then none else some h
    ]
    else none

module _ (json_digest url_host : Text → Option Text) where
  unfoldable pub handle_manifest_response : Response → Method → Text → Text → Bool → Text → Handled
  unfolding extract
  handle_manifest_response r method original_host challenge_host redirected current_host =
      if head_fallback method r.status
      then fall_back r.status original_host challenge_host redirected current_host
      else elim (redirect_host url_host r.status r.location current_host) [
        | some h ↦ retry h
        | none ↦
            if is_success r.status
            then extracted (extract json_digest method r)
            else failure method r.status original_host challenge_host current_host
      ]
