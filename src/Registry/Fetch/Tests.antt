-- ===== src/Registry/Fetch/Tests.antt =====
-- A registry that asks for a token, an image that is up to date there, and a registry that refuses
-- every request for a manifest.
use aether_supervisor.Prelude.{
  ℕ, Text, codes, after_prefix, has_prefix, cut, true, false, Option, none, some, List, [], ◌∷◌,
  ◌++◌, inr, ◌≡◌, refl, All, if◌then◌else◌,
}
use aether_supervisor.Registry.Response.{get, Response}
use aether_supervisor.Registry.Auth.{Url, Reference, Libraries, Request, get_token}
use aether_supervisor.Registry.Auth.Frame.{IsAllowed, get_token-keeps}
use aether_supervisor.Registry.Fetch.{Image, Formats, Web, fetch_digest, compare_digest}
use aether_supervisor.Registry.Fetch.Found.{IsUpToDate, compare_digest-true}

abbrev app : Text
app = codes "ghcr.io/team/app"

abbrev app_reference : Reference
app_reference = record { name = app; domain = codes "ghcr.io"; path = codes "team/app" }

abbrev parse : Text → Option Url
parse t = elim (after_prefix (codes "https://") t) [
  | none ↦ none
  | some rest ↦ elim (cut rest b'/') [
    | none ↦ some (record { scheme = codes "https"; host = rest; path = []; query = [] })
    | some (host, path) ↦
        some (record { scheme = codes "https"; host = host; path = b'/' ∷ path; query = [] })
  ]
]

abbrev libraries : Libraries
libraries = record {
  parse_normalized = λ _. some app_reference;
  parse_url = parse;
  render = λ u. u.scheme ++ codes "://" ++ u.host ++ u.path;
  accepts = λ _. true;
  json_token = λ body. some body;
}

abbrev formats : Formats
formats = record {
  parse_docker_ref = λ _. some (app_reference, some (codes "v1"));
  json_digest = λ _. none;
  decode = λ t. t;
  encode = λ t. t;
  credentials = λ _. (codes "me", codes "secret");
}

abbrev answer : ℕ → Text → Text → Text → Response
answer status content_digest challenge body = record {
  status = status;
  host = codes "ghcr.io";
  content_digest = content_digest;
  www_authenticate = challenge;
  content_type = [];
  location = [];
  body = some body;
}

-- The world is the list of the requests that were sent, the last one first.
abbrev reply : Response → Request → List Request → Option Response × List Request
reply manifest r log = (
  some (
      if has_prefix r.url (codes "https://ghcr.io/token")
      then answer 200 [] [] (codes "t0ken")
      else if has_prefix r.url (codes "https://ghcr.io/v2/team")
      then manifest
      else answer 401 [] (codes "Bearer realm=\"https://ghcr.io/token\",service=\"ghcr.io\"") []),
  r ∷ log,
)

abbrev web : Response → Web (List Request)
web manifest = record {
  send = λ _. reply manifest;
  inspect = λ _ log. (some (codes "ghcr.io/team/app@sha256:ab" ∷ []), log);
}

abbrev current : Web (List Request)
current = web (answer 200 (codes "sha256:ab") [] [])

abbrev refusing : Web (List Request)
refusing = web (answer 401 [] [] [])

abbrev local : List Text
local = codes "ghcr.io/team/app@sha256:ab" ∷ []

abbrev image : Image
image = record { name = app; repo_digests = some local }

abbrev sent : List Request
sent =
    record {
      url = codes "https://ghcr.io/v2/team/app/manifests/v1";
      authorization = codes "Bearer t0ken";
    }
    ∷ record { url = codes "https://ghcr.io/token"; authorization = codes "Basic me:secret" }
    ∷ record { url = codes "https://ghcr.io/v2/"; authorization = [] }
    ∷ []

up_to_date :
    compare_digest libraries formats current false image (codes "auth") [] ≡ (inr true, sent)
unfolding compare_digest
up_to_date = refl

compare_digest-true_example : IsUpToDate libraries formats current false app local
compare_digest-true_example =
    compare_digest-true libraries formats current false image (codes "auth") [] sent local refl
      up_to_date

-- A registry that refuses twice gives an empty digest and no error.
refused_twice : (fetch_digest libraries formats refusing false get app (codes "auth") []).0 ≡ inr []
unfolding fetch_digest
refused_twice = refl

get_token-keeps_example :
    All
      (IsAllowed libraries (current.send get) false app)
      (get_token libraries (current.send get) false app (codes "me:secret") []).1
get_token-keeps_example =
    get_token-keeps libraries (current.send get)
      (All (IsAllowed libraries (current.send get) false app)) false app
      (λ r log allowed all. (allowed, all)) (codes "me:secret") [] tt
