-- ===== src/Registry.antt =====
-- The comparison of digests in pkg/registry/digest/digest.go, on the digests that Docker and a
-- registry give.
pub mod Auth
pub mod Challenge
pub mod Fetch
pub mod Match
pub mod Response
mod Tests
use aether_supervisor.Prelude.{
  cut, Text, after_prefix, codes, Bool, true, false, ◌||◌, Option, none, some, List, [], ◌∷◌, ℕ,
  text_eq, if◌then◌else◌, ◌==◌,
}

unfoldable pub normalize_digest : Text → Text
normalize_digest digest = elim (after_prefix (codes "sha256:") digest) [
  | none ↦ digest
  | some after ↦ after
]

-- Does the digest of an image match the normalized digest of the registry?
unfoldable pub digest_matches : Text → Text → Bool
unfolding normalize_digest
digest_matches normalized_remote_digest digest = elim (cut digest b'@') [
  | none ↦ false
  | some (_, after) ↦ text_eq (normalize_digest after) normalized_remote_digest
]

unfoldable pub digests_match : List Text → Text → Bool
unfolding digest_matches normalize_digest
digests_match [] remote_digest = false
digests_match (digest ∷ local_digests) remote_digest =
    let rest = digests_match local_digests remote_digest in
    if digest_matches (normalize_digest remote_digest) digest then true else rest
