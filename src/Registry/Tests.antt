-- ===== src/Registry/Tests.antt =====
-- A match with a prefix on one side, and a digest without a repository's separator.
use aether_supervisor.Prelude.{codes, inr, trim_space, true, false, [], ◌∷◌, ◌≡◌, refl}
use aether_supervisor.Registry.{digests_match}
use aether_supervisor.Registry.Challenge.{Challenge, process_challenge, extract_challenge_host}
use aether_supervisor.Registry.Challenge.RoundTrip.{header, lowered, process_challenge-header}

prefixed : digests_match (codes "repo@sha256:ab" ∷ []) (codes "ab") ≡ true
unfolding digests_match
prefixed = refl

malformed : digests_match (codes "sha256:ab" ∷ []) (codes "sha256:ab") ≡ false
unfolding digests_match
malformed = refl

abbrev challenge : Challenge
challenge = record {
  scope = codes "repository:Team/app:pull";
  realm = codes "https://ghcr.io/Token";
  service = codes "ghcr.io";
}

process_challenge-header_example : process_challenge (header challenge) ≡ inr (lowered challenge)
process_challenge-header_example =
    process_challenge-header challenge (refl, refl) (refl, refl) (refl, refl)

host_of_realm : extract_challenge_host (codes " https://ghcr.io/token") ≡ codes "ghcr.io"
unfolding extract_challenge_host trim_space
host_of_realm = refl
