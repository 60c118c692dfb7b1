-- ===== src/Registry/Fetch/Found.antt =====
-- When CompareDigest finds that an image is up to date.
use aether_supervisor.Prelude.{
  Text, Bool, true, Option, none, some, List, [], ◌∷◌, ◌⊎◌, inl, inr, ◌≡◌, sym, ap, ◌∙◌, subst,
  Memᴰ,
}
use aether_supervisor.Registry.{cut, normalize_digest, digests_match}
use aether_supervisor.Registry.Match.{digests_match-found}
use aether_supervisor.Registry.Response.Content.{Strips, normalize_digest-Strips}
use aether_supervisor.Registry.Response.{head, get}
use aether_supervisor.Registry.Auth.{Libraries}
use aether_supervisor.Registry.Fetch.{
  Image, Formats, Web, FetchError, Fetched, fetch_digest, compared, after_head, compare_digest,
}
use aether_supervisor.Registry.Fetch.Genuine.{IsAnswered, IsGenuine, fetch_digest-IsGenuine}

module _ (l : Libraries) (formats : Formats) {W : Type 0} (web : Web W) (tls_skip : Bool)
    (image : Text) where
  -- One of the digests is, behind its first @, the one that an answer carries, or is empty there; the
  -- prefix "sha256:" does not count.
  abbrev pub IsUpToDate : List Text → Type 0
  IsUpToDate digests =
      (d : Text) × (found : Text) × Memᴰ found digests
      × ((repo : Text) × (after : Text) × (cut found b'@' ≡ some (repo, after))
          × ((rest : Text) × Strips after rest × Strips d rest))
      × ((d ≡ []) ⊎ IsAnswered l formats web tls_skip image d)

  matched_digest :
      (digests : List Text) (d : Text)
      → ((d ≡ []) ⊎ IsAnswered l formats web tls_skip image d)
      → digests_match digests d ≡ true
      → IsUpToDate digests
  matched_digest digests d g e =
      let (found, m, (repo, after, f, same)) = digests_match-found digests d e in
      (
        d,
        found,
        m,
        (
          repo,
          after,
          f,
          (
            normalize_digest d,
            subst (Strips after) same (normalize_digest-Strips after),
            normalize_digest-Strips d,
          ),
        ),
        g,
      )

  compared-IsUpToDate :
      (digests : List Text) (o : Fetched l formats web) (w : W)
      → IsGenuine l formats web tls_skip image o
      → compared l formats web digests o ≡ (inr true, w)
      → IsUpToDate digests
  compared-IsUpToDate digests (inl x, w') w g e = absurd (cc)
  compared-IsUpToDate digests (inr d, w') w g e = matched_digest digests d g matched
    where
      matched : digests_match digests d ≡ true
      matched = cc e

  after_head-IsUpToDate :
      (fetch_by_get : W → Fetched l formats web) (digests : List Text) (o : Fetched l formats web)
      (w : W)
      → ((v : W) → IsGenuine l formats web tls_skip image (fetch_by_get v))
      → IsGenuine l formats web tls_skip image o
      → after_head l formats web fetch_by_get digests o ≡ (inr true, w)
      → IsUpToDate digests
  after_head-IsUpToDate fetch digests (inl x, w') w f g e = absurd (cc)
  after_head-IsUpToDate fetch digests (inr [], w') w f g e =
      compared-IsUpToDate digests (fetch w') w (f w') e
  after_head-IsUpToDate fetch digests (inr (c ∷ d), w') w f g e =
      compared-IsUpToDate digests (inr (c ∷ d), w') w g e

module _ (l : Libraries) (formats : Formats) {W : Type 0} (web : Web W) where
  -- CompareDigest answers that the image is up to date only if one of its digests, behind its first @,
  -- is the digest that a successful answer of the network carries, to a request for the manifest of
  -- the image's reference and tag at any host, or is empty. The prefix "sha256:" does not count.
  pub compare_digest-true :
      (tls_skip : Bool) (image : Image) (registry_auth : Text) (w w' : W) (digests : List Text)
      → image.repo_digests ≡ some digests
      → compare_digest l formats web tls_skip image registry_auth w ≡ (inr true, w')
      → IsUpToDate l formats web tls_skip image.name digests
  unfolding compare_digest
  compare_digest-true tls_skip image registry_auth w w' digests h e =
      after_head-IsUpToDate l formats web tls_skip image.name
        (fetch_digest l formats web tls_skip get image.name registry_auth) digests
        (fetch_digest l formats web tls_skip head image.name registry_auth w) w'
        (fetch_digest-IsGenuine l formats web tls_skip image.name get registry_auth)
        (fetch_digest-IsGenuine l formats web tls_skip image.name head registry_auth w)
        (ap (λ o. read o) (sym h) ∙ e)
    where
      read : Option (List Text) → (FetchError ⊎ Bool) × W
      read o = elim o [
        | none ↦ (inl FetchError.missing_image_info, w)
        | some ds ↦
            after_head l formats web
              (fetch_digest l formats web tls_skip get image.name registry_auth) ds
              (fetch_digest l formats web tls_skip head image.name registry_auth w)
      ]
