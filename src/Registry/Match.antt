-- ===== src/Registry/Match.antt =====
-- When DigestsMatch finds a match.
use aether_supervisor.Prelude.{
  Text, text_eq_iff, true, false, some, List, [], ◌∷◌, ◌≡◌, refl, ◌↔◌, inl, inr, Memᴰ, Bool-cases,
  Option-cases, ap, sym, ◌∙◌,
}
use mathlib.Core.List.Memᴰ.{not-nil, cases_cons}
use aether_supervisor.Registry.{cut, normalize_digest, digest_matches, digests_match}

-- A digest of the image, after its repository, is that of the registry.
abbrev pub IsMatch : List Text → Text → Type 0
IsMatch local_digests remote_digest =
    (digest : Text) × Memᴰ digest local_digests
    × ((repo : Text) × (after : Text) × (cut digest b'@' ≡ some (repo, after))
        × (normalize_digest after ≡ normalize_digest remote_digest))

digest_matches_lem :
    (remote digest : Text)
    → digest_matches remote digest ≡ true
    → (repo : Text) × (after : Text) × (cut digest b'@' ≡ some (repo, after))
      × (normalize_digest after ≡ remote)
unfolding digest_matches
digest_matches_lem remote digest h = elim (Option-cases (cut digest b'@')) [
  | inl e ↦ absurd (false-ne-true (rw (digest_matches, e) at h))
  | inr ((repo, after), e) ↦ (
    repo,
    after,
    e,
    (text_eq_iff (normalize_digest after) remote).0 (rw (digest_matches, e) at h),
  )
]
  where
    false-ne-true : false ≡ true → ⊥
    false-ne-true e = cc

digest_matches_of :
    (remote digest repo after : Text)
    → cut digest b'@' ≡ some (repo, after)
    → normalize_digest after ≡ remote
    → digest_matches remote digest ≡ true
unfolding digest_matches
digest_matches_of remote digest repo after e h =
    rw (digest_matches, e) ((text_eq_iff (normalize_digest after) remote).1 h)

pub digests_match-found :
    (local_digests : List Text) (remote_digest : Text)
    → digests_match local_digests remote_digest ≡ true
    → IsMatch local_digests remote_digest
unfolding digests_match
digests_match-found [] remote h = absurd (cc)
digests_match-found (digest ∷ local_digests) remote h =
    elim (Bool-cases (digest_matches (normalize_digest remote) digest)) [
      | inl e ↦ (digest, Memᴰ.head refl, digest_matches_lem (normalize_digest remote) digest e)
      | inr e ↦
          let (d, m, found) =
            digests_match-found local_digests remote (rw (digests_match, e) at h) in
          (d, Memᴰ.tail m, found)
    ]

digests_match-of :
    (local_digests : List Text) (remote_digest : Text)
    → IsMatch local_digests remote_digest
    → digests_match local_digests remote_digest ≡ true
unfolding digests_match
digests_match-of [] remote (d, m, found) = absurd (not-nil m)
digests_match-of (digest ∷ local_digests) remote (d, m, (repo, after, e, f)) =
    elim (Bool-cases (digest_matches (normalize_digest remote) digest)) [
      | inl g ↦ rw g refl
      | inr g ↦ elim (cases_cons m) [
        | inl same ↦ absurd (
            true-ne-false (
              sym (digest_matches_of (normalize_digest remote) d repo after e f)
              ∙ ap (digest_matches (normalize_digest remote)) same
              ∙ g))
        | inr rest ↦ rw g (digests_match-of local_digests remote (d, rest, (repo, after, e, f)))
      ]
    ]
  where
    true-ne-false : true ≡ false → ⊥
    true-ne-false e = cc

-- DigestsMatch holds exactly if one of the digests of the image, cut at its first @ and without the
-- prefix "sha256:", is the digest of the registry without it.
pub digests_match_iff :
    (local_digests : List Text) (remote_digest : Text)
    → (digests_match local_digests remote_digest ≡ true) ↔ IsMatch local_digests remote_digest
digests_match_iff local_digests remote_digest =
    (digests_match-found local_digests remote_digest, digests_match-of local_digests remote_digest)
