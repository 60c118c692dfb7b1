-- ===== src/Registry/Challenge.antt =====
-- The challenge in the header WWW-Authenticate: ProcessChallenge, extractChallengeHost and the pairs
-- that GetAuthURL reads in pkg/registry/auth/auth.go. Texts are ASCII.
pub mod RoundTrip
use aether_supervisor.Prelude.{
  Text, Assoc, lookup, insert, cut, split, trim_space, trim_prefix, has_prefix, after_prefix, codes,
  map, reverse, Bool, true, false, ◌&&◌, Option, none, some, List, [], ◌∷◌, ◌+◌, ◌⊎◌, inl, inr, ℕ,
  leb, ◌==◌, if◌then◌else◌,
}

abbrev pub lower : ℕ → ℕ
lower c = if leb b'A' c && leb c b'Z' then c + 32 else c

-- strings.ToLower on ASCII text
abbrev pub to_lower : Text → Text
to_lower [] = []
to_lower (c ∷ s) = lower c ∷ to_lower s

-- strings.Trim with one byte as the set
abbrev pub drop_byte : ℕ → Text → Text
drop_byte b [] = []
drop_byte b (c ∷ s) = let rest = drop_byte b s in if c == b then rest else c ∷ s

unfoldable pub trim_byte : ℕ → Text → Text
trim_byte b s = reverse (drop_byte b (reverse (drop_byte b s)))

abbrev pub quote : ℕ
quote = 34

-- One part of the header, trimmed: what stands before and behind the first `=`
abbrev pub add_pair : Text → Assoc Text → Assoc Text
add_pair trimmed values = elim (cut trimmed b'=') [
  | none ↦ values
  | some (key, val) ↦ insert key (trim_byte quote val) values
]

abbrev pub add_pairs : (Text → Text) → List Text → Assoc Text → Assoc Text
add_pairs trim [] values = values
add_pairs trim (part ∷ parts) values = add_pairs trim parts (add_pair (trim part) values)

pub record Challenge : Type 0 where
  pub scope : Text
  pub realm : Text
  pub service : Text

pub data ChallengeError : Type 0 where
  unsupported_challenge : ChallengeError
  invalid_challenge_header : ChallengeError

abbrev pub value_of : Text → Assoc Text → Text
value_of key values = elim (lookup key values) [ none ↦ [] | some v ↦ v ]

abbrev pub challenge_of : Assoc Text → ChallengeError ⊎ Challenge
challenge_of values = elim (lookup (codes "realm") values) [
  | none ↦ inl invalid_challenge_header
  | some realm ↦ elim (lookup (codes "service") values) [
    | none ↦ inl invalid_challenge_header
    | some service ↦
        inr (record { scope = value_of (codes "scope") values; realm = realm; service = service })
  ]
]

unfoldable pub process_challenge : Text → ChallengeError ⊎ Challenge
unfolding trim_byte trim_space
process_challenge www_auth_header =
    let lowered = to_lower www_auth_header in
    if has_prefix lowered (codes "bearer")
    then challenge_of (add_pairs trim_space (split (trim_prefix lowered (codes "bearer ")) b',') [])
    else inl unsupported_challenge

abbrev pub before_slash : Text → Text
before_slash host = elim (cut host b'/') [ none ↦ host | some (before, _) ↦ before ]

unfoldable pub extract_challenge_host : Text → Text
unfolding trim_space
extract_challenge_host realm = elim (after_prefix (codes "https://") (trim_space realm)) [
  | some after ↦ before_slash after
  | none ↦ elim (after_prefix (codes "http://") (trim_space realm)) [
    | some after ↦ before_slash after
    | none ↦ []
  ]
]

-- The values of GetAuthURL, which trims other bytes than process_challenge.
unfoldable pub challenge_values : Text → Assoc Text
unfolding trim_byte
challenge_values challenge =
    add_pairs (trim_byte b' ') (split (trim_prefix (to_lower challenge) (codes "bearer")) b',') []
