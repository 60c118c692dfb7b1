-- ===== src/Registry/Challenge/RoundTrip.antt =====
-- A challenge that is written out reads back.
use mathlib.Core.Path.{ap₂}
use mathlib.Core.List.{reverse-append, reverse-reverse}
use aether_supervisor.Prelude.{
  Text, Assoc, insert, split, split-append, split-whole, contains_byte, trim_space, is_space, codes,
  reverse, false, List, [], ◌∷◌, ◌++◌, append_assoc, ◌⊎◌, inr, ℕ, ◌<◌, subst, ◌≡◌, refl, ap, ◌∙◌,
  arith, ◌==◌,
}
use aether_supervisor.Registry.Challenge.{
  lower, to_lower, drop_byte, trim_byte, quote, add_pair, add_pairs, Challenge, ChallengeError,
  challenge_of, process_challenge,
}

-- A value without a comma and without a quote
abbrev pub IsPlain : Text → Type 0
IsPlain v = (contains_byte v b',' ≡ false) × (contains_byte v quote ≡ false)

to_lower-append : (a b : Text) → to_lower (a ++ b) ≡ to_lower a ++ to_lower b
to_lower-append [] b = refl
to_lower-append (c ∷ a) b = ap (λ s. lower c ∷ s) (to_lower-append a b)

lower-eq : (c b : ℕ) → b < 65 → (lower c == b) ≡ (c == b)
lower-eq c b h = ground arith

contains_byte-to_lower :
    (v : Text) (b : ℕ) → b < 65 → contains_byte (to_lower v) b ≡ contains_byte v b
contains_byte-to_lower [] b h = refl
contains_byte-to_lower (c ∷ v) b h = rw (lower-eq c b h, contains_byte-to_lower v b h) refl

IsPlain-to_lower : (v : Text) → IsPlain v → IsPlain (to_lower v)
IsPlain-to_lower v p = (
  contains_byte-to_lower v b',' (omega arith) ∙ p.0,
  contains_byte-to_lower v quote (omega arith) ∙ p.1,
)

reverse-snoc : (s : Text) (d : ℕ) → reverse (s ++ d ∷ []) ≡ d ∷ reverse s
reverse-snoc s d = reverse-append s (d ∷ [])

contains_byte-append :
    (a b : Text) (c : ℕ)
    → contains_byte a c ≡ false
    → contains_byte b c ≡ false
    → contains_byte (a ++ b) c ≡ false
contains_byte-append [] b c h k = k
contains_byte-append (x ∷ a) b c h k = ground (arith, contains_byte-append a b c)

contains_byte-reverse :
    (v : Text) (b : ℕ) → contains_byte v b ≡ false → contains_byte (reverse v) b ≡ false
contains_byte-reverse [] b h = refl
contains_byte-reverse (x ∷ v) b h = rw (reverse-append (x ∷ []) v) (
    contains_byte-append (reverse v) (x ∷ []) b (contains_byte-reverse v b (ground arith))
      (ground arith))

-- A text between bytes that are no spaces is trimmed already.
trim_space-ends :
    (c d : ℕ) (s : Text)
    → is_space c ≡ false
    → is_space d ≡ false
    → trim_space (c ∷ s ++ d ∷ []) ≡ c ∷ s ++ d ∷ []
unfolding trim_space
trim_space-ends c d s h k =
    rw (h, reverse-snoc (c ∷ s) d, k, ← reverse-snoc (c ∷ s) d) (reverse-reverse (c ∷ s ++ d ∷ []))

drop_byte-absent : (b : ℕ) (v : Text) → contains_byte v b ≡ false → drop_byte b v ≡ v
drop_byte-absent b [] h = refl
drop_byte-absent b (x ∷ v) h = ground arith

trim_byte-quotes :
    (v : Text) → contains_byte v quote ≡ false → trim_byte quote (quote ∷ v ++ quote ∷ []) ≡ v
unfolding trim_byte
trim_byte-quotes [] h = refl
trim_byte-quotes (x ∷ v) h =
    rw
      (
        drop_byte-first x (v ++ quote ∷ []) (ground arith),
        reverse-snoc (x ∷ v) quote,
        drop_byte-absent quote (reverse (x ∷ v)) (contains_byte-reverse (x ∷ v) quote h),
      )
      (reverse-reverse (x ∷ v))
  where
    drop_byte-first : (x : ℕ) (s : Text) → (x == quote) ≡ false → drop_byte quote (x ∷ s) ≡ x ∷ s
    drop_byte-first x s e = rw e refl

-- key="value"
abbrev pub pair : Text → Text → Text
pair key v = key ++ b'=' ∷ quote ∷ v ++ quote ∷ []

-- The header of a challenge
abbrev pub header : Challenge → Text
header c =
    codes "Bearer "
    ++ (pair (codes "realm") c.realm
        ++ b',' ∷ (pair (codes "service") c.service ++ b',' ∷ pair (codes "scope") c.scope))

to_lower-pair : (key v : Text) → to_lower (pair key v) ≡ pair (to_lower key) (to_lower v)
to_lower-pair key v =
    to_lower-append (key ++ b'=' ∷ quote ∷ v) (quote ∷ [])
    ∙ ap (λ s. s ++ quote ∷ []) (to_lower-append key (b'=' ∷ quote ∷ v))

-- The values in lower case
abbrev pub lowered : Challenge → Challenge
lowered c = record {
  scope = to_lower c.scope;
  realm = to_lower c.realm;
  service = to_lower c.service;
}

abbrev params : Challenge → Text
params c =
    pair (codes "realm") c.realm
    ++ b',' ∷ (pair (codes "service") c.service ++ b',' ∷ pair (codes "scope") c.scope)

to_lower-params : (c : Challenge) → to_lower (params c) ≡ params (lowered c)
to_lower-params c =
    to_lower-append (pair (codes "realm") c.realm)
      (b',' ∷ (pair (codes "service") c.service ++ b',' ∷ pair (codes "scope") c.scope))
    ∙ ap₂ (λ s t. s ++ b',' ∷ t) (to_lower-pair (codes "realm") c.realm)
        (to_lower-append (pair (codes "service") c.service) (b',' ∷ pair (codes "scope") c.scope)
          ∙ ap₂ (λ s t. s ++ b',' ∷ t) (to_lower-pair (codes "service") c.service)
              (to_lower-pair (codes "scope") c.scope))

contains_byte-pair :
    (key v : Text) (b : ℕ)
    → contains_byte (key ++ b'=' ∷ quote ∷ []) b ≡ false
    → contains_byte v b ≡ false
    → (quote == b) ≡ false
    → contains_byte (pair key v) b ≡ false
contains_byte-pair key v b h k q =
    subst (λ s. contains_byte s b ≡ false) regroup
      (contains_byte-append ((key ++ b'=' ∷ quote ∷ []) ++ v) (quote ∷ []) b
        (contains_byte-append (key ++ b'=' ∷ quote ∷ []) v b h k) (rw q refl))
  where
    regroup : ((key ++ b'=' ∷ quote ∷ []) ++ v) ++ quote ∷ [] ≡ pair key v
    regroup = ap (λ s. s ++ quote ∷ []) (append_assoc key (b'=' ∷ quote ∷ []) v)

split-params :
    (c : Challenge)
    → IsPlain c.realm
    → IsPlain c.service
    → IsPlain c.scope
    → split (params c) b','
      ≡ pair (codes "realm") c.realm
        ∷ pair (codes "service") c.service
        ∷ pair (codes "scope") c.scope
        ∷ []
split-params c r s t =
    split-append (pair (codes "realm") c.realm)
      (pair (codes "service") c.service ++ b',' ∷ pair (codes "scope") c.scope) b','
    ∙ ap₂ ◌++◌
        (split-whole (pair (codes "realm") c.realm) b','
          (contains_byte-pair (codes "realm") c.realm b',' refl r.0 refl))
        (split-append (pair (codes "service") c.service) (pair (codes "scope") c.scope) b','
          ∙ ap₂ ◌++◌
              (split-whole (pair (codes "service") c.service) b','
                (contains_byte-pair (codes "service") c.service b',' refl s.0 refl))
              (split-whole (pair (codes "scope") c.scope) b','
                (contains_byte-pair (codes "scope") c.scope b',' refl t.0 refl)))

add_realm :
    (v : Text) (m : Assoc Text)
    → IsPlain v
    → add_pair (trim_space (pair (codes "realm") v)) m ≡ insert (codes "realm") v m
add_realm v m p =
    rw (trim_space-ends b'r' quote (codes "ealm=" ++ quote ∷ v) refl refl, trim_byte-quotes v p.1)
      refl

add_service :
    (v : Text) (m : Assoc Text)
    → IsPlain v
    → add_pair (trim_space (pair (codes "service") v)) m ≡ insert (codes "service") v m
add_service v m p =
    rw (trim_space-ends b's' quote (codes "ervice=" ++ quote ∷ v) refl refl, trim_byte-quotes v p.1)
      refl

add_scope :
    (v : Text) (m : Assoc Text)
    → IsPlain v
    → add_pair (trim_space (pair (codes "scope") v)) m ≡ insert (codes "scope") v m
add_scope v m p =
    rw (trim_space-ends b's' quote (codes "cope=" ++ quote ∷ v) refl refl, trim_byte-quotes v p.1)
      refl

abbrev parsed : List Text → ChallengeError ⊎ Challenge
parsed parts = challenge_of (add_pairs trim_space parts [])

-- A header with a realm, a service and a scope that hold no comma and no quote reads back as these
-- values in lower case.
pub process_challenge-header :
    (c : Challenge)
    → IsPlain c.realm
    → IsPlain c.service
    → IsPlain c.scope
    → process_challenge (header c) ≡ inr (lowered c)
unfolding process_challenge
process_challenge-header c r s t =
    let low = lowered c in
    let r' = IsPlain-to_lower c.realm r in
    let s' = IsPlain-to_lower c.service s in
    let t' = IsPlain-to_lower c.scope t in
    ap (λ x. parsed (split x b',')) (to_lower-params c)
    ∙ ap parsed (split-params low r' s' t')
    ∙ rw
        (
          add_realm low.realm [] r',
          add_service low.service (insert (codes "realm") low.realm []) s',
          add_scope low.scope
              (insert (codes "service") low.service (insert (codes "realm") low.realm [])) t',
        )
        refl
