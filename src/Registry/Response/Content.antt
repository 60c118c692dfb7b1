-- ===== src/Registry/Response/Content.antt =====
-- Which digests an answer carries.
use aether_supervisor.Prelude.{
  Text, codes, after_prefix, trim_space, Bool, true, false, Option, none, some, [], ◌∷◌, ◌++◌, inl,
  inr, ◌⊎◌, ◌≡◌, refl, subst, if◌then◌else◌, ==_iff, arith, Option-cases,
}
use aether_supervisor.Container.Identifier.{is_empty}
use aether_supervisor.Registry.{normalize_digest}
use aether_supervisor.Registry.Response.{
  Method, head, get, Response, extract, extract_head_digest, extract_get_digest, plain_digest,
  is_json, body_digest,
}

after_prefix-some : (prefix s rest : Text) → after_prefix prefix s ≡ some rest → s ≡ prefix ++ rest
after_prefix-some [] s rest e = cc
after_prefix-some (p ∷ ps) [] rest e = absurd (cc)
after_prefix-some (p ∷ ps) (c ∷ cs) rest e =
    ground (arith, ==_iff p c, after_prefix-some ps cs rest)

-- The digest without the prefix "sha256:", if it has it.
abbrev pub Strips : Text → Text → Type 0
Strips digest rest =
    (digest ≡ codes "sha256:" ++ rest)
    ⊎ ((after_prefix (codes "sha256:") digest ≡ none) × (rest ≡ digest))

pub normalize_digest-Strips : (digest : Text) → Strips digest (normalize_digest digest)
unfolding normalize_digest
normalize_digest-Strips digest = elim (Option-cases (after_prefix (codes "sha256:") digest)) [
  | inl e ↦ rw (e, normalize_digest) (inr (refl, refl))
  | inr (rest, e) ↦
      rw (e, normalize_digest) (inl (after_prefix-some (codes "sha256:") digest rest e))
]

module _ (json_digest : Text → Option Text) where
  -- The text that is the digest of an answer: its header, or in its body the digest of the JSON, or
  -- the body itself.
  abbrev pub IsSource : Response → Text → Type 0
  IsSource r text =
      (text ≡ r.content_digest)
      ⊎ ((body : Text) × (r.body ≡ some body)
          × ((json_digest body ≡ some text) ⊎ (text ≡ trim_space body)))

  -- A digest that the answer carries, without its prefix.
  abbrev pub IsDigestOf : Response → Text → Type 0
  IsDigestOf r digest = (text : Text) × IsSource r text × Strips text digest

  stripped : (text digest : Text) → some (normalize_digest text) ≡ some digest → Strips text digest
  stripped text digest e = subst (Strips text) (inner e) (normalize_digest-Strips text)
    where
      inner : {s t : Text} → some s ≡ some t → s ≡ t
      inner e = cc

  from_if :
      (b : Bool) (digest : Text) (x y : Option Text) (P : Type 0)
      → (x ≡ some digest → P)
      → (y ≡ some digest → P)
      → (if b then x else y) ≡ some digest
      → P
  from_if true digest x y P f g e = f e
  from_if false digest x y P f g e = g e

  nothing : {P : Type 0} (digest : Text) → none ≡ some digest → P
  nothing digest e = absurd (cc)

  -- The digest of a body
  abbrev InBody : Text → Text → Type 0
  InBody body digest =
      (text : Text) × ((json_digest body ≡ some text) ⊎ (text ≡ trim_space body))
      × Strips text digest

  plain_digest-InBody :
      (body digest : Text) → plain_digest (trim_space body) ≡ some digest → InBody body digest
  plain_digest-InBody body digest =
      from_if _ digest none (some (normalize_digest (trim_space body))) (InBody body digest)
        (nothing digest) (λ e. (trim_space body, inr refl, stripped (trim_space body) digest e))

  manifest_digest-InBody :
      (body digest : Text) (o : Option Text)
      → json_digest body ≡ o
      → (elim o as (λ _. Option Text) [
        | some d ↦ if is_empty d then none else some (normalize_digest d)
        | none ↦ plain_digest (trim_space body)
      ])
        ≡ some digest
      → InBody body digest
  manifest_digest-InBody body digest none f e = plain_digest-InBody body digest e
  manifest_digest-InBody body digest (some d) f e =
      from_if (is_empty d) digest none (some (normalize_digest d)) (InBody body digest)
        (nothing digest) (λ e. (d, inl f, stripped d digest e)) e

  body_digest-InBody :
      (content_type body digest : Text)
      → body_digest json_digest content_type body (trim_space body) ≡ some digest
      → InBody body digest
  body_digest-InBody content_type body digest =
      from_if (is_empty (trim_space body)) digest none _ (InBody body digest) (nothing digest) (
        from_if _ digest _ _ (InBody body digest)
          (from_if (is_json content_type) digest _ none (InBody body digest)
            (manifest_digest-InBody body digest (json_digest body) refl) (nothing digest))
          (plain_digest-InBody body digest))

  of_body :
      (r : Response) (digest : Text) (o : Option Text)
      → r.body ≡ o
      → (elim o as (λ _. Option Text) [
        | none ↦ none
        | some body ↦ body_digest json_digest r.content_type body (trim_space body)
      ])
        ≡ some digest
      → IsDigestOf r digest
  of_body r digest none f e = nothing digest e
  of_body r digest (some body) f e =
      let (text, source, strips) = body_digest-InBody r.content_type body digest e in
      (text, inr (body, f, source), strips)

  -- What is read from an answer is a digest that it carries.
  pub extract-IsDigestOf :
      (method : Method) (r : Response) (digest : Text)
      → extract json_digest method r ≡ some digest
      → IsDigestOf r digest
  unfolding extract extract_head_digest extract_get_digest
  extract-IsDigestOf head r digest =
      from_if (is_empty r.content_digest) digest none _ (IsDigestOf r digest) (nothing digest)
        (λ e. (r.content_digest, inl refl, stripped r.content_digest digest e))
  extract-IsDigestOf get r digest =
      from_if (is_empty r.content_digest) digest _ _ (IsDigestOf r digest)
        (of_body r digest r.body refl)
        (λ e. (r.content_digest, inl refl, stripped r.content_digest digest e))
