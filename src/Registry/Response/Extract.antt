-- ===== src/Registry/Response/Extract.antt =====
-- What a digest and a retry that an answer leads to say of the answer.
use aether_supervisor.Prelude.{
  Text, text_eq, Bool, true, false, ◌&&◌, not, Option, none, some, [], ◌≢◌, inl, inr, ◌≡◌, refl,
  sym, ap, ℕ, if◌then◌else◌, Bool-cases, Option-cases,
}
use aether_supervisor.Container.Identifier.{is_empty}
use aether_supervisor.Registry.Response.{
  Method, Response, Handled, digest, retry, invalid, is_success, is_refused, extract,
  handle_manifest_response, redirect_host, extracted, head_fallback, fall_back, not_found_by_head,
  failure,
}

digest-injective : {a b : Text} → digest a ≡ digest b → a ≡ b
digest-injective e = cc

if-retry :
    (b : Bool) (h : Text) (other : Handled) (d : Text)
    → (if b then retry h else other) ≡ digest d
    → other ≡ digest d
if-retry true h other d e = absurd (cc)
if-retry false h other d e = e

fall_back-digest :
    (status : ℕ) (original challenge : Text) (redirected : Bool) (current d : Text)
    → fall_back status original challenge redirected current ≡ digest d
    → d ≡ []
fall_back-digest status original challenge redirected current d e = sym (
    digest-injective (
      if-retry
        (not redirected
          && not (is_empty challenge)
          && text_eq current original
          && is_refused status)
        challenge (digest []) d e))

failure-ne-digest :
    (method : Method) (status : ℕ) (original challenge current d : Text)
    → failure method status original challenge current ≡ digest d
    → ⊥
failure-ne-digest method status original challenge current d e =
    elim (Bool-cases (not_found_by_head method status)) [
      | inl h ↦ invalid-ne (rw h at e)
      | inr h ↦ invalid-ne (
          if-retry (is_refused status && not (is_empty challenge) && text_eq current original)
            challenge invalid d
            (if-retry (is_refused status && not (text_eq current original)) original _ d
              (rw h at e)))
    ]
  where
    invalid-ne : invalid ≡ digest d → ⊥
    invalid-ne e = cc

extracted-digest : (o : Option Text) (d : Text) → extracted o ≡ digest d → o ≡ some d
extracted-digest none d e = absurd (cc)
extracted-digest (some x) d e = ap some (digest-injective e)

retry-ne : (h d : Text) → retry h ≡ digest d → ⊥
retry-ne h d e = cc

settled :
    (success : Bool) (o : Option Text) (other : Handled) (d : Text)
    → (other ≡ digest d → ⊥)
    → (if success then extracted o else other) ≡ digest d
    → (success ≡ true) × (o ≡ some d)
settled true o other d f e = (refl, extracted-digest o d e)
settled false o other d f e = absurd (f e)

module _ (json_digest url_host : Text → Option Text) where
  abbrev handled : Response → Method → Text → Text → Bool → Text → Handled
  handled = handle_manifest_response json_digest url_host

  -- A digest that is not empty stands in a successful answer.
  pub handle_manifest_response-digest :
      (r : Response) (method : Method) (original challenge : Text) (redirected : Bool)
      (current d : Text)
      → handled r method original challenge redirected current ≡ digest d
      → d ≢ []
      → (is_success r.status ≡ true) × (extract json_digest method r ≡ some d)
  unfolding handle_manifest_response
  handle_manifest_response-digest r method original challenge redirected current d e n =
      elim (Bool-cases (head_fallback method r.status)) [
        | inl h ↦ absurd (
            n (
              fall_back-digest r.status original challenge redirected current d
                (rw (h, handle_manifest_response) at e)))
        | inr h ↦ elim (Option-cases (redirect_host url_host r.status r.location current)) [
          | inl none_there ↦
              settled (is_success r.status) (extract json_digest method r)
                (failure method r.status original challenge current) d
                (failure-ne-digest method r.status original challenge current d)
                (rw (h, none_there, handle_manifest_response) at e)
          | inr (host, there) ↦
              absurd (retry-ne host d (rw (h, there, handle_manifest_response) at e))
        ]
      ]
