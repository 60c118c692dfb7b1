-- ===== src/Registry/Auth/Frame.antt =====
-- To whom the credentials are sent.
use aether_supervisor.Prelude.{
  Text, Bool, Option, none, some, [], ◌⊎◌, inl, inr, ◌≡◌, refl, codes, Bool-cases, Option-cases,
  if-keeps, ◌||◌, ◌==◌, has_prefix, text_eq, not, trim_space,
}
use aether_supervisor.Container.Identifier.{is_empty}
use aether_supervisor.Registry.Response.{Response}
use aether_supervisor.Registry.Challenge.{to_lower}
use aether_supervisor.Registry.Auth.{
  Url, Reference, Libraries, Request, AuthError, Token, get_auth_url, request_token,
  get_bearer_header, handle_bearer_auth, answer_challenge, get_token, get_challenge_url,
  challenge_request,
}

module _ (l : Libraries) where
  module _ {W : Type 0} (send : Request → W → Option Response × W) (tls_skip : Bool)
      (image : Text) where
    -- The network has answered the challenge request for the image with this challenge.
    abbrev pub IsChallenge : Text → Type 0
    IsChallenge header =
        (image_ref : Reference) × (w : W) × (r : Response) × (l.parse_normalized image
          ≡ some image_ref)
        × ((send (challenge_request (l.render (get_challenge_url l tls_skip image_ref))) w).0
            ≡ some r)
        × (r.www_authenticate ≡ header)

    -- A request without credentials, or to the URL that such a challenge gives for the image
    abbrev pub IsAllowed : Request → Type 0
    IsAllowed r =
        (r.authorization ≡ [])
        ⊎ ((image_ref : Reference) × (header : Text) × (u : Url) × (l.parse_normalized image
              ≡ some image_ref)
            × IsChallenge header
            × (get_auth_url l (to_lower header) image_ref ≡ inr u)
            × (r.url ≡ l.render u))

  module _ {W : Type 0} (send : Request → W → Option Response × W) (P : W → Type 0)
      (tls_skip : Bool) (image : Text)
      (keeps : (r : Request) (w : W) → IsAllowed send tls_skip image r → P w → P (send r w).1) where
    request_token-keeps :
        (url registry_auth : Text) (w : W)
        → ((a : Text) → IsAllowed send tls_skip image (record { url = url; authorization = a }))
        → P w
        → P (request_token l send url registry_auth w).1
    unfolding request_token
    request_token-keeps url registry_auth w allowed p = elim (Bool-cases (l.accepts url)) [
      | inl h ↦ rw h (keeps _ w (allowed _) p)
      | inr h ↦ rw h p
    ]

    sum-cases : {A B : Type 0} (o : A ⊎ B) → ((a : A) × (o ≡ inl a)) ⊎ ((b : B) × (o ≡ inr b))
    sum-cases (inl a) = inl (a, refl)
    sum-cases (inr b) = inr (b, refl)

    get_bearer_header-keeps :
        (header : Text) (image_ref : Reference) (registry_auth : Text) (w : W)
        → IsChallenge send tls_skip image header
        → l.parse_normalized image ≡ some image_ref
        → P w
        → P (get_bearer_header l send (to_lower header) image_ref registry_auth w).1
    unfolding get_bearer_header
    get_bearer_header-keeps header image_ref registry_auth w asked e p =
        elim (sum-cases (get_auth_url l (to_lower header) image_ref)) [
          | inl (x, h) ↦ rw (h, get_bearer_header) p
          | inr (u, h) ↦
              rw (h, get_bearer_header)
                (request_token-keeps (l.render u) registry_auth w
                  (λ a. inr (image_ref, header, u, e, asked, h, refl)) p)
        ]

    handle_bearer_auth-keeps :
        (header registry_auth : Text) (redirected : Bool) (w : W)
        → IsChallenge send tls_skip image header
        → P w
        → P (handle_bearer_auth l send header image registry_auth redirected w).1
    unfolding handle_bearer_auth
    handle_bearer_auth-keeps header registry_auth redirected w asked p =
        elim (Option-cases (l.parse_normalized image)) [
          | inl h ↦ rw (h, handle_bearer_auth) p
          | inr (image_ref, h) ↦
              rw (h, handle_bearer_auth)
                (get_bearer_header-keeps header image_ref registry_auth w asked h p)
        ]

    answer_challenge-keeps :
        (registry_auth : Text) (url : Url) (res : Response) (w : W)
        → IsChallenge send tls_skip image res.www_authenticate
        → P w
        → P (answer_challenge l send image registry_auth url res w).1
    unfolding answer_challenge
    answer_challenge-keeps registry_auth url res w asked p =
        let Q = λ (o : (AuthError ⊎ Token) × W). P o.1 in
        if-keeps Q (res.status == 200 || is_empty res.www_authenticate) _ _ p (
          if-keeps Q (has_prefix (to_lower (trim_space res.www_authenticate)) (codes "basic")) _ _ p
            (if-keeps Q (has_prefix (to_lower (trim_space res.www_authenticate)) (codes "bearer")) _
              _
              (handle_bearer_auth-keeps res.www_authenticate registry_auth
                (not (text_eq res.host url.host)) w asked p)
              p))

    answered-keeps :
        (registry_auth : Text) (url : Url) (answer : Option Response) (w : W)
        → ((r : Response) → answer ≡ some r → IsChallenge send tls_skip image r.www_authenticate)
        → P w
        → P
            (elim answer as (λ _. (AuthError ⊎ Token) × W) [
              | none ↦ (inl AuthError.execute_request, w)
              | some res ↦ answer_challenge l send image registry_auth url res w
            ]).1
    answered-keeps registry_auth url none w asked p = p
    answered-keeps registry_auth url (some res) w asked p =
        answer_challenge-keeps registry_auth url res w (asked res refl) p

    -- GetToken does to the world only what requests do that carry no credentials, or go to the URL that
    -- is made from an answer of the network to the challenge request for the image.
    pub get_token-keeps :
        (registry_auth : Text) (w : W) → P w → P (get_token l send tls_skip image registry_auth w).1
    unfolding get_token
    get_token-keeps registry_auth w p = elim (Option-cases (l.parse_normalized image)) [
      | inl h ↦ rw (h, get_token) p
      | inr (image_ref, h) ↦
          let url = get_challenge_url l tls_skip image_ref in
          elim (Bool-cases (l.accepts (l.render url))) [
            | inl a ↦
                rw (h, get_token, a)
                  (answered-keeps registry_auth url (send (challenge_request (l.render url)) w).0
                    (send (challenge_request (l.render url)) w).1
                    (λ r e. (image_ref, w, r, h, e, refl))
                    (keeps (challenge_request (l.render url)) w (inl refl) p))
            | inr a ↦ rw (h, get_token, a) p
          ]
    ]
