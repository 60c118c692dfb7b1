-- ===== src/Update/Scan/Stale.antt =====
-- Which containers the staleness check of Update marks.
use aether_supervisor.Prelude.{
  if-keeps, Text, lookup, Bool, true, false, ◌&&◌, Option, none, some, List, [], ◌∷◌, ◌≡◌, refl,
  sym, ◌∙◌, ◌⊎◌, inl, inr, Option-cases, if◌then◌else◌,
}
use aether_supervisor.Container.Data.{
  Container, id, image_id, set_old_image_id, verify_configuration,
}
use aether_supervisor.Container.Labels.{UpdateParams, is_watchtower}
use aether_supervisor.Container.Client.{Client, Result, ok, parent}
use aether_supervisor.Session.Progress.{Progress}
use aether_supervisor.Update.Keyed.{Result-cases}
use aether_supervisor.Update.Pinned.{pinned, is_pinned}
use aether_supervisor.Update.Select.{should_update_container}
use aether_supervisor.Update.Scan.{
  Checked, scan, update_error, record_check, check_stale, check_container,
}

is_pinned_lem :
    (parse_docker_ref : Text → Result Bool) (c : Container) (m : Progress) (config : UpdateParams)
    → (is_pinned parse_docker_ref c m config).0 ≡ pinned parse_docker_ref c
unfolding is_pinned
is_pinned_lem parse_docker_ref c m config = refl

module _ (parse_docker_ref : Text → Result Bool) (config : UpdateParams) where
  -- What holds of a container that is marked.
  abbrev pub IsUpdate : Container → Type 0
  IsUpdate c =
      (should_update_container true c config ≡ true)
      × (verify_configuration c ≡ none)
      × (pinned parse_docker_ref c ≡ ok false)

  -- The container after the check, with the same data and image, whose stale mark, if it is new, is right and has a cause.
  abbrev pub IsChecked : Type 0 → Container → Container → Type 0
  IsChecked Cause c d =
      (d.container_info ≡ c.container_info)
      × (d.image_info ≡ c.image_info)
      × (d.stale ≡ true → (c.stale ≡ true) ⊎ (IsUpdate c × Cause))

  with_cause : (A B : Type 0) (c d : Container) → (A → B) → IsChecked A c d → IsChecked B c d
  with_cause A B c d f (i, r, m) =
      (i, r, λ h. elim (m h) [ inl old ↦ inl old | inr (u, a) ↦ inr (u, f a) ])

  some-ne-none : {A : Type 0} {a : A} → some a ≡ none → ⊥
  some-ne-none e = cc

  true-ne-false : false ≡ true → ⊥
  true-ne-false e = cc

  update_error_lem :
      (failure : Option Text) (c : Container)
      → update_error failure true c ≡ none
      → verify_configuration c ≡ none
  unfolding update_error
  update_error_lem none c e = elim (Option-cases (verify_configuration c)) [
    | inl v ↦ v
    | inr (x, v) ↦ absurd (some-ne-none (rw (update_error, v) at e))
  ]
  update_error_lem (some t) c e = absurd (cc)

  tracked_info :
      (b : Bool) (i : Text) (c : Container)
      → (if b then set_old_image_id i c else c).container_info ≡ c.container_info
  tracked_info true i c = refl
  tracked_info false i c = refl

  tracked_image :
      (b : Bool) (i : Text) (c : Container)
      → (if b then set_old_image_id i c else c).image_info ≡ c.image_info
  tracked_image true i c = refl
  tracked_image false i c = refl

  tracked_configuration :
      (b : Bool) (i : Text) (c : Container)
      → verify_configuration (if b then set_old_image_id i c else c) ≡ verify_configuration c
  unfolding verify_configuration
  tracked_configuration true i c = refl
  tracked_configuration false i c = refl

  marked_lem :
      (c : Container) (stale : Bool) (failure : Option Text)
      → let should = should_update_container stale c config in
        (stale && should) ≡ true
        → update_error failure should (if should then set_old_image_id (image_id c) c else c) ≡ none
        → (stale ≡ true)
          × (should_update_container true c config ≡ true)
          × (verify_configuration c ≡ none)
  marked_lem c false failure h e = absurd (true-ne-false h)
  marked_lem c true failure h e = (
    refl,
    h,
    sym (tracked_configuration true (image_id c) c)
        ∙ update_error_lem failure (set_old_image_id (image_id c) c) (rw h at e),
  )

  record_check-IsChecked :
      (c : Container) (m : Progress) (stale : Bool) (newest : Text) (failure : Option Text)
      → pinned parse_docker_ref c ≡ ok false
      → IsChecked (stale ≡ true) c (record_check config c m (stale, newest, failure)).container
  unfolding record_check
  record_check-IsChecked c m stale newest failure p =
      let should = should_update_container stale c config in
      let tracked = if should then set_old_image_id (image_id c) c else c in
      elim (Option-cases (update_error failure should tracked)) [
        | inr (_, e) ↦
            rw (record_check, e)
              (
                tracked_info should (image_id c) c,
                tracked_image should (image_id c) c,
                λ h. absurd (true-ne-false h),
              )
        | inl e ↦
            rw (record_check, e)
              (
                tracked_info should (image_id c) c,
                tracked_image should (image_id c) c,
                λ h. inr (let (s, u, v) = marked_lem c stale failure h e in ((u, v, p), s)),
              )
      ]

module _ {W : Type 0} (client : Client W) (parse_docker_ref : Text → Result Bool)
    (config : UpdateParams) where
  -- The client says of the container that it is stale.
  abbrev pub SaysStale : Container → Type 0
  SaysStale c = (w : W) × ((client.is_container_stale parent c config w).0.0 ≡ true)

  check_stale-IsChecked :
      (c : Container) (m : Progress) (w : W)
      → pinned parse_docker_ref c ≡ ok false
      → IsChecked parse_docker_ref config
          (SaysStale c)
          c
          (check_stale client parse_docker_ref config c m w).0.container
  unfolding check_stale
  check_stale-IsChecked c m w p =
      let answer = client.is_container_stale parent c config w in
      if-keeps
        (λ (r : Checked × W). IsChecked parse_docker_ref config (SaysStale c) c r.0.container)
        (is_watchtower c && config.skip_self_update) _ _
        (with_cause parse_docker_ref config (false ≡ true) (SaysStale c) c
          (record_check config c m (false, image_id c, none)).container
          (λ e. absurd (true-ne-false parse_docker_ref config e))
          (record_check-IsChecked parse_docker_ref config c m false (image_id c) none p))
        (with_cause parse_docker_ref config (answer.0.0 ≡ true) (SaysStale c) c
          (record_check config c m answer.0).container (λ e. (w, e))
          (record_check-IsChecked parse_docker_ref config c m answer.0.0 answer.0.1 answer.0.2 p))

  -- What holds of a container and of it after a staleness check holds of it after the check.
  check_container-keeps :
      (P : Container → Type 0) (c : Container) (m : Progress) (w : W)
      → P c
      → ((m' : Progress)
          → pinned parse_docker_ref c ≡ ok false
          → P (check_stale client parse_docker_ref config c m' w).0.container)
      → P (check_container client parse_docker_ref config c m w).0.container
  unfolding check_container
  check_container-keeps P c m w h k = elim (Option-cases (lookup (id c) m)) [
    | inr (_, e) ↦ rw (check_container, e) h
    | inl e ↦
        let m' = (is_pinned parse_docker_ref c m config).1 in
        let same = sym (is_pinned_lem parse_docker_ref c m config) in
        elim (Result-cases (is_pinned parse_docker_ref c m config).0) [
          | inr (_, f) ↦ rw (check_container, e, f) h
          | inl (true, f) ↦ rw (check_container, e, f) h
          | inl (false, f) ↦ rw (check_container, e, f) (k m' (same ∙ f))
        ]
  ]

  check_container-IsChecked :
      (c : Container) (m : Progress) (w : W)
      → IsChecked parse_docker_ref config
          (SaysStale c)
          c
          (check_container client parse_docker_ref config c m w).0.container
  check_container-IsChecked c m w =
      check_container-keeps (IsChecked parse_docker_ref config (SaysStale c) c) c m w
        (refl, refl, λ h. inl h) λ m' p. check_stale-IsChecked c m' w p

  -- Each container after the checks, whose stale mark has that cause.
  abbrev pub AllChecked : List Container → List Container → Type 0
  AllChecked [] [] = Unit
  AllChecked (c ∷ cs) (d ∷ ds) =
      IsChecked parse_docker_ref config (SaysStale c) c d × AllChecked cs ds
  AllChecked _ _ = ⊥

  unchanged : (cs : List Container) → AllChecked cs cs
  unchanged [] = tt
  unchanged (c ∷ cs) = ((refl, refl, λ h. inl h), unchanged cs)

  -- The checks change nothing of the labels, the configuration and the image of a container, and they
  -- mark one as stale only if the client says so, it is to be updated if it is stale, its configuration is
  -- valid and its image is not pinned.
  pub scan_lem :
      (cs : List Container) (m : Progress) (pull_failed : Bool) (w : W)
      → AllChecked cs (scan client parse_docker_ref config cs m pull_failed w).0.containers
  unfolding scan
  scan_lem [] m pull_failed w = tt
  scan_lem (c ∷ cs) m pull_failed w = elim (Option-cases (client.context_error w).0) [
    | inr (_, e) ↦ rw (scan, e) (unchanged (c ∷ cs))
    | inl e ↦
        let w' = (client.context_error w).1 in
        rw (scan, e) (check_container-IsChecked c m w', scan_lem cs _ _ _)
  ]
