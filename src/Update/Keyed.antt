-- ===== src/Update/Keyed.antt =====
-- The progress map of a run of Update stays keyed by the IDs of its statuses.
use aether_supervisor.Prelude.{
  if-keeps, Text, lookup, text_eq, Bool, false, ◌&&◌, Option, none, List, [], ◌∷◌, ◌≡◌, refl, ◌⊎◌,
  inl, inr, Bool-cases, Option-cases, if◌then◌else◌,
}
use aether_supervisor.Container.Data.{Container, id, name, image_id, to_restart, set_old_image_id}
use aether_supervisor.Container.Labels.{UpdateParams, is_watchtower}
use aether_supervisor.Container.Client.{Client, Result, ok, err, parent}
use aether_supervisor.Session.Status.{State, set_new_container_id}
use aether_supervisor.Session.Progress.{
  Progress, add_skipped, add_scanned, mark, mark_for_update, mark_restarted,
}
use aether_supervisor.Session.Progress.Keyed.{IsKeyed, add-IsKeyed, adjust-IsKeyed}
use aether_supervisor.Update.Pinned.{is_pinned, pinned}
use aether_supervisor.Update.Restart.{Restart, Restarts, note_restart}
use aether_supervisor.Update.Batch.{record_restart, is_restartable, restart_one, restart_each}
use aether_supervisor.Update.Rolling.{record_rolling, roll, roll_one, roll_each}
use aether_supervisor.Update.Scan.{
  skip_self_dependencies, skip_cycles, Checked, scan, update_error, record_check, check_stale,
  check_container,
}
use aether_supervisor.Update.Select.{has_self_dependency, should_update_container}
use aether_supervisor.Update.Stop.{stop_stale_container, RemovedImageInfo}
use aether_supervisor.Update.Run.{skip_circular, mark_all_for_update}

pub Result-cases : {A : Type 0} (r : Result A) → ((a : A) × (r ≡ ok a)) ⊎ ((e : Text) × (r ≡ err e))
Result-cases (ok a) = inl (a, refl)
Result-cases (err e) = inr (e, refl)

module _ (config : UpdateParams) where
  add_skipped-IsKeyed :
      (c : Container) (e : Option Text) (m : Progress)
      → IsKeyed m
      → IsKeyed (add_skipped c e config m)
  unfolding add_skipped
  add_skipped-IsKeyed c e m h = add-IsKeyed _ m h

  add_scanned-IsKeyed :
      (c : Container) (i : Text) (m : Progress) → IsKeyed m → IsKeyed (add_scanned c i config m)
  unfolding add_scanned
  add_scanned-IsKeyed c i m h = add-IsKeyed _ m h

  pub skip_self_dependencies-IsKeyed :
      (cs : List Container) (m : Progress)
      → IsKeyed m
      → IsKeyed (skip_self_dependencies config cs m)
  unfolding skip_self_dependencies
  skip_self_dependencies-IsKeyed [] m h = h
  skip_self_dependencies-IsKeyed (c ∷ cs) m h =
      skip_self_dependencies-IsKeyed cs _
        (if-keeps IsKeyed (has_self_dependency c) _ m (add_skipped-IsKeyed c _ m h) h)

  pub skip_cycles-IsKeyed :
      (cycles : List Text) (cs : List Container) (m : Progress)
      → IsKeyed m
      → IsKeyed (skip_cycles config cycles cs m)
  unfolding skip_cycles
  skip_cycles-IsKeyed cycles [] m h = h
  skip_cycles-IsKeyed cycles (c ∷ cs) m h =
      skip_cycles-IsKeyed cycles cs _ (if-keeps IsKeyed _ _ m (add_skipped-IsKeyed c _ m h) h)

  pub skip_circular-IsKeyed :
      (circular_name : Text) (cs : List Container) (m : Progress)
      → IsKeyed m
      → IsKeyed (skip_circular config circular_name cs m)
  unfolding skip_circular
  skip_circular-IsKeyed circular_name [] m h = h
  skip_circular-IsKeyed circular_name (c ∷ cs) m h =
      if-keeps IsKeyed (text_eq (name c) circular_name) _ _
        (elim (Option-cases (lookup (id c) m)) [
          | inl e ↦ rw e (add_skipped-IsKeyed c _ m h)
          | inr (_, e) ↦ rw e h
        ])
        (skip_circular-IsKeyed circular_name cs m h)

  record_check-IsKeyed :
      (c : Container) (m : Progress) (stale : Bool) (newest : Text) (failure : Option Text)
      → IsKeyed m
      → IsKeyed (record_check config c m (stale, newest, failure)).progress
  unfolding record_check
  record_check-IsKeyed c m stale newest failure h =
      let should = should_update_container stale c config in
      let tracked = if should then set_old_image_id (image_id c) c else c in
      elim (Option-cases (update_error failure should tracked)) [
        | inl e ↦ rw (record_check, e) (add_scanned-IsKeyed tracked _ m h)
        | inr (_, e) ↦ rw (record_check, e) (add_skipped-IsKeyed tracked _ m h)
      ]

  is_pinned-IsKeyed :
      (parse_docker_ref : Text → Result Bool) (c : Container) (m : Progress)
      → IsKeyed m
      → IsKeyed (is_pinned parse_docker_ref c m config).1
  unfolding is_pinned
  is_pinned-IsKeyed parse_docker_ref c m h = elim (Result-cases (pinned parse_docker_ref c)) [
    | inl (b, e) ↦
        rw (is_pinned, e) (if-keeps IsKeyed b _ m (add_scanned-IsKeyed c (image_id c) m h) h)
    | inr (_, e) ↦ rw (is_pinned, e) h
  ]

pub mark_all_for_update-IsKeyed :
    (cs : List Container) (m : Progress) → IsKeyed m → IsKeyed (mark_all_for_update cs m)
unfolding mark_all_for_update mark_for_update
mark_all_for_update-IsKeyed [] m h = h
mark_all_for_update-IsKeyed (c ∷ cs) m h =
    mark_all_for_update-IsKeyed cs _
      (if-keeps IsKeyed c.stale _ m (adjust-IsKeyed (mark State.updated) (λ u. refl) (id c) m h) h)

note_restart-IsKeyed :
    (c : Container) (new_id : Text) (m : Progress) → IsKeyed m → IsKeyed (note_restart c new_id m)
unfolding note_restart mark_restarted set_new_container_id
note_restart-IsKeyed c new_id m h = elim (Option-cases (lookup (id c) m)) [
  | inl e ↦ rw (note_restart, e) h
  | inr (_, e) ↦
      rw (note_restart, e)
        (if-keeps IsKeyed c.stale _ _
          (adjust-IsKeyed (set_new_container_id new_id) (λ u. refl) (id c) m h)
          (adjust-IsKeyed (mark State.restarted) (λ u. refl) (id c) _
            (adjust-IsKeyed (set_new_container_id new_id) (λ u. refl) (id c) m h)))
]

record_restart-IsKeyed :
    (c : Container) (r : Restart) (s : Restarts)
    → IsKeyed s.progress
    → IsKeyed (record_restart c r s).progress
unfolding record_restart
record_restart-IsKeyed c r s h = elim (Option-cases r.failure) [
  | inl e ↦ rw e (note_restart-IsKeyed c r.new_container_id s.progress h)
  | inr (_, e) ↦ rw e h
]

record_rolling-IsKeyed :
    (c : Container) (r : Restart) (s : Restarts)
    → IsKeyed s.progress
    → IsKeyed (record_rolling c r s).progress
unfolding record_rolling
record_rolling-IsKeyed c r s h = elim (Option-cases r.failure) [
  | inl e ↦ rw e (note_restart-IsKeyed c r.new_container_id s.progress h)
  | inr (_, e) ↦ rw e h
]

module _ {W : Type 0} (client : Client W) (config : UpdateParams) where
  restart_one-IsKeyed :
      (stopped : List RemovedImageInfo) (c : Container) (s : Restarts) (w : W)
      → IsKeyed s.progress
      → IsKeyed (restart_one client config stopped c s w).0.progress
  unfolding restart_one
  restart_one-IsKeyed stopped c s w h = elim (Bool-cases (is_restartable client config stopped c)) [
    | inl e ↦ rw e (record_restart-IsKeyed c _ s h)
    | inr e ↦ rw e h
  ]

  pub restart_each-IsKeyed :
      (stopped : List RemovedImageInfo) (cs : List Container) (s : Restarts) (w : W)
      → IsKeyed s.progress
      → IsKeyed (restart_each client config stopped cs s w).0.progress
  unfolding restart_each
  restart_each-IsKeyed stopped [] s w h = h
  restart_each-IsKeyed stopped (c ∷ cs) s w h = elim (Option-cases (client.context_error w).0) [
    | inl e ↦
        rw (restart_each, e)
          (restart_each-IsKeyed stopped cs _ _ (restart_one-IsKeyed stopped c s _ h))
    | inr (_, e) ↦ rw (restart_each, e) h
  ]

  pub roll-IsKeyed :
      (c : Container) (s : Restarts) (w : W)
      → IsKeyed s.progress
      → IsKeyed (roll client config c s w).0.progress
  unfolding roll mark_for_update
  roll-IsKeyed c s w h =
      let marked =
        if c.stale then record s { progress = mark_for_update (id c) s.progress } else s in
      let keyed : IsKeyed marked.progress =
        if-keeps (λ r. IsKeyed r.progress) c.stale _ s
          (adjust-IsKeyed (mark State.updated) (λ u. refl) (id c) s.progress h) h in
      elim (Option-cases (stop_stale_container client config c w).0) [
        | inl e ↦ rw (roll, e) (record_rolling-IsKeyed c _ marked keyed)
        | inr (_, e) ↦ rw (roll, e) keyed
      ]

  pub roll_each-IsKeyed :
      (cs : List Container) (s : Restarts) (w : W)
      → IsKeyed s.progress
      → IsKeyed (roll_each client config cs s w).0.0.progress
  unfolding roll_each roll_one
  roll_each-IsKeyed [] s w h = h
  roll_each-IsKeyed (c ∷ cs) s w h = elim (Option-cases (client.context_error w).0) [
    | inl e ↦
        let w' = (client.context_error w).1 in
        rw (roll_each, e)
          (roll_each-IsKeyed cs _ _ (
            if-keeps (λ (r : Restarts × W). IsKeyed r.0.progress) (to_restart c)
              (roll client config c s w') (s, w') (roll-IsKeyed c s w' h) h))
    | inr (_, e) ↦ rw (roll_each, e) h
  ]

module _ {W : Type 0} (client : Client W) (parse_docker_ref : Text → Result Bool)
    (config : UpdateParams) where
  check_stale-IsKeyed :
      (c : Container) (m : Progress) (w : W)
      → IsKeyed m
      → IsKeyed (check_stale client parse_docker_ref config c m w).0.progress
  unfolding check_stale
  check_stale-IsKeyed c m w h =
      let answer = client.is_container_stale parent c config w in
      if-keeps (λ (r : Checked × W). IsKeyed r.0.progress)
        (is_watchtower c && config.skip_self_update) _ _
        (record_check-IsKeyed config c m false (image_id c) none h)
        (record_check-IsKeyed config c m answer.0.0 answer.0.1 answer.0.2 h)

  check_container-IsKeyed :
      (c : Container) (m : Progress) (w : W)
      → IsKeyed m
      → IsKeyed (check_container client parse_docker_ref config c m w).0.progress
  unfolding check_container
  check_container-IsKeyed c m w h = elim (Option-cases (lookup (id c) m)) [
    | inr (_, e) ↦ rw (check_container, e) h
    | inl e ↦
        let m' = (is_pinned parse_docker_ref c m config).1 in
        let keyed : IsKeyed m' = is_pinned-IsKeyed config parse_docker_ref c m h in
        elim (Result-cases (is_pinned parse_docker_ref c m config).0) [
          | inr (_, f) ↦ rw (check_container, e, f) (add_skipped-IsKeyed config c _ m' keyed)
          | inl (b, f) ↦
              rw (check_container, e, f)
                (if-keeps (λ (r : Checked × W). IsKeyed r.0.progress) b _
                  (check_stale client parse_docker_ref config c m' w) keyed
                  (check_stale-IsKeyed c m' w keyed))
        ]
  ]

  pub scan-IsKeyed :
      (cs : List Container) (m : Progress) (pull_failed : Bool) (w : W)
      → IsKeyed m
      → IsKeyed (scan client parse_docker_ref config cs m pull_failed w).0.progress
  unfolding scan
  scan-IsKeyed [] m pull_failed w h = h
  scan-IsKeyed (c ∷ cs) m pull_failed w h = elim (Option-cases (client.context_error w).0) [
    | inl e ↦ rw (scan, e) (scan-IsKeyed cs _ _ _ (check_container-IsKeyed c m _ h))
    | inr (_, e) ↦ rw (scan, e) h
  ]
