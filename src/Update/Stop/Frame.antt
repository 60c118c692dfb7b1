-- ===== src/Update/Stop/Frame.antt =====
-- What stopContainersInReversedOrder does to Docker.
use aether_supervisor.Prelude.{
  if-keeps, Text, ℤ, Bool, true, false, ◌||◌, not, Option, none, List, [], ◌∷◌, reverse, ◌≡◌, inl,
  inr, List-cases, Option-cases, Bool-cases,
}
use aether_supervisor.Container.Data.{Container, to_restart, is_running, is_restarting}
use aether_supervisor.Container.Hooks.{
  get_lifecycle_pre_update_command, pre_update_timeout, get_lifecycle_uid, get_lifecycle_gid,
}
use aether_supervisor.Container.Labels.{UpdateParams, is_watchtower}
use aether_supervisor.Container.Client.{Client, parent}
use aether_supervisor.Lifecycle.{execute, effective, execute_pre_update_command}
use aether_supervisor.Update.Keyed.{Result-cases}
use aether_supervisor.Update.Stop.{
  linked_error, pre_update, stop, stop_stale_container, Stopped, stop_each,
  stop_containers_in_reversed_order,
}

-- May a call of the client be about the container?
abbrev pub IsTouchable : Container → Type 0
IsTouchable c = (is_watchtower c ≡ false) × (to_restart c ≡ true) × (linked_error c ≡ none)

module _ {W : Type 0} (client : Client W) (config : UpdateParams) (I : W → Type 0)
    (asks : (w : W) → I w → I (client.context_error w).1)
    (stops : (c : Container)
      → IsTouchable c
      → (w : W) → I w
      → I (client.stop_and_remove_container parent c w).1)
    (executes : (c : Container)
      → IsTouchable c
      → (command : Text) (timeout uid gid : ℤ) (w : W) → I w
      → I (client.execute_command parent c command timeout uid gid w).1) where
  execute_pre_update_command-keeps :
      (c : Container)
      → IsTouchable c
      → (uid gid : ℤ) (w : W) → I w
      → I (execute_pre_update_command client parent c uid gid w).1
  unfolding execute_pre_update_command
  execute_pre_update_command-keeps c t uid gid w h =
      elim (List-cases (get_lifecycle_pre_update_command c)) [
        | inl e ↦ rw (execute_pre_update_command, e) h
        | inr (x, xs, e) ↦
            let timeout = pre_update_timeout c in
            let run = execute client parent c (x ∷ xs) timeout uid gid w in
            let after : I run.1 =
              executes c t (x ∷ xs) timeout (effective (get_lifecycle_uid c) uid)
                (effective (get_lifecycle_gid c) gid) w h in
            rw (execute_pre_update_command, e)
              (if-keeps (λ (r : (Bool × Option Text) × W). I r.1)
                (not (is_running c) || is_restarting c) ((false, none), w) _ h
                (elim (Result-cases run.0) [ inl (_, f) ↦ rw f after | inr (_, f) ↦ rw f after ]))
      ]

  pre_update-keeps :
      (c : Container) → IsTouchable c → (w : W) → I w → I (pre_update client config c w).1
  unfolding pre_update
  pre_update-keeps c t w h =
      let skip_or_run =
        execute_pre_update_command-keeps c t config.lifecycle_uid config.lifecycle_gid w h in
      if-keeps (λ (r : Option Text × W). I r.1) config.lifecycle_hooks _ (none, w) skip_or_run h

  stop-keeps : (c : Container) → IsTouchable c → (w : W) → I w → I (stop client config c w).1
  unfolding stop
  stop-keeps c t w h = elim (Option-cases (client.stop_and_remove_container parent c w).0) [
    | inl e ↦ rw (stop, e) (stops c t w h)
    | inr (_, e) ↦ rw (stop, e) (stops c t w h)
  ]

  stop_touchable-keeps :
      (c : Container)
      → is_watchtower c ≡ false
      → to_restart c ≡ true
      → (w : W) → I w
      → I (stop_stale_container client config c w).1
  unfolding stop_stale_container
  stop_touchable-keeps c e f w h = elim (Option-cases (linked_error c)) [
    | inr (_, g) ↦ rw (stop_stale_container, e, f, g) h
    | inl g ↦
        let after = pre_update-keeps c (e, f, g) w h in
        elim (Option-cases (pre_update client config c w).0) [
          | inr (_, k) ↦ rw (stop_stale_container, e, f, g, k) after
          | inl k ↦ rw (stop_stale_container, e, f, g, k) (stop-keeps c (e, f, g) _ after)
        ]
  ]

  stop_stale_container-keeps :
      (c : Container) (w : W) → I w → I (stop_stale_container client config c w).1
  unfolding stop_stale_container
  stop_stale_container-keeps c w h = elim (Bool-cases (is_watchtower c)) [
    | inl e ↦ rw (stop_stale_container, e) h
    | inr e ↦ elim (Bool-cases (to_restart c)) [
      | inl f ↦ stop_touchable-keeps c e f w h
      | inr f ↦ rw (stop_stale_container, e, f) h
    ]
  ]

  stop_each-keeps :
      (cs : List Container) (s : Stopped) (w : W) → I w → I (stop_each client config cs s w).1
  unfolding stop_each
  stop_each-keeps [] s w h = h
  stop_each-keeps (c ∷ cs) s w h = elim (Option-cases (client.context_error w).0) [
    | inr (_, e) ↦ rw (stop_each, e) (asks w h)
    | inl e ↦ rw (stop_each, e) (stop_each-keeps cs _ _ (stop_stale_container-keeps c _ (asks w h)))
  ]

  -- What stays true of the world under a look at the context, and under a stop and a command of a
  -- container that is to be restarted, is no instance of the program and, if it is only linked, has
  -- a valid configuration, stays true under the stop of all containers.
  pub stop_containers_in_reversed_order-keeps :
      (cs : List Container) (w : W)
      → I w
      → I (stop_containers_in_reversed_order client config cs w).1
  unfolding stop_containers_in_reversed_order
  stop_containers_in_reversed_order-keeps cs w h =
      stop_each-keeps (reverse cs) (record { failed = []; stopped = [] }) w h
