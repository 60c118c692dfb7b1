-- ===== src/Update/Stop.antt =====
-- stopStaleContainer and stopContainersInReversedOrder of internal/actions/update.go. A map of
-- errors has their texts, and logging is left out.
pub mod Accounting
pub mod Frame
use aether_supervisor.Prelude.{
  Text, Assoc, insert, codes, true, false, ◌||◌, not, Option, none, some, List, [], ◌∷◌, ◌++◌,
  reverse, if◌then◌else◌,
}
use aether_supervisor.Container.Data.{
  Container, id, name, image_id, to_restart, verify_configuration,
}
use aether_supervisor.Container.Labels.{UpdateParams, is_watchtower, image_name}
use aether_supervisor.Container.ShortId.{config_error_text}
use aether_supervisor.Container.Client.{Client, parent}
use aether_supervisor.Lifecycle.{execute_pre_update_command}

pub record RemovedImageInfo : Type 0 where
  pub image_id : Text
  pub container_id : Text
  pub image_name : Text
  pub container_name : Text

abbrev pub removed_image_info : Container → RemovedImageInfo
removed_image_info c = record {
  image_id = image_id c;
  container_id = id c;
  image_name = image_name c;
  container_name = name c;
}

-- fmt.Errorf("%w: %w", stage, cause)
abbrev pub caused : Text → Text → Text
caused stage cause = stage ++ codes ": " ++ cause

abbrev pub skip_update : Text
skip_update = codes "skipping container due to pre-update command exit code 75 (EX_TEMPFAIL)"

-- The loops that enter the rest of the containers after a cancellation.
unfoldable pub fail_all : Text → List Container → Assoc Text → Assoc Text
fail_all cause [] failed = failed
fail_all cause (c ∷ cs) failed = fail_all cause cs (insert (id c) cause failed)

-- The check of a container that is only linked to one that restarts.
unfoldable pub linked_error : Container → Option Text
unfolding verify_configuration
linked_error c = elim c.linked_to_restarting [
  | false ↦ none
  | true ↦ elim (verify_configuration c) [
    | none ↦ none
    | some e ↦
        some (caused (codes "failed to verify container configuration") (config_error_text e))
  ]
]

-- What stopContainersInReversedOrder returns.
pub record Stopped : Type 0 where
  pub failed : Assoc Text
  pub stopped : List RemovedImageInfo

-- The entry for the container that was to be stopped.
unfoldable pub record_stop : Container → Option Text → Stopped → Stopped
record_stop c (some cause) s = record s { failed = insert (id c) cause s.failed }
record_stop c none s = record s { stopped = s.stopped ++ removed_image_info c ∷ [] }

module _ {W : Type 0} (client : Client W) (config : UpdateParams) where
  -- The pre-update hook, if hooks are enabled, and whether it forbids the stop.
  unfoldable pub pre_update : Container → W → Option Text × W
  unfolding execute_pre_update_command
  pre_update c w =
      if config.lifecycle_hooks
      then (let ((skip, refused), w') =
            execute_pre_update_command client parent c config.lifecycle_uid config.lifecycle_gid
              w in
          (
            elim refused [
              | some cause ↦ some (caused (codes "pre-update command failed") cause)
              | none ↦ if skip then some skip_update else none
            ],
            w',
          ))
      else (none, w)

  -- The stop itself, for which a container that is gone is stopped.
  unfoldable pub stop : Container → W → Option Text × W
  stop c w =
      let (failure, w') = client.stop_and_remove_container parent c w in
      elim failure [
        | none ↦ (none, w')
        | some e ↦ (
          if e.is_not_found then none else some (caused (codes "failed to stop container") e.text),
          w',
        )
      ]

  unfoldable pub stop_stale_container : Container → W → Option Text × W
  unfolding linked_error pre_update stop
  stop_stale_container c w =
      if is_watchtower c || not (to_restart c) then (none, w) else elim (linked_error c) [
        | some e ↦ (some e, w)
        | none ↦
            let (refused, w') = pre_update c w in
            elim refused [ some e ↦ (some e, w') | none ↦ stop c w' ]
      ]

  unfoldable pub stop_each : List Container → Stopped → W → Stopped × W
  unfolding stop_stale_container record_stop fail_all
  stop_each [] s w = (s, w)
  stop_each (c ∷ cs) s w =
      let (cancelled, w') = client.context_error w in
      elim cancelled [
        | some e ↦
            (record s { failed = fail_all (caused (codes "stop skipped") e) (c ∷ cs) s.failed }, w')
        | none ↦
            let (failure, w'') = stop_stale_container c w' in
            stop_each cs (record_stop c failure s) w''
      ]

  unfoldable pub stop_containers_in_reversed_order : List Container → W → Stopped × W
  unfolding stop_each
  stop_containers_in_reversed_order containers w =
      stop_each (reverse containers) (record { failed = []; stopped = [] }) w
