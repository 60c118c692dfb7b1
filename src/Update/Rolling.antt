-- ===== src/Update/Rolling.antt =====
-- performRollingRestart of internal/actions/update.go.
use aether_supervisor.Prelude.{
  Text, codes, ◌&&◌, not, Option, none, some, List, [], ◌∷◌, if◌then◌else◌,
}
use aether_supervisor.Container.Data.{Container, id, to_restart}
use aether_supervisor.Container.Labels.{UpdateParams}
use aether_supervisor.Container.Client.{Client, parent}
use aether_supervisor.Session.Progress.{Progress, mark_for_update}
use aether_supervisor.Update.Stop.{
  RemovedImageInfo, removed_image_info, caused, fail_all, stop_stale_container,
}
use aether_supervisor.Update.Restart.{
  add_cleanup_image_info, Restart, Restarts, note_restart, fail_restart, restart_stale_container,
}

-- The writes of performRollingRestart after it.
unfoldable pub record_rolling : Container → Restart → Restarts → Restarts
unfolding note_restart add_cleanup_image_info
record_rolling c r s = elim r.failure [
  | some cause ↦ fail_restart c cause s
  | none ↦ record s {
    progress = note_restart c r.new_container_id s.progress;
    cleanup_image_infos =
        if c.stale && not r.renamed
        then add_cleanup_image_info (removed_image_info c) s.cleanup_image_infos
        else s.cleanup_image_infos;
  }
]

module _ {W : Type 0} (client : Client W) (config : UpdateParams) where
  -- The body of the loop of performRollingRestart for a container that is to be restarted. The
  -- error of the wait for the container's health is only logged.
  unfoldable pub roll : Container → Restarts → W → Restarts × W
  unfolding stop_stale_container restart_stale_container record_rolling
  roll c s w =
      let marked =
        if c.stale then record s { progress = mark_for_update (id c) s.progress } else s in
      let (failure, w') = stop_stale_container client config c w in
      elim failure [
        | some cause ↦ (fail_restart c cause marked, w')
        | none ↦
            let (r, w'') = restart_stale_container client config c w' in
            (
              record_rolling c r marked,
              elim r.failure [
                | some _ ↦ w''
                | none ↦ (client.wait_for_container_healthy parent r.new_container_id 5 w'').1
              ],
            )
      ]

  unfoldable pub roll_one : Container → Restarts → W → Restarts × W
  unfolding roll
  roll_one c s w = if to_restart c then roll c s w else (s, w)

  -- The writes of the loop, and the error if it was cancelled.
  unfoldable pub roll_each : List Container → Restarts → W → (Restarts × Option Text) × W
  unfolding roll_one fail_all
  roll_each [] s w = ((s, none), w)
  roll_each (c ∷ cs) s w =
      let (cancelled, w') = client.context_error w in
      elim cancelled [
        | some e ↦ (
          (
            record s { failed = fail_all (caused (codes "restart skipped") e) (c ∷ cs) s.failed },
            some (caused (codes "rolling restart canceled") e),
          ),
          w',
        )
        | none ↦ let (s', w'') = roll_one c s w' in roll_each cs s' w''
      ]

  unfoldable pub perform_rolling_restart :
      List Container → List RemovedImageInfo → Progress → W → (Restarts × Option Text) × W
  unfolding roll_each
  perform_rolling_restart containers infos progress w =
      roll_each containers
        (record {
          failed = [];
          renamed_containers = [];
          cleanup_image_infos = infos;
          progress = progress;
        })
        w
