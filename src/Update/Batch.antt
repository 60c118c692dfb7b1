-- ===== src/Update/Batch.antt =====
-- restartContainersInSortedOrder of internal/actions/update.go.
use aether_supervisor.Prelude.{
  any, text_eq, codes, Bool, ◌&&◌, ◌||◌, not, none, some, List, [], ◌∷◌, if◌then◌else◌,
}
use aether_supervisor.Container.Data.{Container, id, to_restart}
use aether_supervisor.Container.Identifier.{is_empty}
use aether_supervisor.Container.Labels.{UpdateParams, is_watchtower}
use aether_supervisor.Container.Client.{Client}
use aether_supervisor.Session.Progress.{Progress}
use aether_supervisor.Update.Stop.{RemovedImageInfo, removed_image_info, caused, fail_all}
use aether_supervisor.Update.Restart.{
  add_cleanup_image_info, Restart, Restarts, note_restart, fail_restart, restart_stale_container,
}

-- The writes of restartContainersInSortedOrder after the call of restartStaleContainer.
unfoldable pub record_restart : Container → Restart → Restarts → Restarts
unfolding note_restart add_cleanup_image_info
record_restart c r s = elim r.failure [
  | some cause ↦ fail_restart c cause s
  | none ↦
      let renamed = if r.renamed then id c ∷ s.renamed_containers else s.renamed_containers in
      record s {
        renamed_containers = renamed;
        progress = note_restart c r.new_container_id s.progress;
        cleanup_image_infos =
            if c.stale && not (any (text_eq (id c)) renamed)
            then add_cleanup_image_info (removed_image_info c) s.cleanup_image_infos
            else s.cleanup_image_infos;
      }
]

module _ {W : Type 0} (client : Client W) (config : UpdateParams) where
  -- An instance of the program that is not the one of this run.
  abbrev pub is_other_instance : Container → Bool
  is_other_instance c =
      is_watchtower c
      && (not (is_empty config.current_container_id)
          && not (text_eq (id c) config.current_container_id))

  -- Does the loop restart the container, given what was stopped?
  abbrev pub is_restartable : List RemovedImageInfo → Container → Bool
  is_restartable stopped c =
      to_restart c
      && (not (is_other_instance c)
          && (is_watchtower c || any (λ sc. text_eq sc.container_id (id c)) stopped))

  unfoldable pub restart_one : List RemovedImageInfo → Container → Restarts → W → Restarts × W
  unfolding restart_stale_container record_restart
  restart_one stopped c s w =
      if is_restartable stopped c
      then (let (r, w') = restart_stale_container client config c w in (record_restart c r s, w'))
      else (s, w)

  unfoldable pub restart_each : List RemovedImageInfo → List Container → Restarts → W → Restarts × W
  unfolding restart_one fail_all
  restart_each stopped [] s w = (s, w)
  restart_each stopped (c ∷ cs) s w =
      let (cancelled, w') = client.context_error w in
      elim cancelled [
        | some e ↦ (
          record s { failed = fail_all (caused (codes "restart skipped") e) (c ∷ cs) s.failed },
          w',
        )
        | none ↦ let (s', w'') = restart_one stopped c s w' in restart_each stopped cs s' w''
      ]

  unfoldable pub restart_containers_in_sorted_order :
      List Container → List RemovedImageInfo → List RemovedImageInfo → Progress → W → Restarts × W
  unfolding restart_each
  restart_containers_in_sorted_order containers stopped infos progress w =
      restart_each stopped containers
        (record {
          failed = [];
          renamed_containers = [];
          cleanup_image_infos = infos;
          progress = progress;
        })
        w
