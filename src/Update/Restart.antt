-- ===== src/Update/Restart.antt =====
-- restartStaleContainer and addCleanupImageInfo of internal/actions/update.go. The chain label, which
-- the source writes into the container itself, is given to the client's calls by value: nothing reads
-- it after them.
use aether_supervisor.Prelude.{
  Text, Assoc, lookup, insert, adjust, any, text_eq, codes, Bool, true, false, ◌&&◌, ◌||◌, not,
  Option, none, some, List, [], ◌∷◌, ◌++◌, if◌then◌else◌,
}
use aether_supervisor.Container.Data.{Container, id, to_restart}
use aether_supervisor.Container.Labels.{UpdateParams, is_watchtower}
use aether_supervisor.Container.Hooks.{container_chain_label, get_container_chain}
use aether_supervisor.Container.ShortId.{short_id}
use aether_supervisor.Container.Client.{Client, parent, detached, ok, err}
use aether_supervisor.Lifecycle.{execute_post_update_command}
use aether_supervisor.Session.Status.{set_new_container_id}
use aether_supervisor.Session.Progress.{Progress, mark_restarted}
use aether_supervisor.Update.Stop.{RemovedImageInfo, caused}

unfoldable pub add_cleanup_image_info :
    RemovedImageInfo → List RemovedImageInfo → List RemovedImageInfo
add_cleanup_image_info info infos =
    if any (λ existing. text_eq existing.image_id info.image_id) infos
    then infos
    else infos ++ info ∷ []

-- A chain of container IDs with another at its end. The empty label is no chain.
abbrev pub extended : Option Text → Text → Text
extended none i = i
extended (some []) i = i
extended (some (x ∷ xs)) i = (x ∷ xs) ++ (codes "," ++ i)

unfoldable pub new_chain : Container → Text
new_chain c = extended (get_container_chain c) (id c)

abbrev pub with_chain : Container → Container
with_chain c =
    let info = c.container_info in
    record c {
      container_info = record info {
        labels = insert container_chain_label (new_chain c) info.labels;
      };
    }

-- What restartStaleContainer returns.
pub record Restart : Type 0 where
  pub new_container_id : Text
  pub renamed : Bool
  pub failure : Option Text

-- What the loops over the containers write.
pub record Restarts : Type 0 where
  pub failed : Assoc Text
  pub renamed_containers : List Text
  pub cleanup_image_infos : List RemovedImageInfo
  pub progress : Progress

-- The entry of the progress map for a container that was restarted.
unfoldable pub note_restart : Container → Text → Progress → Progress
note_restart c new_id progress = elim (lookup (id c) progress) [
  | none ↦ progress
  | some _ ↦
      let noted = adjust (id c) (set_new_container_id new_id) progress in
      if c.stale then noted else mark_restarted (id c) noted
]

abbrev pub fail_restart : Container → Text → Restarts → Restarts
fail_restart c cause s = record s { failed = insert (id c) cause s.failed }

module _ {W : Type 0} (client : Client W) (config : UpdateParams) where
  abbrev pub is_renamed_watchtower : Bool → Container → Bool
  is_renamed_watchtower renamed c = renamed && is_watchtower c

  -- The end of restartStaleContainer, which turns off the automatic restart of a renamed instance.
  unfoldable pub finish : Bool → Container → Text → W → Restart × W
  finish renamed c new_id w = (
    record { new_container_id = new_id; renamed = renamed; failure = none },
    if is_renamed_watchtower renamed c
        then (client.update_container detached c (codes "no") w).1
        else w,
  )

  -- The start of the new container.
  unfoldable pub start_anew : Bool → Container → W → Restart × W
  unfolding finish execute_post_update_command
  start_anew renamed c w =
      let (started, w') = client.start_container parent c w in
      elim started [
        | err cause ↦ (
          record {
            new_container_id = [];
            renamed = renamed;
            failure = some (caused (codes "failed to start container") cause);
          },
          if is_renamed_watchtower renamed c
              then (client.stop_and_remove_container detached c w').1
              else w',
        )
        | ok new_id ↦ finish renamed c new_id (
            if to_restart c && config.lifecycle_hooks
            then execute_post_update_command client detached new_id config.lifecycle_uid
                config.lifecycle_gid w'
            else w')
      ]

  -- restartStaleContainer after the renaming.
  unfoldable pub restart_as : Bool → Container → W → Restart × W
  unfolding start_anew finish new_chain
  restart_as renamed c w =
      let marked = if is_watchtower c then with_chain c else c in
      if not config.no_restart || is_watchtower marked
      then start_anew renamed marked w
      else finish renamed marked (id c) w

  -- restartStaleContainer of an instance that is renamed first.
  unfoldable pub rename_and_restart : Container → W → Restart × W
  unfolding restart_as short_id
  rename_and_restart c w =
      let (failure, w') =
        client.rename_container parent c (codes "watchtower-old-" ++ short_id (id c)) w in
      elim failure [
        | none ↦ restart_as true c w'
        | some cause ↦ (
          record {
            new_container_id = [];
            renamed = false;
            failure = some (caused (codes "failed to rename Watchtower container") cause);
          },
          w',
        )
      ]

  unfoldable pub restart_stale_container : Container → W → Restart × W
  unfolding restart_as rename_and_restart
  restart_stale_container c w =
      if is_watchtower c && not config.run_once
      then rename_and_restart c w
      else restart_as false c w
