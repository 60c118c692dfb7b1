-- ===== src/Session/Progress.antt =====
-- pkg/session/progress.go. The map holds pointers that only it and the reports share, so a status
-- is kept by value, and a method that writes through the pointer changes the entry.
pub mod Keyed
use aether_supervisor.Prelude.{
  Text, Assoc, insert, adjust, lookup, keep, map, Bool, true, false, Option, none, some, List, [],
  ◌∷◌,
}
use aether_supervisor.Container.Data.{Container, id, name, image_id}
use aether_supervisor.Container.Labels.{UpdateParams, is_monitor_only, image_name}
use aether_supervisor.Session.Status.{ContainerStatus, State}

abbrev pub Progress : Type 0
Progress = Assoc ContainerStatus

unfoldable pub update_from_container : Container → Text → State → UpdateParams → ContainerStatus
update_from_container c new_image state params = record {
  container_id = id c;
  old_image = image_id c;
  new_image = new_image;
  container_name = name c;
  image_name = image_name c;
  container_error = none;
  state = state;
  monitor_only = is_monitor_only c params;
  new_container_id = [];
}

unfoldable pub add : ContainerStatus → Progress → Progress
add update m = insert update.container_id update m

unfoldable pub add_skipped : Container → Option Text → UpdateParams → Progress → Progress
unfolding add update_from_container
add_skipped c err params m =
    let update = update_from_container c (image_id c) State.skipped params in
    add (record update { container_error = err }) m

unfoldable pub add_scanned : Container → Text → UpdateParams → Progress → Progress
unfolding add update_from_container
add_scanned c new_image params m = add (update_from_container c new_image State.scanned params) m

abbrev pub mark : State → ContainerStatus → ContainerStatus
mark state update = record update { state = state }

abbrev pub mark_failed : Option Text → ContainerStatus → ContainerStatus
mark_failed err update = record update { container_error = err; state = State.failed }

-- The failures are a map too; the loop visits its entries in the order of the list.
unfoldable pub update_failed : Assoc (Option Text) → Progress → Progress
update_failed [] m = m
update_failed ((container_id, err) ∷ failures) m =
    update_failed failures (adjust container_id (mark_failed err) m)

unfoldable pub mark_for_update : Text → Progress → Progress
mark_for_update container_id m = adjust container_id (mark State.updated) m

unfoldable pub mark_restarted : Text → Progress → Progress
mark_restarted container_id m = adjust container_id (mark State.restarted) m

abbrev pub is_restarted : State → Bool
is_restarted State.restarted = true
is_restarted _ = false

abbrev pub statuses : Progress → List ContainerStatus
statuses [] = []
statuses ((_, update) ∷ m) = update ∷ statuses m

unfoldable pub restarted : Progress → List ContainerStatus
restarted m = keep (λ update. is_restarted update.state) (statuses m)
