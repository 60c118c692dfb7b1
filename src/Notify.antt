-- ===== src/Notify.antt =====
-- internal/actions/actions.go: a run of Update with its notifications, its cleanup and its metric.
-- The notifier's calls are listed in order. Log entries have no time, and a report holds no nil.
pub mod Once
pub mod Outcome
mod Tests
use aether_supervisor.Prelude.{
  Text, ℕ, any, text_eq, trim_space, codes, Bool, true, false, ◌&&◌, ◌||◌, not, Option, none, some,
  List, [], ◌∷◌, ◌++◌, if◌then◌else◌,
}
use aether_supervisor.Container.Data.{Container}
use aether_supervisor.Container.Hooks.{nonempty_or}
use aether_supervisor.Container.Identifier.{is_empty}
use aether_supervisor.Container.Labels.{UpdateParams}
use aether_supervisor.Container.ShortId.{short_id}
use aether_supervisor.Container.Client.{Client, Result}
use aether_supervisor.Session.Status.{ContainerStatus}
use aether_supervisor.Session.Report.{Report, empty_report}
use aether_supervisor.Metrics.{Metric, new_metric, no_containers}
use aether_supervisor.Update.Stop.{RemovedImageInfo}
use aether_supervisor.Update.Action.{update}
use aether_supervisor.Cleanup.Removal.{remove_images}

pub data Level : Type 0 where
  debug_level info_level : Level

-- The data of an entry are its fields with their names.
pub record Entry : Type 0 where
  pub level : Level
  pub message : Text
  pub fields : List (Text × Text)

-- The calls of a notifier.
pub data Call : Type 0 where
  start_notification : (suppress_summary : Bool) → Call
  send_notification : Report → Call
  send_filtered_entries : List Entry → Report → Call

unfoldable pub build_single_container_report : ContainerStatus → Report → Report
build_single_container_report updated result = record result {
  updated = updated ∷ [];
  restarted = [];
}

unfoldable pub build_single_restarted_container_report : ContainerStatus → Report → Report
build_single_restarted_container_report restarted result = record result {
  updated = [];
  restarted = restarted ∷ [];
}

unfoldable pub build_cleanup_entries_for_container : List RemovedImageInfo → Text → List Entry
unfolding short_id
build_cleanup_entries_for_container [] container_name = []
build_cleanup_entries_for_container (image ∷ images) container_name =
    let rest = build_cleanup_entries_for_container images container_name in
    let entry : Entry = record {
      level = info_level;
      message = codes "Removing image";
      fields =
          (codes "container_name", image.container_name)
          ∷ (codes "image_name", image.image_name)
          ∷ (codes "image_id", short_id image.image_id)
          ∷ [];
    } in
    if text_eq image.container_name container_name then entry ∷ rest else rest

abbrev pub entry_of : Level → Text → ContainerStatus → List (Text × Text) → Entry
entry_of level message report fields = record {
  level = level;
  message = message;
  fields = (codes "container", report.container_name) ∷ fields;
}

unfoldable pub build_update_entries : ContainerStatus → Text → Text → List Entry
unfolding short_id
build_update_entries report old_container_id new_container_id =
    let found =
      entry_of info_level (codes "Found new image") report
        ((codes "image", report.image_name) ∷ (codes "new_id", short_id report.new_image) ∷ []) in
    if report.monitor_only
    then found
      ∷ entry_of debug_level (codes "Update available but skipped (monitor-only mode)") report []
      ∷ entry_of debug_level (codes "Container remains running (monitor-only mode)") report []
      ∷ []
    else found
      ∷ entry_of info_level (codes "Stopping container") report (
          (codes "id", short_id old_container_id)
          ∷ (codes "old_id", short_id report.old_image)
          ∷ [])
      ∷ entry_of info_level (codes "Started new container") report
          ((codes "new_id", short_id new_container_id) ∷ [])
      ∷ []

-- The entries for a container that was restarted without an update.
unfoldable pub build_restart_entries : ContainerStatus → List Entry
unfolding short_id
build_restart_entries report =
    entry_of info_level (codes "Stopping linked container") report (
      (codes "id", short_id report.container_id) ∷ (codes "old_id", short_id report.old_image) ∷ [])
    ∷ entry_of info_level (codes "Started linked container") report
        ((codes "new_id", short_id (nonempty_or report.new_container_id report.container_id)) ∷ [])
    ∷ []

-- The map of the notified containers, and the calls so far.
pub record Notices : Type 0 where
  pub notified : List Text
  pub calls : List Call

-- What is sent for a container, and with which report.
abbrev pub update_call : Bool → List RemovedImageInfo → Report → ContainerStatus → Call
update_call as_report cleaned result u =
    let single = build_single_container_report u result in
    if as_report
    then send_notification single
    else send_filtered_entries
        (build_update_entries u u.container_id u.new_container_id
          ++ build_cleanup_entries_for_container cleaned u.container_name)
        single

abbrev pub restart_call : Bool → List RemovedImageInfo → Report → ContainerStatus → Call
restart_call as_report cleaned result u =
    let single = build_single_restarted_container_report u result in
    if as_report
    then send_notification single
    else send_filtered_entries
        (build_restart_entries u ++ build_cleanup_entries_for_container cleaned u.container_name)
        single

abbrev pub report_of : Call → Report
report_of (start_notification _) = empty_report
report_of (send_notification r) = r
report_of (send_filtered_entries _ r) = r

-- `should_send` stands for the notifier's ShouldSendNotification.
module _ (should_send : Report → Bool) where
  -- A round of the loops of sendSplitNotifications, for a container that the loop does not pass over.
  unfoldable pub notify :
      (ContainerStatus → Call) → (ContainerStatus → Bool) → ContainerStatus → Notices → Notices
  notify call selected u n =
      if is_empty (trim_space u.container_name)
        || (not (selected u) || any (text_eq u.container_id) n.notified)
      then n
      else record {
        notified = u.container_id ∷ n.notified;
        calls = if should_send (report_of (call u)) then n.calls ++ call u ∷ [] else n.calls;
      }

  unfoldable pub notify_each :
      (ContainerStatus → Call) → (ContainerStatus → Bool) → List ContainerStatus → Notices → Notices
  unfolding notify
  notify_each call selected [] n = n
  notify_each call selected (u ∷ us) n = notify_each call selected us (notify call selected u n)

  unfoldable pub send_split_notifications : Bool → Report → List RemovedImageInfo → Notices
  unfolding notify_each
  send_split_notifications as_report result cleaned =
      let updates = notify_each (update_call as_report cleaned result) (λ u. true) result.updated in
      let restarts =
        notify_each (restart_call as_report cleaned result) (λ u. true) result.restarted in
      let monitored =
        notify_each (update_call as_report cleaned result) (λ u. u.monitor_only) result.stale in
      monitored (restarts (updates (record { notified = []; calls = [] })))

  unfoldable pub send_notifications : Bool → Bool → Report → List RemovedImageInfo → List Call
  unfolding send_split_notifications
  send_notifications split as_report result cleaned =
      if split
      then (send_split_notifications as_report result cleaned).calls
      else if should_send result
      then send_notification result ∷ []
      else []

-- The metric and the calls of a run that fails, or `none` for one that goes on with its report.
unfoldable pub handle_update_result : Option Report → Option Text → Option (Metric × List Call)
handle_update_result result (some e) = some (no_containers, send_notification empty_report ∷ [])
handle_update_result none none = some (no_containers, [])
handle_update_result (some result) none = none

module _ {W : Type 0} (client : Client W) (parse_docker_ref : Text → Result Bool)
    (sleep : ℕ → W → W) (links : Container → List Text) (config : UpdateParams) where
  -- The images are only removed where the flag says so. The error of the removal is only logged.
  unfoldable pub perform_image_cleanup : List RemovedImageInfo → W → List RemovedImageInfo × W
  unfolding remove_images
  perform_image_cleanup infos w =
      if config.cleanup
      then (let ((cleaned, _), w') = remove_images client infos w in (cleaned, w'))
      else ([], w)

  -- What follows a run of Update: its metric, the calls of the notifier, if there is one, and the
  -- state.
  unfoldable pub after_update :
      Option (Report → Bool)
      → Bool
      → Bool
      → Option Report × List RemovedImageInfo × Option Text
      → W
      → (Metric × List Call) × W
  unfolding handle_update_result perform_image_cleanup send_notifications
  after_update notifier split as_report (result, infos, error) w =
      elim (handle_update_result result error) [
        | some (metric, calls) ↦ ((metric, elim notifier [ none ↦ [] | some _ ↦ calls ]), w)
        | none ↦ elim result [
          | none ↦ ((no_containers, []), w)
          | some report ↦
              let (cleaned, w') = perform_image_cleanup infos w in
              (
                (
                  new_metric report,
                  elim notifier [
                    | none ↦ []
                    | some should_send ↦
                        send_notifications should_send split as_report report cleaned
                  ],
                ),
                w',
              )
        ]
      ]

  unfoldable pub run_updates_with_notifications :
      Option (Report → Bool) → Bool → Bool → W → Option ((Metric × List Call) × W)
  unfolding update after_update
  run_updates_with_notifications notifier split as_report w =
      elim (update client parse_docker_ref sleep links config w) [
        | none ↦ none
        | some (outcome, w') ↦
            let ((metric, calls), w'') = after_update notifier split as_report outcome w' in
            some (
              (metric, elim notifier [ none ↦ [] | some _ ↦ start_notification split ∷ calls ]),
              w'',
            )
      ]
