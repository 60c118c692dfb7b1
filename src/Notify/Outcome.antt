-- ===== src/Notify/Outcome.antt =====
-- What RunUpdatesWithNotifications reports.
use aether_supervisor.Prelude.{Text, ℕ, Bool, Option, none, some, List, [], ◌∷◌, ◌≡◌, refl, ap}
use aether_supervisor.Container.Data.{Container}
use aether_supervisor.Container.Labels.{UpdateParams}
use aether_supervisor.Container.Client.{Client, Result}
use aether_supervisor.Metrics.{Metric, new_metric, no_containers}
use aether_supervisor.Session.Progress.{Progress}
use aether_supervisor.Session.Report.{Report, new_report}
use aether_supervisor.Update.Stop.{RemovedImageInfo}
use aether_supervisor.Update.Run.{Ending}
use aether_supervisor.Update.Action.{run, update, reported}
use aether_supervisor.Update.Complete.{run_total}
use aether_supervisor.Update.Listed.{HasKeys}
use aether_supervisor.Notify.{
  Call, start_notification, handle_update_result, after_update, run_updates_with_notifications,
}

-- The metric of a run with this ending: zero if it failed or has no report, else that of the report
-- of its progress map.
abbrev pub metric_of : Ending → Metric
metric_of e = elim e.error as (λ _. Metric) [
  | some _ ↦ no_containers
  | none ↦ elim e.progress as (λ _. Metric) [
    | none ↦ no_containers
    | some m ↦ new_metric (new_report m).0
  ]
]

module _ {W : Type 0} (client : Client W) (parse_docker_ref : Text → Result Bool)
    (sleep : ℕ → W → W) (links : Container → List Text) (config : UpdateParams) where
  after_update-metric :
      (notifier : Option (Report → Bool)) (split as_report : Bool) (p : Option Progress)
      (infos : List RemovedImageInfo) (error : Option Text) (w : W)
      → (after_update client parse_docker_ref sleep links config notifier split as_report
          (elim p [ none ↦ none | some m ↦ some (new_report m).0 ], infos, error)
          w).0.0
        ≡ metric_of (record { progress = p; cleanup_image_infos = infos; error = error })
  unfolding after_update handle_update_result
  after_update-metric notifier split as_report p infos (some t) w = refl
  after_update-metric notifier split as_report none infos none w = refl
  after_update-metric notifier split as_report (some m) infos none w = refl

  reported-metric :
      (notifier : Option (Report → Bool)) (split as_report : Bool) (e : Ending) (w : W)
      → (after_update client parse_docker_ref sleep links config notifier split as_report
          (reported e)
          w).0.0
        ≡ metric_of e
  unfolding reported
  reported-metric notifier split as_report e w =
      after_update-metric notifier split as_report e.progress e.cleanup_image_infos e.error w

  -- A run with notifications ends, whatever the client answers, as the run of Update does from the
  -- same state. Its metric is zero if that run has an error or no report, and else the metric of
  -- the report of its progress map, which is keyed by the IDs of its statuses.
  pub run_updates_with_notifications_total :
      (notifier : Option (Report → Bool)) (split as_report : Bool) (w : W)
      → (e : Ending) × (w' : W) × (calls : List Call) × (w'' : W) × (run client parse_docker_ref
            sleep links config w
          ≡ some (e, w'))
        × (run_updates_with_notifications client parse_docker_ref sleep links config notifier split
              as_report w
            ≡ some ((metric_of e, calls), w''))
        × HasKeys e.progress
  unfolding run_updates_with_notifications update
  run_updates_with_notifications_total notifier split as_report w =
      let (e, w', f, sound) = run_total client parse_docker_ref sleep links config w in
      let after =
        after_update client parse_docker_ref sleep links config notifier split as_report
          (reported e) w' in
      let sent : List Call = elim notifier [
        | none ↦ []
        | some _ ↦ start_notification split ∷ after.0.1
      ] in
      (
        e,
        w',
        sent,
        after.1,
        f,
        rw (run_updates_with_notifications, update, f)
            (ap (λ metric. some ((metric, sent), after.1))
              (reported-metric notifier split as_report e w')),
        sound.0,
      )
