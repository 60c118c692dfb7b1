-- ===== src/Notify/Tests.antt =====
-- The notifications of a report on two containers, and a run with its metric.
use aether_supervisor.Prelude.{
  ℕ, trim_space, codes, true, false, some, none, List, [], ◌∷◌, ◌≡◌, refl, inl, Distinct, Memᴰ,
}
use aether_supervisor.Session.Status.{ContainerStatus, State}
use aether_supervisor.Session.Report.{Report, empty_report}
use aether_supervisor.Update.Run.{Ending}
use aether_supervisor.Update.Action.{run}
use aether_supervisor.Update.Listed.{HasKeys}
use aether_supervisor.Update.Sample.{counting, not_pinned, links_of, no_params}
use aether_supervisor.Notify.{Call, send_split_notifications, run_updates_with_notifications}
use aether_supervisor.Notify.Once.{subject, IsTold, send_split_notifications_lem}
use aether_supervisor.Notify.Outcome.{metric_of, run_updates_with_notifications_total}

abbrev updated_status : ContainerStatus
updated_status = record {
  container_id = codes "1";
  old_image = codes "old";
  new_image = codes "new";
  container_name = codes "web";
  image_name = codes "image:1";
  container_error = none;
  state = State.updated;
  monitor_only = false;
  new_container_id = codes "2";
}

abbrev news : Report
news = record empty_report { scanned = updated_status ∷ []; updated = updated_status ∷ [] }

send_split_notifications_lem_example :
    Distinct subject (send_split_notifications (λ r. true) false news []).calls
    × IsTold (send_split_notifications (λ r. true) false news []).calls (codes "1")
unfolding trim_space
send_split_notifications_lem_example =
    send_split_notifications_lem false [] news (λ r. true) updated_status (λ r. refl)
      (inl (Memᴰ.head refl)) refl

run_updates_with_notifications_total_example :
    (e : Ending) × (w' : ℕ) × (calls : List Call) × (w'' : ℕ) × (run counting not_pinned
        (λ delay w. w)
        links_of
        no_params
        0
      ≡ some (e, w'))
    × (run_updates_with_notifications counting not_pinned
          (λ delay w. w)
          links_of
          no_params
          (some (λ r. true))
          false
          false
          0
        ≡ some ((metric_of e, calls), w''))
    × HasKeys e.progress
run_updates_with_notifications_total_example =
    run_updates_with_notifications_total counting not_pinned (λ delay w. w) links_of no_params
      (some (λ r. true)) false false 0
