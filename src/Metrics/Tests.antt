-- ===== src/Metrics/Tests.antt =====
-- The metrics of two scans.
use aether_supervisor.Prelude.{codes, none, some, [], ◌∷◌, ◌+◌, ◌≡◌, refl, length, false}
use aether_supervisor.Session.Status.{State}
use aether_supervisor.Session.Progress.{Progress}
use aether_supervisor.Session.Report.{new_report}
use aether_supervisor.Metrics.{Metric, Metrics, Reached, new_metric, register, handle_change}
use aether_supervisor.Metrics.Accounting.{IsAccounted, Reached-IsAccounted}
use aether_supervisor.Metrics.Scan.{new_metric-new_report}

abbrev progress : Progress
progress =
    (
      codes "a",
      record {
        container_id = codes "a";
        old_image = codes "old";
        new_image = codes "new";
        container_name = codes "a";
        image_name = codes "a:latest";
        container_error = none;
        state = State.updated;
        monitor_only = false;
        new_container_id = [];
      },
    )
    ∷ []

new_metric-new_report_example :
    (new_metric (new_report progress).0).scanned
    ≡ (new_metric (new_report progress).0).updated
      + (new_metric (new_report progress).0).failed
      + length (new_report progress).0.stale
      + length (new_report progress).0.fresh
      + (new_metric (new_report progress).0).restarted
new_metric-new_report_example = new_metric-new_report progress

abbrev scan : Metric
scan = record { scanned = 3; updated = 1; failed = 0; restarted = 2 }

abbrev last_state : Metrics
last_state = record {
  channel = some scan ∷ [];
  last = scan;
  restarted_total = 2;
  total = 1;
  skipped = 0;
  dropped = 0;
}

last_state-Reached : Reached (some scan ∷ some scan ∷ []) last_state
unfolding register handle_change
last_state-Reached =
    Reached.registered (some scan)
      (Reached.handled (some scan) [] refl (Reached.registered (some scan) Reached.started))

Reached-IsAccounted_example : IsAccounted (some scan ∷ some scan ∷ []) last_state
Reached-IsAccounted_example =
    Reached-IsAccounted (some scan ∷ some scan ∷ []) last_state last_state-Reached
