-- ===== src/Session/Tests.antt =====
-- The session report on a map of a few containers.
use aether_supervisor.Prelude.{
  Text, pos, Assoc, codes, Option, none, some, List, [], ◌∷◌, ◌++◌, map, keep, Permᴰ, Memᴰ, ◌≡◌,
  ◌≢◌, ◌↔◌, refl, false, text_eq_iff, text_order, lookup, Ascending,
}
use aether_supervisor.Container.Data.{Container, new_container}
use aether_supervisor.Container.Labels.{UpdateParams}
use aether_supervisor.Session.Status.{ContainerStatus, State}
use aether_supervisor.Session.Progress.{Progress, statuses, update_failed, restarted}
use aether_supervisor.Session.Progress.Keyed.{
  IsKeyed, Call, run_calls, run_calls-IsKeyed, lookup-update_failed, failed_entry,
}
use aether_supervisor.Session.Report.{new_report, sort_reports, all_from_slices, is_skipped}
use aether_supervisor.Session.Report.Settled.{settle}
use aether_supervisor.Session.Report.Slices.{changed, new_report_slices}
use aether_supervisor.Session.Report.Partition.{outcomes, new_report_partition}
use aether_supervisor.Session.Report.Order.{new_report_order}
use aether_supervisor.Session.Report.All.{first_with, by_priority, all_from_slices_lem}
use aether_supervisor.Session.Report.Listing.{all_from_slices-new_report}

abbrev status : Text → State → Text → ContainerStatus
status name final new_image = record {
  container_id = name;
  old_image = codes "old";
  new_image = new_image;
  container_name = name;
  image_name = codes "image:latest";
  container_error = none;
  state = final;
  monitor_only = false;
  new_container_id = [];
}

abbrev first : ContainerStatus
first = status (codes "a") State.updated (codes "new")

abbrev second : ContainerStatus
second = status (codes "b") State.failed (codes "old")

abbrev entries : Progress
entries = (codes "b", second) ∷ (codes "a", first) ∷ []

abbrev reversed : Progress
reversed = (codes "a", first) ∷ (codes "b", second) ∷ []

entries-IsKeyed : IsKeyed entries
entries-IsKeyed = ((refl, (refl, tt)), ((b_ne_a, tt), (tt, tt)))
  where
    b_ne_a : codes "b" ≢ codes "a"
    b_ne_a e = cc ((text_eq_iff (codes "b") (codes "a")).1 e)

-- A failed status whose image is unchanged is listed as fresh.
failed_unchanged : (new_report entries).0.failed ≡ []
unfolding new_report
failed_unchanged = refl

new_report_order_example : (new_report entries).0 ≡ (new_report reversed).0
new_report_order_example = new_report_order entries reversed (Permᴰ.swap refl refl) entries-IsKeyed

new_report_partition_example :
    Permᴰ (new_report entries).0.scanned (outcomes (new_report entries).0)
    × Permᴰ
        ((new_report entries).0.scanned ++ (new_report entries).0.skipped)
        (map settle (statuses entries))
new_report_partition_example = new_report_partition entries

new_report_slices_example :
    ((new_report entries).0.updated
      ≡ sort_reports (keep (changed State.updated) (statuses entries)))
    × ((new_report entries).0.failed
        ≡ sort_reports (keep (changed State.failed) (statuses entries)))
    × ((new_report entries).0.skipped
        ≡ sort_reports (keep (λ u. is_skipped u.state) (statuses entries)))
    × ((new_report entries).0.restarted ≡ sort_reports (restarted entries))
new_report_slices_example = new_report_slices entries

all_from_slices_lem_example :
    Ascending text_order (λ u. u.container_id) (all_from_slices (new_report entries).0)
    × ((u : ContainerStatus)
        → Memᴰ u (all_from_slices (new_report entries).0)
          ↔ (first_with u.container_id (by_priority (new_report entries).0) ≡ some u))
all_from_slices_lem_example = all_from_slices_lem (new_report entries).0

all_from_slices-new_report_example :
    all_from_slices (new_report entries).0 ≡ sort_reports (map settle (statuses entries))
all_from_slices-new_report_example = all_from_slices-new_report entries entries-IsKeyed

abbrev no_params : UpdateParams
no_params = record {
  filter = none;
  cleanup = false;
  lifecycle_hooks = false;
  rolling_restart = false;
  pull_failure_delay = 0;
  lifecycle_uid = pos 0;
  lifecycle_gid = pos 0;
  no_restart = false;
  monitor_only = false;
  no_pull = false;
  label_precedence = false;
  run_once = false;
  skip_self_update = false;
  current_container_id = [];
}

abbrev failures : Assoc (Option Text)
failures = (codes "a", some (codes "no such image")) ∷ []

lookup-update_failed_example :
    lookup (codes "a") (update_failed failures entries)
    ≡ failed_entry (lookup (codes "a") entries) (lookup (codes "a") failures)
lookup-update_failed_example = lookup-update_failed failures entries (codes "a") (tt, tt)

abbrev web : Container
web =
    new_container
      (record {
        id = codes "a";
        name = codes "/web";
        image = codes "web";
        labels = [];
        host_config = none;
        state = none;
        stop_signal = [];
        stop_timeout = none;
      })
      (some (codes "old"))

abbrev calls : List Call
calls =
    Call.scan web (codes "new")
    ∷ Call.skip web none
    ∷ Call.fail failures
    ∷ Call.update (codes "a")
    ∷ []

run_calls-IsKeyed_example : IsKeyed (run_calls no_params calls [])
run_calls-IsKeyed_example = run_calls-IsKeyed no_params calls
