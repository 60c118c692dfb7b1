-- ===== src/Update/Action.antt =====
-- Update of internal/actions/update.go, from its start to the report. `links c` stands for c.Links(),
-- `sleep` for the wait of a duration that the cancellation of the context ends, and `none` is
-- running out of fuel.
use aether_supervisor.Prelude.{
  Text, ℕ, keep, codes, Bool, false, Option, none, some, List, [], if◌then◌else◌,
}
use aether_supervisor.Container.Data.{Container}
use aether_supervisor.Container.Labels.{UpdateParams}
use aether_supervisor.Container.Client.{Client, Result, ok, err}
use aether_supervisor.Container.Cycles.{detect_cycles}
use aether_supervisor.Filters.{no_filter}
use aether_supervisor.Lifecycle.{execute_pre_checks}
use aether_supervisor.Session.Report.{Report, new_report}
use aether_supervisor.Update.Scan.{skip_self_dependencies, skip_cycles, Scan, scan, propagate_stale}
use aether_supervisor.Update.Stop.{RemovedImageInfo, caused}
use aether_supervisor.Update.Run.{Ending, failure, plan, run_restarts}

abbrev pub filtered : Option (Container → Bool) → List Container → List Container
filtered none cs = cs
filtered (some f) cs = keep f cs

-- The report of the progress, the images to clean up, and the error.
unfoldable pub reported : Ending → Option Report × List RemovedImageInfo × Option Text
unfolding new_report
reported e = (
  elim e.progress [ none ↦ none | some progress ↦ some (new_report progress).0 ],
  e.cleanup_image_infos,
  e.error,
)

module _ {W : Type 0} (client : Client W) (parse_docker_ref : Text → Result Bool)
    (sleep : ℕ → W → W) (links : Container → List Text) (config : UpdateParams) where
  unfoldable pub run_scanned : List Container → Scan → W → Option (Ending × W)
  unfolding plan run_restarts propagate_stale
  run_scanned all_containers s w = elim s.cancelled [
    | some e ↦
        some (record { progress = some s.progress; cleanup_image_infos = []; error = some e }, w)
    | none ↦
        elim (plan links config (propagate_stale s.containers all_containers) s.containers
          s.progress) [
            | none ↦ none
            | some order ↦ some (run_restarts client sleep config order s.watchtower_pull_failed w)
          ]
  ]

  unfoldable pub run_listed : List Container → W → Option (Ending × W)
  unfolding run_scanned scan detect_cycles skip_cycles skip_self_dependencies execute_pre_checks
  run_listed all_containers w =
      let w' = if config.lifecycle_hooks then execute_pre_checks client config w else w in
      let containers = filtered config.filter all_containers in
      elim (detect_cycles links containers) [
        | none ↦ none
        | some cycles ↦
            let progress =
              skip_cycles config cycles containers (skip_self_dependencies config containers []) in
            let (s, w'') = scan client parse_docker_ref config containers progress false w' in
            run_scanned all_containers s w''
      ]

  unfoldable pub run : W → Option (Ending × W)
  unfolding run_listed
  run w =
      let (stop, w') = client.context_error w in
      elim stop [
        | some e ↦ some (failure (caused (codes "update canceled") e), w')
        | none ↦
            let (listed, w'') = client.list_containers (some no_filter) w' in
            elim listed [
              | err e ↦ some (failure (caused (codes "failed to list containers") e), w'')
              | ok all_containers ↦ run_listed all_containers w''
            ]
      ]

  unfoldable pub update : W → Option ((Option Report × List RemovedImageInfo × Option Text) × W)
  unfolding run reported
  update w = elim (run w) [ none ↦ none | some (e, w') ↦ some (reported e, w') ]
