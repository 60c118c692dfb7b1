-- ===== src/Update/Run.antt =====
-- The part of Update of internal/actions/update.go that orders and restarts the containers. `links c`
-- stands for c.Links(), `sleep` for the wait of a duration that the cancellation of the context ends,
-- and `none` is running out of fuel.
use aether_supervisor.Prelude.{
  Text, ℕ, Assoc, lookup, keep, text_eq, codes, Bool, ◌&&◌, not, Option, none, some, List, [], ◌∷◌,
  if◌then◌else◌, ◌==◌,
}
use aether_supervisor.Container.Data.{Container, id, name, to_restart}
use aether_supervisor.Container.Labels.{UpdateParams, is_monitor_only}
use aether_supervisor.Container.Client.{Client}
use aether_supervisor.Lifecycle.{execute_post_checks}
use aether_supervisor.Session.Progress.{Progress, add_skipped, mark_for_update, update_failed}
use aether_supervisor.Sorter.Graph.{SortError, identifier_collision, circular_reference}
use aether_supervisor.Sorter.Graph
use aether_supervisor.Sorter.Sort.{sort}
use aether_supervisor.Sorter.Errors.{sort_error_text}
use aether_supervisor.Update.Implicit.{update_implicit_restart}
use aether_supervisor.Update.Scan.{circular_dependency}
use aether_supervisor.Update.Stop.{RemovedImageInfo, caused, stop_containers_in_reversed_order}
use aether_supervisor.Update.Batch.{restart_containers_in_sorted_order}
use aether_supervisor.Update.Rolling.{perform_rolling_restart}

abbrev pub default_pull_failure_delay : ℕ
default_pull_failure_delay = 300_000_000_000

-- What the function returns, with the progress map in place of its report; nil is `none`.
pub record Ending : Type 0 where
  pub progress : Option Progress
  pub cleanup_image_infos : List RemovedImageInfo
  pub error : Option Text

abbrev pub failure : Text → Ending
failure e = record { progress = none; cleanup_image_infos = []; error = some e }

-- The map of the failures, as UpdateFailed takes it.
abbrev pub errors : Assoc Text → Assoc (Option Text)
errors [] = []
errors ((k, e) ∷ failed) = (k, some e) ∷ errors failed

-- The loop for the container of a circular reference.
unfoldable pub skip_circular : UpdateParams → Text → List Container → Progress → Progress
skip_circular config circular_name [] progress = progress
skip_circular config circular_name (c ∷ cs) progress =
    let rest = skip_circular config circular_name cs progress in
    if text_eq (name c) circular_name
    then (elim (lookup (id c) progress) [
      | some _ ↦ progress
      | none ↦ add_skipped c (some circular_dependency) config progress
    ])
    else rest

unfoldable pub mark_all_for_update : List Container → Progress → Progress
mark_all_for_update [] progress = progress
mark_all_for_update (c ∷ cs) progress =
    mark_all_for_update cs (if c.stale then mark_for_update (id c) progress else progress)

abbrev pub sort_failed : SortError → Text
sort_failed e = caused (codes "failed to sort containers by dependencies") (sort_error_text e)

-- The containers with their marks, in the order of the dependencies where there is one.
pub data Arranged : Type 0 where
  refused : Text → Arranged
  arranged : List Container → Progress → Arranged

module _ (links : Container → List Text) (config : UpdateParams) where
  unfoldable pub arrange : List Container → List Container → Progress → Option Arranged
  unfolding sort update_implicit_restart skip_circular
  arrange all_containers containers progress = elim (sort links containers) [
    | none ↦ none
    | some (Graph.err (circular_reference circular_name _)) ↦
        some (arranged containers (skip_circular config circular_name containers progress))
    | some (Graph.err (identifier_collision identifier affected)) ↦
        some (refused (sort_failed (identifier_collision identifier affected)))
    | some (Graph.ok sorted) ↦ elim (update_implicit_restart links all_containers sorted) [
      | none ↦ none
      | some (marked, _) ↦ some (arranged marked progress)
    ]
  ]

  -- The containers to restart, in order.
  unfoldable pub select_restarts : Arranged → Option Arranged
  unfolding sort
  select_restarts (refused e) = some (refused e)
  select_restarts (arranged containers progress) =
      elim (sort links (keep (λ c. to_restart c && not (is_monitor_only c config)) containers)) [
        | none ↦ none
        | some (Graph.err e) ↦ some (refused (sort_failed e))
        | some (Graph.ok sorted) ↦ some (arranged sorted progress)
      ]

  unfoldable pub plan : List Container → List Container → Progress → Option Arranged
  unfolding arrange select_restarts
  plan all_containers containers progress = elim (arrange all_containers containers progress) [
    | none ↦ none
    | some order ↦ select_restarts order
  ]

module _ {W : Type 0} (client : Client W) (sleep : ℕ → W → W) (config : UpdateParams) where
  -- The end of the run: the hooks, and the delay after a failed pull.
  unfoldable pub conclude : Bool → W → W
  unfolding execute_post_checks
  conclude pull_failed w =
      let checked = if config.lifecycle_hooks then execute_post_checks client config w else w in
      if pull_failed
      then sleep
          (if config.pull_failure_delay == 0
            then default_pull_failure_delay
            else config.pull_failure_delay)
          checked
      else checked

  unfoldable pub run_rolling : List Container → Bool → Progress → W → Ending × W
  unfolding perform_rolling_restart conclude
  run_rolling containers pull_failed progress w =
      let ((s, stop), w') = perform_rolling_restart client config containers [] progress w in
      (
        record {
          progress = some (update_failed (errors s.failed) s.progress);
          cleanup_image_infos = s.cleanup_image_infos;
          error = stop;
        },
        elim stop [ some _ ↦ w' | none ↦ conclude pull_failed w' ],
      )

  unfoldable pub run_batch : List Container → Bool → Progress → W → Ending × W
  unfolding stop_containers_in_reversed_order restart_containers_in_sorted_order mark_all_for_update
      conclude
  run_batch containers pull_failed progress w =
      let (halt, w') = stop_containers_in_reversed_order client config containers w in
      let stopped_progress =
        update_failed (errors halt.failed) (mark_all_for_update containers progress) in
      let (s, w'') =
        restart_containers_in_sorted_order client config containers halt.stopped [] stopped_progress
          w' in
      (
        record {
          progress = some (update_failed (errors s.failed) s.progress);
          cleanup_image_infos = s.cleanup_image_infos;
          error = none;
        },
        conclude pull_failed w'',
      )

  unfoldable pub run_restarts : Arranged → Bool → W → Ending × W
  unfolding run_rolling run_batch
  run_restarts (refused e) pull_failed w = (failure e, w)
  run_restarts (arranged containers progress) pull_failed w =
      if config.rolling_restart
      then run_rolling containers pull_failed progress w
      else run_batch containers pull_failed progress w
