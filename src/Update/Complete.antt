-- ===== src/Update/Complete.antt =====
-- What a whole run of Update keeps, whatever the client answers.
use aether_supervisor.Prelude.{
  if-keeps, Text, codes, ℕ, Bool, false, some, List, [], ◌≡◌, refl, inl, inr, All, subst, sym,
  Option-cases, if◌then◌else◌,
}
use aether_supervisor.Container.Data.{Container}
use aether_supervisor.Container.Labels.{UpdateParams}
use aether_supervisor.Container.Client.{Client, Result}
use aether_supervisor.Container.Cycles.Sound.{detect_cycles_sound}
use aether_supervisor.Lifecycle.{execute_pre_checks}
use aether_supervisor.Filters.{no_filter}
use aether_supervisor.Session.Progress.{Progress}
use aether_supervisor.Session.Progress.Keyed.{IsKeyed, update_failed-IsKeyed}
use aether_supervisor.Update.Stop.{caused, RemovedImageInfo, stop_containers_in_reversed_order}
use aether_supervisor.Update.Batch.{restart_containers_in_sorted_order}
use aether_supervisor.Update.Rolling.{perform_rolling_restart}
use aether_supervisor.Update.Scan.{skip_self_dependencies, skip_cycles, Scan, scan, propagate_stale}
use aether_supervisor.Update.Scan.Stale.{scan_lem}
use aether_supervisor.Update.Run.{
  Ending, failure, Arranged, refused, arranged, errors, run_rolling, run_batch, run_restarts,
}
use aether_supervisor.Update.Action.{filtered, run_scanned, run_listed, run}
use aether_supervisor.Update.Keyed.{
  Result-cases, skip_self_dependencies-IsKeyed, skip_cycles-IsKeyed, mark_all_for_update-IsKeyed,
  restart_each-IsKeyed, roll_each-IsKeyed, scan-IsKeyed,
}
use aether_supervisor.Update.Cleanup.{IsClean, Names, restart_each-IsClean, roll_each-IsClean}
use aether_supervisor.Update.Plan.{IsPlan, plan_total}
use aether_supervisor.Update.Listed.{
  HasKeys, IsListed, IsReplaced, listed_by, listing, IsSound, restarts-Names, checked-IsListed,
  filtered-listed,
}

module _ {W : Type 0} (client : Client W) (sleep : ℕ → W → W) (config : UpdateParams)
    (P : RemovedImageInfo → Type 0) where
  -- The ending of a run that names only infos with the property
  abbrev IsSoundFor : Ending → Type 0
  IsSoundFor e = HasKeys e.progress × IsClean P e.cleanup_image_infos

  run_rolling-IsSound :
      (cs : List Container) (pull_failed : Bool) (m : Progress) (w : W)
      → IsKeyed m
      → All (Names P) cs
      → IsSoundFor (run_rolling client sleep config cs pull_failed m w).0
  unfolding run_rolling perform_rolling_restart
  run_rolling-IsSound cs pull_failed m w h p = (
    update_failed-IsKeyed _ _ (roll_each-IsKeyed client config cs _ w h),
    roll_each-IsClean P client config cs _ w p (tt, tt),
  )

  run_batch-IsSound :
      (cs : List Container) (pull_failed : Bool) (m : Progress) (w : W)
      → IsKeyed m
      → All (Names P) cs
      → IsSoundFor (run_batch client sleep config cs pull_failed m w).0
  unfolding run_batch restart_containers_in_sorted_order
  run_batch-IsSound cs pull_failed m w h p =
      let halt = stop_containers_in_reversed_order client config cs w in
      let marked =
        update_failed-IsKeyed (errors halt.0.failed) _ (mark_all_for_update-IsKeyed cs m h) in
      (
        update_failed-IsKeyed _ _
            (restart_each-IsKeyed client config halt.0.stopped cs _ halt.1 marked),
        restart_each-IsClean P client config halt.0.stopped cs _ halt.1 p (tt, tt),
      )

  -- The property holds of the infos of the containers of the plan.
  abbrev HasNames : Arranged → Type 0
  HasNames (refused e) = Unit
  HasNames (arranged cs m) = IsKeyed m × All (Names P) cs

  pub run_restarts-IsSound :
      (order : Arranged) (pull_failed : Bool) (w : W)
      → HasNames order
      → IsSoundFor (run_restarts client sleep config order pull_failed w).0
  unfolding run_restarts
  run_restarts-IsSound (refused e) pull_failed w h = (tt, (tt, tt))
  run_restarts-IsSound (arranged cs m) pull_failed w h =
      if-keeps (λ (r : Ending × W). IsSoundFor r.0) config.rolling_restart
        (run_rolling client sleep config cs pull_failed m w)
        (run_batch client sleep config cs pull_failed m w)
        (run_rolling-IsSound cs pull_failed m w h.0 h.1)
        (run_batch-IsSound cs pull_failed m w h.0 h.1)

module _ {W : Type 0} (client : Client W) (parse_docker_ref : Text → Result Bool)
    (sleep : ℕ → W → W) (links : Container → List Text) (config : UpdateParams) where
  plan-HasNames :
      (all_containers : List Container) (order : Arranged)
      → IsPlan config (IsListed client parse_docker_ref config all_containers) order
      → HasNames client sleep config
          (IsReplaced client parse_docker_ref config all_containers)
          order
  plan-HasNames all_containers (refused e) h = tt
  plan-HasNames all_containers (arranged cs m) (k, r, q) =
      (k, restarts-Names client parse_docker_ref config all_containers cs r q)

  run_scanned_total :
      (all_containers : List Container) (s : Scan) (w : W)
      → IsKeyed s.progress
      → All (IsListed client parse_docker_ref config all_containers) s.containers
      → (e : Ending) × (w' : W) × (run_scanned client parse_docker_ref sleep links config
            all_containers s w
          ≡ some (e, w'))
        × IsSound client parse_docker_ref config all_containers e
  unfolding run_scanned
  run_scanned_total all_containers s w h q = elim (Option-cases s.cancelled) [
    | inr (error, e) ↦ (
      record { progress = some s.progress; cleanup_image_infos = []; error = some error },
      w,
      rw (run_scanned, e) refl,
      (h, (tt, tt)),
    )
    | inl e ↦
        let (order, f, i) =
          plan_total links config (IsListed client parse_docker_ref config all_containers)
            (λ c listed. listed) (propagate_stale s.containers all_containers) s.containers
            s.progress h q in
        let (ending, w') = run_restarts client sleep config order s.watchtower_pull_failed w in
        (
          ending,
          w',
          rw (run_scanned, e, f) refl,
          run_restarts-IsSound client sleep config
              (IsReplaced client parse_docker_ref config all_containers) order
              s.watchtower_pull_failed w (plan-HasNames all_containers order i),
        )
  ]

  run_listed_total :
      (all_containers : List Container) (w : W)
      → (e : Ending) × (w' : W) × (run_listed client parse_docker_ref sleep links config
            all_containers w
          ≡ some (e, w'))
        × IsSound client parse_docker_ref config all_containers e
  unfolding run_listed
  run_listed_total all_containers w =
      let w' = if config.lifecycle_hooks then execute_pre_checks client config w else w in
      let cs = filtered config.filter all_containers in
      let (cycles, e, _) = detect_cycles_sound links cs in
      let m = skip_cycles config cycles cs (skip_self_dependencies config cs []) in
      let keyed : IsKeyed m =
        skip_cycles-IsKeyed config cycles cs _
          (skip_self_dependencies-IsKeyed config cs [] (tt, tt)) in
      let (s, w'') = scan client parse_docker_ref config cs m false w' in
      let (ending, end, f, sound) =
        run_scanned_total all_containers s w''
          (scan-IsKeyed client parse_docker_ref config cs m false w' keyed)
          (checked-IsListed client parse_docker_ref config all_containers cs s.containers
            (filtered-listed client parse_docker_ref config config.filter all_containers)
            (scan_lem client parse_docker_ref config cs m false w')) in
      (ending, end, rw (run_listed, e) f, sound)

  -- A run of Update ends, whatever the client answers. The progress map that its report is made of
  -- is keyed by the IDs of its statuses, and the images that it names for the cleanup are distinct
  -- and each that of a container that the client has listed to the run, that is not only monitored,
  -- and that was listed as stale or of which the client said so and which was to be updated.
  pub run_total :
      (w : W)
      → (e : Ending) × (w' : W) × (run client parse_docker_ref sleep links config w ≡ some (e, w'))
        × IsSound client parse_docker_ref config (listing client parse_docker_ref config w) e
  unfolding run
  run_total w = elim (Option-cases (client.context_error w).0) [
    | inr (error, e) ↦ (
      failure (caused (codes "update canceled") error),
      (client.context_error w).1,
      rw (run, e) refl,
      (tt, (tt, tt)),
    )
    | inl e ↦
        let w' = (client.context_error w).1 in
        let (listed, w'') = client.list_containers (some no_filter) w' in
        elim (Result-cases listed) [
          | inr (error, f) ↦ (
            failure (caused (codes "failed to list containers") error),
            w'',
            rw (run, e, f) refl,
            (tt, (tt, tt)),
          )
          | inl (all_containers, f) ↦
              let (ending, end, g, sound) = run_listed_total all_containers w'' in
              (
                ending,
                end,
                rw (run, e, f) g,
                subst (λ r. IsSound client parse_docker_ref config (listed_by r) ending) (sym f)
                    sound,
              )
        ]
  ]
