-- ===== src/Update/Tests.antt =====
-- Runs of Update on two containers, of which one links to the other.
use aether_supervisor.Prelude.{
  Text, ℕ, suc, codes, true, false, Option, none, some, List, [], ◌∷◌, ◌≡◌, refl, Memᴰ, map, ◌≤◌,
  arith,
}
use aether_supervisor.Container.Data.{Container, set_linked_to_restarting, new_container}
use aether_supervisor.Container.Labels.{
  UpdateParams, is_monitor_only, is_watchtower, get_bool_label_value,
}
use aether_supervisor.Container.Links.{get_links_from_watchtower_label}
use aether_supervisor.Session.Progress.{add_scanned}
use aether_supervisor.Update.Sample.{
  web, database, stale_database, no_params, counting, not_pinned, links_of, instance_named,
}
use aether_supervisor.Update.Stop.{stop_containers_in_reversed_order}
use aether_supervisor.Update.Stop.Accounting.{Accounted, stop_containers_in_reversed_order_lem}
use aether_supervisor.Update.Stop.Frame.{stop_containers_in_reversed_order-keeps}
use aether_supervisor.Update.Restart.{Restarts}
use aether_supervisor.Update.Batch.{restart_one}
use aether_supervisor.Update.Rolling.{roll_one}
use aether_supervisor.Container.Client.{Client}
use aether_supervisor.Update.Scan.{scan}
use aether_supervisor.Update.Scan.Stale.{AllChecked, scan_lem}
use aether_supervisor.Update.Run.{Ending}
use aether_supervisor.Update.Action.{run}
use aether_supervisor.Update.Complete.{run_total}
use aether_supervisor.Update.Listed.{IsSound, listing}

abbrev rolling_params : UpdateParams
rolling_params = record no_params { rolling_restart = true }

abbrev no_restart_params : UpdateParams
no_restart_params = record no_params { no_restart = true }

-- The stops that a run makes, and the containers whose images it names for the cleanup.
abbrev outcome : Option (Ending × ℕ) → ℕ × List Text
outcome none = (0, [])
outcome (some (e, w)) = (w, map (λ i. i.container_name) e.cleanup_image_infos)

-- Both containers are stopped, and restarted in the order of the links.
both_updated :
    outcome (run counting not_pinned (λ delay w. w) links_of no_params 0)
    ≡ (2, codes "db" ∷ codes "web" ∷ [])
unfolding run new_container is_watchtower get_links_from_watchtower_label is_monitor_only
    get_bool_label_value add_scanned
both_updated = refl

both_updated_rolling :
    outcome (run counting not_pinned (λ delay w. w) links_of rolling_params 0)
    ≡ (2, codes "db" ∷ codes "web" ∷ [])
unfolding run new_container is_watchtower get_links_from_watchtower_label is_monitor_only
    get_bool_label_value add_scanned
both_updated_rolling = refl

-- With restarts disabled nothing is done.
nothing_restarted :
    outcome (run counting not_pinned (λ delay w. w) links_of no_restart_params 0) ≡ (0, [])
unfolding run new_container is_watchtower get_links_from_watchtower_label is_monitor_only
    get_bool_label_value add_scanned
nothing_restarted = refl

-- Another instance of the program, linked to a restart, in a run of the instance 8.
abbrev other_instance : Container
other_instance = set_linked_to_restarting true (instance_named (codes "7") [])

abbrev own_params : UpdateParams
own_params = record no_params { current_container_id = codes "8" }

-- A client that counts the renamings.
abbrev renaming : Client ℕ
renaming = record counting { rename_container = λ ctx c new_name w. (none, suc w) }

abbrev no_restarts : Restarts
no_restarts = record {
  failed = [];
  renamed_containers = [];
  cleanup_image_infos = [];
  progress = [];
}

-- The batch leaves another instance alone, the rolling restart renames it.
batch_skips_other : (restart_one renaming own_params [] other_instance no_restarts 0).1 ≡ 0
unfolding restart_one new_container is_watchtower
batch_skips_other = refl

rolling_renames_other : (roll_one renaming own_params other_instance no_restarts 0).1 ≡ 1
unfolding roll_one new_container is_watchtower
rolling_renames_other = refl

abbrev two : List Container
two = web ∷ stale_database ∷ []

stop_containers_in_reversed_order_lem_example :
    Accounted
      (stop_containers_in_reversed_order counting no_params (web ∷ stale_database ∷ []) 0).0
      web
stop_containers_in_reversed_order_lem_example =
    stop_containers_in_reversed_order_lem counting no_params (web ∷ stale_database ∷ []) 0 web
      (Memᴰ.head refl)

-- From two stops on there are at least two.
stop_containers_in_reversed_order-keeps_example :
    2 ≤ (stop_containers_in_reversed_order counting no_params (web ∷ stale_database ∷ []) 2).1
stop_containers_in_reversed_order-keeps_example =
    stop_containers_in_reversed_order-keeps counting no_params (λ w. 2 ≤ w) (λ w h. h)
      (λ c t w h. omega arith) (λ c t command timeout uid gid w h. h) (web ∷ stale_database ∷ []) 2
      (omega arith)

scan_lem_example :
    AllChecked counting not_pinned no_params
      (web ∷ database ∷ [])
      (scan counting not_pinned no_params (web ∷ database ∷ []) [] false 0).0.containers
scan_lem_example = scan_lem counting not_pinned no_params (web ∷ database ∷ []) [] false 0

run_total_example :
    (e : Ending) × (w : ℕ) × (run counting not_pinned (λ delay w. w) links_of no_params 0
      ≡ some (e, w))
    × IsSound counting not_pinned no_params (listing counting not_pinned no_params 0) e
run_total_example = run_total counting not_pinned (λ delay w. w) links_of no_params 0
