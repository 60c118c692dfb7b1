-- ===== src/Update/Listed.antt =====
-- What a sound ending of a run of Update is, by the containers that the client lists to it.
use aether_supervisor.Prelude.{
  Text, Bool, true, false, Option, none, some, List, [], ◌∷◌, ◌≡◌, refl, All, All-of_mem, mem-keep,
  keep, Memᴰ, arith,
}
use aether_supervisor.Container.Data.{Container}
use aether_supervisor.Container.Labels.{UpdateParams, is_monitor_only}
use aether_supervisor.Container.Client.{Client, Result, ok, err}
use aether_supervisor.Filters.{no_filter}
use aether_supervisor.Session.Progress.{Progress}
use aether_supervisor.Session.Progress.Keyed.{IsKeyed}
use aether_supervisor.Update.Stop.{RemovedImageInfo, removed_image_info}
use aether_supervisor.Update.Scan.Stale.{IsChecked, SaysStale, AllChecked}
use aether_supervisor.Update.Run.{Ending}
use aether_supervisor.Update.Action.{filtered}
use aether_supervisor.Update.Cleanup.{IsClean, Names}
use aether_supervisor.Update.Plan.{IsRestart}

-- The progress map of the ending, if there is one, is keyed.
abbrev pub HasKeys : Option Progress → Type 0
HasKeys none = Unit
HasKeys (some m) = IsKeyed m

abbrev pub listed_by : Result (List Container) → List Container
listed_by (ok all_containers) = all_containers
listed_by (err _) = []

module _ {W : Type 0} (client : Client W) (parse_docker_ref : Text → Result Bool)
    (config : UpdateParams) where
  -- The container is one of the list, with its data and image, and if it is stale, then it was so
  -- there, or the client said it of it and it was to be updated.
  abbrev pub IsListed : List Container → Container → Type 0
  IsListed all_containers d =
      (c : Container) × Memᴰ c all_containers
      × IsChecked parse_docker_ref config (SaysStale client parse_docker_ref config c) c d

  -- The info is that of a stale container of the list that is not only monitored.
  abbrev pub IsReplaced : List Container → RemovedImageInfo → Type 0
  IsReplaced all_containers info =
      (d : Container) × (d.stale ≡ true)
      × (is_monitor_only d config ≡ false)
      × (info ≡ removed_image_info d)
      × IsListed all_containers d

  -- What the client lists in the state in which the run asks it, or nothing
  abbrev pub listing : W → List Container
  listing w = listed_by (client.list_containers (some no_filter) (client.context_error w).1).0

  abbrev pub IsSound : List Container → Ending → Type 0
  IsSound all_containers e =
      HasKeys e.progress × IsClean (IsReplaced all_containers) e.cleanup_image_infos

  pub restarts-Names :
      (all_containers cs : List Container)
      → All (IsRestart config) cs
      → All (IsListed all_containers) cs
      → All (Names (IsReplaced all_containers)) cs
  restarts-Names all_containers [] h q = tt
  restarts-Names all_containers (c ∷ cs) h q =
      ((λ stale. (c, stale, ground arith, refl, q.0)), restarts-Names all_containers cs h.1 q.1)

  pub checked-IsListed :
      (all_containers cs ds : List Container)
      → All (λ c. Memᴰ c all_containers) cs
      → AllChecked client parse_docker_ref config cs ds
      → All (IsListed all_containers) ds
  checked-IsListed all_containers [] [] m h = tt
  checked-IsListed all_containers [] (d ∷ ds) m h = absurd h
  checked-IsListed all_containers (c ∷ cs) [] m h = absurd h
  checked-IsListed all_containers (c ∷ cs) (d ∷ ds) m h =
      ((c, m.0, h.0), checked-IsListed all_containers cs ds m.1 h.1)

  pub filtered-listed :
      (filter : Option (Container → Bool)) (all_containers : List Container)
      → All (λ c. Memᴰ c all_containers) (filtered filter all_containers)
  filtered-listed none all_containers = All-of_mem _ all_containers (λ c m. m)
  filtered-listed (some f) all_containers =
      All-of_mem _ (keep f all_containers) (λ c m. (mem-keep f all_containers m).0)
