-- ===== src/Update/Plan.antt =====
-- The plan of a run of Update: it is always found, and what is restarted may be.
use aether_supervisor.Prelude.{
  Text, keep, Bool, true, ◌&&◌, not, some, List, ◌++◌, ◌≡◌, refl, All, All-perm, All-keep,
  All-of_mem, Assoc, [], ◌∷◌, inl, inr, sym, subst, mem-keep,
}
use aether_supervisor.Container.Data.{Container, to_restart, set_linked_to_restarting}
use aether_supervisor.Container.Labels.{UpdateParams, is_monitor_only}
use aether_supervisor.Session.Progress.{Progress}
use aether_supervisor.Session.Progress.Keyed.{IsKeyed}
use aether_supervisor.Sorter.Graph.{SortError, identifier_collision, circular_reference}
use aether_supervisor.Sorter.Graph
use aether_supervisor.Sorter.Sort.{sort, sort_by_dependencies, watchtower, non_watchtower}
use aether_supervisor.Sorter.Dependencies.{sort_by_dependencies_total}
use aether_supervisor.Sorter.Watchtower.{sort_sound}
use aether_supervisor.Update.Implicit.Closure.{update_implicit_restart_total}
use aether_supervisor.Update.Implicit.Pass.{AllMarks}
use aether_supervisor.Update.Keyed.{skip_circular-IsKeyed}
use aether_supervisor.Update.Run.{
  Arranged, refused, arranged, arrange, select_restarts, plan, skip_circular, sort_failed,
}

module _ (config : UpdateParams) where
  -- May the container be restarted?
  abbrev pub IsRestart : Container → Type 0
  IsRestart c = (to_restart c && not (is_monitor_only c config)) ≡ true

module _ (config : UpdateParams) (Q : Container → Type 0) where
  -- An arrangement with a keyed progress map, whose containers have a property.
  abbrev pub HasProgress : Arranged → Type 0
  HasProgress (refused e) = Unit
  HasProgress (arranged cs m) = IsKeyed m × All Q cs

  abbrev pub IsPlan : Arranged → Type 0
  IsPlan (refused e) = Unit
  IsPlan (arranged cs m) = IsKeyed m × All (IsRestart config) cs × All Q cs

module _ (links : Container → List Text) (config : UpdateParams) where
  sorted_total :
      (cs : List Container) (r : Graph.Result (List Container))
      → sort_by_dependencies links (non_watchtower cs) ≡ some r
      → (r' : Graph.Result (List Container)) × (sort links cs ≡ some r')
  unfolding sort
  sorted_total cs (Graph.err error) e = (Graph.err error, rw (sort, e) refl)
  sorted_total cs (Graph.ok front) e = (Graph.ok (front ++ watchtower cs), rw (sort, e) refl)

  pub sort_total :
      (cs : List Container) → (r : Graph.Result (List Container)) × (sort links cs ≡ some r)
  sort_total cs =
      let (r, e, _) = sort_by_dependencies_total links (non_watchtower cs) in sorted_total cs r e

-- `Q` is a property that the mark of a linked container keeps.
module _ (links : Container → List Text) (config : UpdateParams) (Q : Container → Type 0)
    (keeps : (c : Container) → Q c → Q (set_linked_to_restarting true c)) where
  marks-keep :
      (restarting : Assoc Bool) (cs ds : List Container)
      → AllMarks links restarting cs ds
      → All Q cs
      → All Q ds
  marks-keep restarting [] [] m h = tt
  marks-keep restarting [] (d ∷ ds) m h = absurd m
  marks-keep restarting (c ∷ cs) [] m h = absurd m
  marks-keep restarting (c ∷ cs) (d ∷ ds) (m, ms) (h, hs) =
      let rest = marks-keep restarting cs ds ms hs in
      elim m as (λ _. Q d × All Q ds) [
        | inl same ↦ (subst Q (sym same) h, rest)
        | inr (_, shape, _) ↦ (subst Q (sym shape) (keeps c h), rest)
      ]

  arrange_sorted :
      (all_containers cs : List Container) (m : Progress) (r : Graph.Result (List Container))
      → IsKeyed m
      → All Q cs
      → sort links cs ≡ some r
      → (order : Arranged) × (arrange links config all_containers cs m ≡ some order)
        × HasProgress config Q order
  unfolding arrange
  arrange_sorted all_containers cs m (Graph.err (circular_reference n path)) h q e = (
    arranged cs (skip_circular config n cs m),
    rw (arrange, e) refl,
    (skip_circular-IsKeyed config n cs m h, q),
  )
  arrange_sorted all_containers cs m (Graph.err (identifier_collision k affected)) h q e =
      (refused (sort_failed (identifier_collision k affected)), rw (arrange, e) refl, tt)
  arrange_sorted all_containers cs m (Graph.ok sorted) h q e =
      let (marked, end, f, marks, _, _) =
        update_implicit_restart_total links all_containers sorted in
      let (perm, _) = sort_sound links cs sorted e in
      (
        arranged marked m,
        rw (arrange, e, f) refl,
        (h, marks-keep end.restarting sorted marked marks (All-perm Q perm q)),
      )

  select_sorted :
      (cs : List Container) (m : Progress) (r : Graph.Result (List Container))
      → IsKeyed m
      → All Q cs
      → sort links (keep (λ c. to_restart c && not (is_monitor_only c config)) cs) ≡ some r
      → (chosen : Arranged) × (select_restarts links config (arranged cs m) ≡ some chosen)
        × IsPlan config Q chosen
  unfolding select_restarts
  select_sorted cs m (Graph.err error) h q e =
      (refused (sort_failed error), rw (select_restarts, e) refl, tt)
  select_sorted cs m (Graph.ok sorted) h q e =
      let restarts : Container → Bool = λ c. to_restart c && not (is_monitor_only c config) in
      let (perm, _) = sort_sound links (keep restarts cs) sorted e in
      (
        arranged sorted m,
        rw (select_restarts, e) refl,
        (
          h,
          All-perm (IsRestart config) perm
              (All-of_mem (IsRestart config) (keep restarts cs) λ c i. (mem-keep restarts cs i).1),
          All-perm Q perm (All-keep Q restarts cs q),
        ),
      )

  select_restarts_total :
      (order : Arranged)
      → HasProgress config Q order
      → (chosen : Arranged) × (select_restarts links config order ≡ some chosen)
        × IsPlan config Q chosen
  unfolding select_restarts
  select_restarts_total (refused e) h = (refused e, refl, tt)
  select_restarts_total (arranged cs m) h =
      let (r, e) =
        sort_total links config (keep (λ c. to_restart c && not (is_monitor_only c config)) cs) in
      select_sorted cs m r h.0 h.1 e

  pub plan_total :
      (all_containers cs : List Container) (m : Progress)
      → IsKeyed m
      → All Q cs
      → (order : Arranged) × (plan links config all_containers cs m ≡ some order)
        × IsPlan config Q order
  unfolding plan
  plan_total all_containers cs m h q =
      let (r, sorted) = sort_total links config cs in
      let (order, e, k) = arrange_sorted all_containers cs m r h q sorted in
      let (chosen, f, i) = select_restarts_total order k in (chosen, rw (plan, e) f, i)
