-- ===== src/Sorter/Kahn/Outcome.antt =====
-- The branches of sortByDependencies: which inputs collide, are sorted, or are a cycle.
use aether_supervisor.Prelude.{
  Text, Assoc, any, not, Bool, true, false, some, List, [], ◌∷◌, keep, sort_by-perm, text_order,
  text_eq, ℕ, suc, ◌≡◌, ◌≢◌, ◌==◌, ==_iff, ◌⊎◌, inl, inr, refl, sym, ap, ◌∙◌, arith, length, All,
  All-keep, All-perm, Bool-cases, List-cases,
}
use aether_supervisor.Container.Data.{Container}
use aether_supervisor.Sorter.Graph.{
  Graph, ok, err, SortError, identifier_collision, circular_reference, keys, build_dependency_graph,
  dependents, container_map, group_all,
}
use aether_supervisor.Sorter.Queue.{process, containers_of}
use aether_supervisor.Sorter.Cycle.{find_cycle_path}
use aether_supervisor.Sorter.Cycle.Total.{find_cycle_path_total}
use aether_supervisor.Sorter.Cycle.Sound.{IsCycle, find_cycle_path_sound}
use aether_supervisor.Sorter.Sort.{
  sort_by_dependencies, start_run, detect_and_report_cycle, cycle_error, unprocessed,
}
use aether_supervisor.Sorter.Kahn.Edges.{mem_text, DistinctNames, All-of_mem_text}
use aether_supervisor.Sorter.Kahn.Invariant.{Final}
use aether_supervisor.Sorter.Kahn.Build.{dependents_known}
use aether_supervisor.Sorter.Kahn.Groups.{identifiers, by_identifier, container_map_lem}
use aether_supervisor.Sorter.Kahn.Lookup.{identifiers-containers_of}
use aether_supervisor.Sorter.Kahn.Correct.{
  dependency_edges, built, described, processed, keys-by_identifier, names_listed,
}

pub length-identifiers : (cs : List Container) → length (identifiers cs) ≡ length cs
length-identifiers [] = refl
length-identifiers (c ∷ cs) = ap suc (length-identifiers cs)

unprocessed_known :
    (ids order : List Text) → All (λ k. mem_text k ids ≡ true) (unprocessed ids order)
unprocessed_known ids order =
    let left : Text → Bool = λ k. not (any (text_eq k) order) in
    All-perm (λ k. mem_text k ids ≡ true) (sort_by-perm text_order (λ k. k) (keep left ids))
      (All-keep (λ k. mem_text k ids ≡ true) left ids
        (All-of_mem_text (λ k. mem_text k ids ≡ true) ids (λ k m. m)))

reported :
    (g : Graph) (found : Assoc Container) (containers : List Container) (order : List Text)
    (e : SortError)
    → (length (containers_of found order) == length containers) ≡ false
    → cycle_error g (keys found) order ≡ some e
    → detect_and_report_cycle g found containers order ≡ some (err e)
unfolding detect_and_report_cycle cycle_error
reported g found containers order e short h = rw (short, h)

dispatched :
    (links : Container → List Text) (cs : List Container) (found : Assoc Container) (g : Graph)
    (order : List Text)
    → build_dependency_graph links cs ≡ ok (found, g)
    → process (length (keys found)) g.adjacency (start_run g) ≡ some order
    → sort_by_dependencies links cs ≡ detect_and_report_cycle g found cs order
unfolding sort_by_dependencies detect_and_report_cycle
dispatched links cs found g order b p = rw (b, sort_by_dependencies, p)

module _ (links : Container → List Text) (cs : List Container) where
  -- A report is a cycle of the graph, or there is no path to show.
  abbrev pub IsReport : SortError → Type 0
  IsReport (identifier_collision k affected) = ⊥
  IsReport (circular_reference first path) = (path ≡ []) ⊎ IsCycle (built links cs).adjacency path

  path-IsReport :
      (fuel : ℕ) (first : Text) (path : List Text)
      → find_cycle_path (built links cs).adjacency fuel first ≡ some path
      → (path ≡ []) ⊎ IsCycle (built links cs).adjacency path
  path-IsReport fuel first [] e = inl refl
  path-IsReport fuel first (c ∷ path) e =
      inr (find_cycle_path_sound (built links cs).adjacency fuel first c path e)

  module _ (distinct : DistinctNames (identifiers cs)) where
    closed :
        (k : Text)
        → All (λ d. mem_text d (identifiers cs) ≡ true) (dependents (built links cs).adjacency k)
    closed k =
        rw ((described links cs distinct).adjacent k)
          (dependents_known (identifiers cs) links cs k (names_listed links cs distinct))

    cycle_error_lem :
        (order : List Text)
        → (e : SortError) × (cycle_error (built links cs) (identifiers cs) order ≡ some e)
          × IsReport e
    unfolding cycle_error
    cycle_error_lem order = elim (List-cases (unprocessed (identifiers cs) order)) [
      | inl empty ↦ (circular_reference [] [], rw (empty, cycle_error), inl refl)
      | inr (first, rest, shape) ↦
          let known : mem_text first (identifiers cs) ≡ true =
            (rw shape at (unprocessed_known (identifiers cs) order)).0 in
          let (path, found) =
            find_cycle_path_total (built links cs).adjacency (identifiers cs) closed first known in
          (
            circular_reference first path,
            rw (shape, cycle_error, found),
            path-IsReport (suc (length (identifiers cs))) first path found,
          )
    ]

    -- Either the order has all containers and they are returned, or a cycle is reported.
    pub report_lem :
        (order : List Text)
        → Final (dependency_edges links cs) (identifiers cs) order
        → let sorted = containers_of (by_identifier cs) order in
          let result = detect_and_report_cycle (built links cs) (by_identifier cs) cs order in
          ((length order ≡ length cs) × (result ≡ some (ok sorted)))
          ⊎ ((length order ≢ length cs) × ((e : SortError) × (result ≡ some (err e)) × IsReport e))
    unfolding detect_and_report_cycle
    report_lem order f =
        let sorted = containers_of (by_identifier cs) order in
        let same : length sorted ≡ length order =
          sym (length-identifiers sorted)
          ∙ ap length (identifiers-containers_of cs order f.nodes_only) in
        elim (Bool-cases (length sorted == length cs)) [
          | inl full ↦ inl (sym same ∙ (==_iff (length sorted) (length cs)).0 full, rw full)
          | inr short ↦
              let (e, found, report) = cycle_error_lem order in
              inr (
                λ h. ground (arith, ==_iff (length sorted) (length cs), same),
                (
                  e,
                  reported (built links cs) (by_identifier cs) cs order e short
                      (rw (keys-by_identifier cs) found),
                  report,
                ),
              )
        ]

    build_dependency_graph_lem :
        build_dependency_graph links cs ≡ ok (by_identifier cs, built links cs)
    unfolding build_dependency_graph container_map group_all
    build_dependency_graph_lem = elim (container_map_lem cs) [
      | inl (_, found) ↦ rw (found, build_dependency_graph, keys-by_identifier cs)
      | inr (clash, _) ↦ absurd (clash distinct)
    ]

    -- The call comes down to the report on the order of the loop.
    pub sort_by_dependencies_lem :
        (order : List Text) × (sort_by_dependencies links cs
          ≡ detect_and_report_cycle (built links cs) (by_identifier cs) cs order)
        × Final (dependency_edges links cs) (identifiers cs) order
    sort_by_dependencies_lem =
        let (order, looped, final) = processed links cs distinct in
        (
          order,
          dispatched links cs _ _ order build_dependency_graph_lem
              (rw (keys-by_identifier cs) looped),
          final,
        )
