-- ===== src/Sorter/Sort.antt =====
-- sortByDependencies, detectAndReportCycle and DependencySorter.Sort of pkg/sorter/dependency.go.
-- `none` is running out of fuel.
use aether_supervisor.Prelude.{
  Text, Assoc, sort_by, text_order, text_eq, any, keep, not, Option, none, some, List, [], ◌∷◌,
  ◌++◌, if◌then◌else◌, ◌==◌, suc, length,
}
use aether_supervisor.Container.Data.{Container}
use aether_supervisor.Container.Labels.{is_watchtower}
use aether_supervisor.Sorter.Graph.{
  Graph, Result, ok, err, SortError, circular_reference, keys, build_dependency_graph,
}
use aether_supervisor.Sorter.Queue.{Run, initialize_queue, process, containers_of}
use aether_supervisor.Sorter.Cycle.{find_cycle_path}

-- The identifiers of the map that are not in the order, sorted.
abbrev pub unprocessed : List Text → List Text → List Text
unprocessed ids order = sort_by text_order (λ k. k) (keep (λ k. not (any (text_eq k) order)) ids)

-- The error for containers that were left over.
unfoldable pub cycle_error : Graph → List Text → List Text → Option SortError
unfolding find_cycle_path
cycle_error g ids order = elim (unprocessed ids order) [
  | [] ↦ some (circular_reference [] [])
  | first ∷ _ ↦ elim (find_cycle_path g.adjacency (suc (length ids)) first) [
    | none ↦ none
    | some path ↦ some (circular_reference first path)
  ]
]

-- The order, or an error if it is shorter than the list of the containers.
unfoldable pub detect_and_report_cycle :
    Graph → Assoc Container → List Container → List Text → Option (Result (List Container))
unfolding cycle_error containers_of
detect_and_report_cycle g found containers order =
    let sorted = containers_of found order in
    if length sorted == length containers
    then some (ok sorted)
    else elim (cycle_error g (keys found) order) [ none ↦ none | some e ↦ some (err e) ]

abbrev pub start_run : Graph → Run
start_run g = record { queue = initialize_queue g.indegree; order = []; indegree = g.indegree }

abbrev pub watchtower : List Container → List Container
watchtower = keep is_watchtower

abbrev pub non_watchtower : List Container → List Container
non_watchtower = keep (λ c. not (is_watchtower c))

module _ (links : Container → List Text) where
  unfoldable pub sort_by_dependencies : List Container → Option (Result (List Container))
  unfolding build_dependency_graph initialize_queue process detect_and_report_cycle
  sort_by_dependencies containers = elim (build_dependency_graph links containers) [
    | err e ↦ some (err e)
    | ok (found, g) ↦ elim (process (length (keys found)) g.adjacency (start_run g)) [
      | none ↦ none
      | some order ↦ detect_and_report_cycle g found containers order
    ]
  ]

  -- The slice after the call, or the error that leaves it as it is.
  unfoldable pub sort : List Container → Option (Result (List Container))
  unfolding sort_by_dependencies
  sort containers = elim (sort_by_dependencies (non_watchtower containers)) [
    | none ↦ none
    | some (err e) ↦ some (err e)
    | some (ok sorted) ↦ some (ok (sorted ++ watchtower containers))
  ]
