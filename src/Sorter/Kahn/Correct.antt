-- ===== src/Sorter/Kahn/Correct.antt =====
-- What sortByDependencies returns.
use aether_supervisor.Prelude.{
  Text, text_eq_refl, true, some, List, [], ◌∷◌, ◌≡◌, refl, ap, arith, length, All,
}
use aether_supervisor.Container.Data.{Container}
use aether_supervisor.Sorter.Graph.{Graph, identifier, keys, add_containers, zero_degrees}
use aether_supervisor.Sorter.Queue.{process}
use aether_supervisor.Sorter.Sort.{start_run}
use aether_supervisor.Sorter.Kahn.Edges.{Edges, mem_text, DistinctNames}
use aether_supervisor.Sorter.Kahn.Invariant.{Inv, Final, process_lem}
use aether_supervisor.Sorter.Kahn.Build.{
  container_edges, Describes, built-Describes, dependents_known,
}
use aether_supervisor.Sorter.Kahn.Start.{initialize_queue_lem}
use aether_supervisor.Sorter.Kahn.Groups.{identifiers, by_identifier}

pub keys-by_identifier : (cs : List Container) → keys (by_identifier cs) ≡ identifiers cs
keys-by_identifier [] = refl
keys-by_identifier (c ∷ cs) = ap (λ (ks : List Text). identifier c ∷ ks) (keys-by_identifier cs)

known_of :
    (ids : List Text) (cs : List Container)
    → ((k : Text) → mem_text k (identifiers cs) ≡ true → mem_text k ids ≡ true)
    → All (λ c. mem_text (identifier c) ids ≡ true) cs
known_of ids [] h = tt
known_of ids (c ∷ cs) h = (
  h (identifier c) (ground (arith, text_eq_refl (identifier c))),
  known_of ids cs (λ k m. h k (ground arith)),
)

module _ (links : Container → List Text) (cs : List Container) where
  -- The edges of the dependency graph of the containers, from a dependency to its dependent.
  abbrev pub dependency_edges : Edges
  dependency_edges = container_edges links (identifiers cs) cs

  -- The graph that buildDependencyGraph makes of containers with distinct identifiers.
  abbrev pub built : Graph
  built =
      add_containers links (identifiers cs) cs
        (record { indegree = zero_degrees (identifiers cs); adjacency = [] })

  module _ (distinct : DistinctNames (identifiers cs)) where
    pub names_listed : All (λ c. mem_text (identifier c) (identifiers cs) ≡ true) cs
    names_listed = known_of (identifiers cs) cs (λ k m. m)

    pub described : Describes (identifiers cs) dependency_edges built
    described = built-Describes (identifiers cs) links cs names_listed

    start-Inv : Inv dependency_edges (identifiers cs) [] (start_run built)
    start-Inv =
        let keys_distinct : DistinctNames (keys built.indegree) = rw described.known distinct in
        let (queue, queue_distinct) = initialize_queue_lem built.indegree keys_distinct in
        let same = λ (k : Text). ap (mem_text k) described.known in
        record {
          counts = λ k. omega (arith, described.degrees k);
          queued = λ k m. ground (arith, queue k, same k);
          freed = λ k n z. ground (arith, queue k, same k);
          distinct = queue_distinct;
          ordered = tt;
        }

    pub processed :
        (order : List Text) × (process (length (identifiers cs)) built.adjacency (start_run built)
          ≡ some order)
        × Final dependency_edges (identifiers cs) order
    processed =
        process_lem dependency_edges (identifiers cs) built.adjacency described.adjacent
          (λ k. dependents_known (identifiers cs) links cs k names_listed) (length (identifiers cs))
          (start_run built) (omega arith) start-Inv
