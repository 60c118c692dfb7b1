-- ===== src/Container/Cycles.antt =====
-- pkg/container/cycles.go: which containers are on a cycle of dependencies. The search has fuel for
-- its depth, and `none` is running out of it. `from_first` of Sorter.Cycle is the same search for
-- the first occurrence in a path.
pub mod Neighbors
pub mod Sound
use aether_supervisor.Prelude.{
  Text, Assoc, lookup, insert, keep, Bool, true, false, any, text_eq, Option, none, some, List, [],
  ◌∷◌, ◌++◌, if◌then◌else◌, ◌==◌, ℕ, zero, suc, length,
}
use aether_supervisor.Container.Data.{Container, name}
use aether_supervisor.Container.Identifier.{resolve_container_identifier}
use aether_supervisor.Sorter.Graph.{degree, dependents, keys, zero_degrees}
use aether_supervisor.Sorter.Cycle.{from_first}

-- The fields that change: `cycles` is the list of the keys that are true.
pub record CycleDetector : Type 0 where
  pub colors : Assoc ℕ
  pub cycles : List Text
  pub path : List Text

-- The color of a node: 0 white, 1 gray, 2 black.
abbrev pub color : CycleDetector → Text → ℕ
color s node = degree s.colors node

abbrev pub drop_last : List Text → List Text
drop_last [] = []
drop_last (x ∷ []) = []
drop_last (x ∷ y ∷ xs) = x ∷ drop_last (y ∷ xs)

abbrev pub enter : Text → CycleDetector → CycleDetector
enter node s = record s { colors = insert node 1 s.colors; path = s.path ++ node ∷ [] }

abbrev pub backtrack : Text → CycleDetector → CycleDetector
backtrack node s = record s { colors = insert node 2 s.colors; path = drop_last s.path }

abbrev pub mark_cycle : Text → CycleDetector → CycleDetector
mark_cycle neighbor s = record s { cycles = s.cycles ++ from_first neighbor s.path }

abbrev pub Visit : Type 0
Visit = Text → CycleDetector → Option CycleDetector

abbrev pub visit_neighbor : Visit → Visit
visit_neighbor visit neighbor s =
    if color s neighbor == 0
    then visit neighbor s
    else some (if color s neighbor == 1 then mark_cycle neighbor s else s)

unfoldable pub visit_all : Visit → List Text → CycleDetector → Option CycleDetector
visit_all visit [] s = some s
visit_all visit (neighbor ∷ rest) s = elim (visit_neighbor visit neighbor s) [
  | none ↦ none
  | some s' ↦ visit_all visit rest s'
]

abbrev pub backtracked : Text → Option CycleDetector → Option CycleDetector
backtracked node none = none
backtracked node (some s) = some (backtrack node s)

module _ (graph : Assoc (List Text)) where
  unfoldable pub search : ℕ → Visit
  unfolding visit_all
  search zero node s = none
  search (suc fuel) node s =
      backtracked node (visit_all (search fuel) (dependents graph node) (enter node s))

  -- The loop of DetectCycles over the nodes, of which only white ones are started from.
  unfoldable pub search_all : ℕ → List Text → CycleDetector → Option CycleDetector
  unfolding search
  search_all fuel [] s = some s
  search_all fuel (node ∷ nodes) s =
      elim (if color s node == 0 then search fuel node s else some s) [
        | none ↦ none
        | some s' ↦ search_all fuel nodes s'
      ]

unfoldable pub alias_map : List Container → Assoc Text → Assoc Text
unfolding resolve_container_identifier
alias_map [] aliases = aliases
alias_map (c ∷ cs) aliases =
    let canonical = resolve_container_identifier c in
    alias_map cs (insert canonical canonical (insert (name c) canonical aliases))

unfoldable pub canonical_links : Assoc Text → List Text → List Text
canonical_links aliases [] = []
canonical_links aliases (link ∷ links) =
    let rest = canonical_links aliases links in
    elim (lookup link aliases) [ none ↦ rest | some canonical ↦ canonical ∷ rest ]

abbrev pub known_neighbors : List Text → Assoc (List Text) → Assoc (List Text)
known_neighbors nodes [] = []
known_neighbors nodes ((node, neighbors) ∷ graph) =
    (node, keep (λ n. any (text_eq n) nodes) neighbors) ∷ known_neighbors nodes graph

module _ (links : Container → List Text) where
  unfoldable pub raw_graph : Assoc Text → List Container → Assoc (List Text) → Assoc (List Text)
  unfolding canonical_links resolve_container_identifier
  raw_graph aliases [] graph = graph
  raw_graph aliases (c ∷ cs) graph =
      raw_graph aliases cs
        (insert (resolve_container_identifier c) (canonical_links aliases (links c)) graph)

  unfoldable pub cycle_graph : List Container → Assoc (List Text)
  unfolding raw_graph alias_map
  cycle_graph containers =
      let graph = raw_graph (alias_map containers []) containers [] in
      known_neighbors (keys graph) graph

  unfoldable pub detect_cycles : List Container → Option (List Text)
  unfolding search_all cycle_graph
  detect_cycles containers =
      let graph = cycle_graph containers in
      let white : CycleDetector = record {
        colors = zero_degrees (keys graph);
        cycles = [];
        path = [];
      } in
      elim (search_all graph (suc (length (keys graph))) (keys graph) white) [
        | none ↦ none
        | some s ↦ some s.cycles
      ]
