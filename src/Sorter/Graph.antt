-- ===== src/Sorter/Graph.antt =====
-- buildDependencyGraph of pkg/sorter/dependency.go. The map normalizedMap gives `identifier c` for
-- each container c, and is left out.
use aether_supervisor.Prelude.{
  Text, Assoc, lookup, insert, keep, sort_by, text_order, text_eq, any, not, none, some, List, [],
  ◌∷◌, ◌++◌, if◌then◌else◌, ℕ, suc,
}
use aether_supervisor.Container.Data.{Container, normalize_container_name}
use aether_supervisor.Container.Identifier.{resolve_container_identifier}
use aether_supervisor.Sorter.Names.{is_replica, extract_service_name}

unfoldable pub identifier : Container → Text
identifier c = normalize_container_name (resolve_container_identifier c)

-- The containers of one identifier: the first, and those that collide with it.
abbrev pub Group : Type 0
Group = Container × List Container

-- `tempMap[identifier] = append(tempMap[identifier], c)`
unfoldable pub group_container : Container → Assoc Group → Assoc Group
group_container c temp = elim (lookup (identifier c) temp) [
  | none ↦ insert (identifier c) (c, []) temp
  | some group ↦ insert (identifier c) (group.0, group.1 ++ c ∷ []) temp
]

unfoldable pub group_all : List Container → Assoc Group → Assoc Group
unfolding group_container
group_all [] temp = temp
group_all (c ∷ cs) temp = group_all cs (group_container c temp)

pub data SortError : Type 0 where
  identifier_collision : (identifier : Text) (affected : List Container) → SortError
  circular_reference : (container_name : Text) (cycle_path : List Text) → SortError

pub data Result {ℓ} (A : Type ℓ) : Type ℓ where
  ok : A → Result A
  err : SortError → Result A

-- The loop over tempMap: the map of the containers, or the first collision that it meets. Go leaves
-- the order of the loop open; here it is that of the first container of each identifier.
unfoldable pub container_map : Assoc Group → Result (Assoc Container)
container_map [] = ok []
container_map ((k, (c, [])) ∷ temp) = elim (container_map temp) [
  | ok containers ↦ ok ((k, c) ∷ containers)
  | err e ↦ err e
]
container_map ((k, (c, d ∷ ds)) ∷ temp) = err (identifier_collision k (c ∷ d ∷ ds))

abbrev pub keys {ℓ} : {V : Type ℓ} → Assoc V → List Text
keys [] = []
keys ((k, _) ∷ m) = k ∷ keys m

abbrev pub others : Text → List Text → List Text
others k = keep (λ j. not (text_eq j k))

-- The only element of a list that has one.
abbrev pub single : List Text → List Text
single (k ∷ []) = k ∷ []
single _ = []

-- The identifiers that a link of the container `self` means: the exact key, or else the replicas
-- in order, or else the only key with that service name; never the container itself.
unfoldable pub link_targets : List Text → Text → Text → List Text
unfolding is_replica extract_service_name
link_targets ids self link =
    if any (text_eq link) ids
    then others self (link ∷ [])
    else elim (sort_by text_order (λ k. k) (keep (is_replica link) ids)) [
      | [] ↦ others self (single (keep (λ k. text_eq (extract_service_name k) link) ids))
      | matched ↦ others self matched
    ]

-- The maps indegree and adjacency.
pub record Graph : Type 0 where
  pub indegree : Assoc ℕ
  pub adjacency : Assoc (List Text)

abbrev pub degree : Assoc ℕ → Text → ℕ
degree m k = elim (lookup k m) [ none ↦ 0 | some n ↦ n ]

abbrev pub dependents : Assoc (List Text) → Text → List Text
dependents m k = elim (lookup k m) [ none ↦ [] | some ds ↦ ds ]

unfoldable pub add_dependency : Text → Text → Graph → Graph
add_dependency self target g = record {
  indegree = insert self (suc (degree g.indegree self)) g.indegree;
  adjacency = insert target (dependents g.adjacency target ++ self ∷ []) g.adjacency;
}

unfoldable pub add_targets : Text → List Text → Graph → Graph
unfolding add_dependency
add_targets self [] g = g
add_targets self (target ∷ targets) g = add_targets self targets (add_dependency self target g)

unfoldable pub add_links : List Text → Text → List Text → Graph → Graph
unfolding add_targets link_targets
add_links ids self [] g = g
add_links ids self (link ∷ links) g =
    add_links ids self links (add_targets self (link_targets ids self link) g)

abbrev pub zero_degrees : List Text → Assoc ℕ
zero_degrees [] = []
zero_degrees (k ∷ ks) = (k, 0) ∷ zero_degrees ks

-- `links c` stands for c.Links(): see Container.Links.
module _ (links : Container → List Text) where
  unfoldable pub add_containers : List Text → List Container → Graph → Graph
  unfolding add_links identifier
  add_containers ids [] g = g
  add_containers ids (c ∷ cs) g = add_containers ids cs (add_links ids (identifier c) (links c) g)

  unfoldable pub build_dependency_graph : List Container → Result (Assoc Container × Graph)
  unfolding group_all container_map add_containers
  build_dependency_graph containers = elim (container_map (group_all containers [])) [
    | err e ↦ err e
    | ok found ↦
        let ids = keys found in
        let start : Graph = record { indegree = zero_degrees ids; adjacency = [] } in
        ok (found, add_containers ids containers start)
  ]
