-- ===== src/Cleanup/Excess.antt =====
-- getExcessContainers of internal/actions/cleanup.go, with the functions that it is made of.
pub mod Selection
use aether_supervisor.Prelude.{
  Text, Assoc, insert, any, keep, text_eq, split, Bool, true, false, ◌&&◌, not, Option, none, some,
  List, [], ◌∷◌,
}
use aether_supervisor.Container.Data.{Container, id}
use aether_supervisor.Container.Hooks.{get_container_chain}
use aether_supervisor.Container.Identifier.{is_empty}
use aether_supervisor.Filters.{
  Filter, filter_by_scope, watchtower_containers_filter, unscoped_watchtower_containers_filter,
}

unfoldable pub instance_filter : Text → Filter
unfolding filter_by_scope watchtower_containers_filter unscoped_watchtower_containers_filter
instance_filter [] c = unscoped_watchtower_containers_filter c
instance_filter (s ∷ scope) c = filter_by_scope (s ∷ scope) watchtower_containers_filter c

unfoldable pub get_filtered_containers : Text → Option Container → List Container → List Container
unfolding instance_filter
get_filtered_containers scope none all_containers = []
get_filtered_containers scope (some current) all_containers =
    keep (λ c. not (text_eq (id c) (id current))) (keep (instance_filter scope) all_containers)

-- The IDs of a chain. The empty label is none.
abbrev pub chain_ids : Option Text → List Text
chain_ids none = []
chain_ids (some []) = []
chain_ids (some (x ∷ xs)) = split (x ∷ xs) b','

unfoldable pub container_chain : Container → List Text
container_chain current = chain_ids (get_container_chain current)

unfoldable pub get_chained_containers : List Container → Container → List Container
unfolding container_chain
get_chained_containers all_containers current =
    keep (λ c. any (text_eq (id c)) (container_chain current) && not (text_eq (id c) (id current)))
      all_containers

-- The writes of the containers to a map by their IDs.
unfoldable pub insert_all : List Container → Assoc Container → Assoc Container
insert_all [] m = m
insert_all (c ∷ cs) m = insert_all cs (insert (id c) c m)

abbrev pub values : Assoc Container → List Container
values [] = []
values ((_, c) ∷ m) = c ∷ values m

-- The order of the result is that in which the map is visited, which Go leaves open.
unfoldable pub add_excess_containers : List Container → List Container → List Container
unfolding insert_all
add_excess_containers excess chain = values (insert_all chain (insert_all excess []))

unfoldable pub get_excess_containers : Text → Option Container → List Container → List Container
unfolding get_filtered_containers get_chained_containers add_excess_containers
get_excess_containers scope current all_containers =
    add_excess_containers (get_filtered_containers scope current all_containers)
      (elim current [ none ↦ [] | some c ↦ get_chained_containers all_containers c ])
