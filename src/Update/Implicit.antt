-- ===== src/Update/Implicit.antt =====
-- UpdateImplicitRestart of internal/actions/update.go. The containers of the run and all containers
-- are kept by value: a mark on one of the first is written to the container of the second with its
-- ID, as the source does, and the IDs are taken as unique.
pub mod Match
pub mod Pass
pub mod Closure
pub mod Restarting
pub mod Settled
use aether_supervisor.Prelude.{
  Text, Assoc, lookup, insert, text_eq, contains, contains_byte, split, first_part, sort_by,
  text_order, map, Bool, true, false, ◌&&◌, not, Option, none, some, List, [], ◌∷◌, ◌++◌,
  if◌then◌else◌, ℕ, zero, suc, length,
}
use aether_supervisor.Container.Data.{Container, id, name, to_restart, set_linked_to_restarting}
use aether_supervisor.Container.Identifier.{get_project_name, is_empty}
use aether_supervisor.Sorter.Graph.{keys}

-- The project of the label, or else what stands in front of the first dash of the name.
unfoldable pub get_project : Container → Text
get_project c = elim (get_project_name c.container_info.labels) [
  | [] ↦ if contains_byte (name c) b'-' then first_part (name c) b'-' else []
  | project ↦ project
]

-- nameToContainer, in which a later container of a name replaces an earlier one.
unfoldable pub name_to_container : List Container → Assoc Container → Assoc Container
name_to_container [] names = names
name_to_container (c ∷ cs) names = name_to_container cs (insert (name c) c names)

-- getProject(nameToContainer[identifier]). A name that is no container's, for which the source
-- would dereference nil, is no key of the map of the marks.
unfoldable pub project_of : Assoc Container → Text → Text
unfolding get_project
project_of names identifier = elim (lookup identifier names) [ none ↦ [] | some c ↦ get_project c ]

abbrev pub is_marked : Assoc Bool → Text → Bool
is_marked restarting identifier = elim (lookup identifier restarting) [ none ↦ false | some b ↦ b ]

abbrev pub nonempty : Text → Option Text
nonempty [] = none
nonempty (c ∷ cs) = some (c ∷ cs)

module _ (names : Assoc Container) (restarting : Assoc Bool) where
  -- The loop over the map for a link of the form project-service. The order of the list is the one
  -- in which the map is visited, which Go leaves open.
  unfoldable pub project_service_match : Text → Text → List Text → Option Text
  unfolding project_of
  project_service_match link_project service_name [] = none
  project_service_match link_project service_name (identifier ∷ identifiers) =
      let rest = project_service_match link_project service_name identifiers in
      if is_marked restarting identifier
        && (text_eq (project_of names identifier) link_project && contains identifier service_name)
      then some identifier
      else rest

  -- The loop over the sorted identifiers, with the variable crossProjectMatch.
  unfoldable pub service_match : Text → Text → Text → List Text → Option Text
  unfolding project_of
  service_match link project cross_project_match [] = nonempty cross_project_match
  service_match link project cross_project_match (identifier ∷ identifiers) =
      let kept = service_match link project cross_project_match identifiers in
      let first =
        service_match link project
          (if is_empty cross_project_match then identifier else cross_project_match) identifiers in
      if is_marked restarting identifier && contains identifier link
      then (if text_eq (project_of names identifier) project then some identifier else first)
      else kept

  -- The search by the parts of the link, which has the form project-service if there are two.
  unfoldable pub match_parts : Text → Text → List Text → Option Text
  unfolding project_service_match service_match
  match_parts project link (part ∷ next ∷ []) = project_service_match part next (keys restarting)
  match_parts project link _ =
      service_match link project [] (sort_by text_order (λ k. k) (keys restarting))

  -- One round of the loop over the links: what the function returns for the link, if it returns.
  unfoldable pub match_link : Text → Text → Option Text
  unfolding match_parts
  match_link project link =
      if is_marked restarting link then some link else match_parts project link (split link b'-')

  unfoldable pub linked_identifier_marked_for_restart : Text → List Text → Text
  unfolding match_link
  linked_identifier_marked_for_restart project [] = []
  linked_identifier_marked_for_restart project (link ∷ links) = elim (match_link project link) [
    | none ↦ linked_identifier_marked_for_restart project links
    | some identifier ↦ identifier
  ]

unfoldable pub restart_by_name : List Container → Assoc Bool → Assoc Bool
restart_by_name [] restarting = restarting
restart_by_name (c ∷ cs) restarting = restart_by_name cs (insert (name c) (to_restart c) restarting)

-- What the loop writes besides the containers of the run.
pub record Scene : Type 0 where
  pub all_containers : List Container
  pub restarting : Assoc Bool
  pub changed : Bool

unfoldable pub find_by_id : Text → List Container → Option Container
find_by_id wanted [] = none
find_by_id wanted (c ∷ cs) =
    let rest = find_by_id wanted cs in if text_eq (id c) wanted then some c else rest

abbrev pub link_by_id : Text → List Container → List Container
link_by_id wanted = map (λ c. if text_eq (id c) wanted then set_linked_to_restarting true c else c)

-- The writes for a container that is marked, apart from that to the container itself.
unfoldable pub mark_linked : Container → Scene → Scene
unfolding find_by_id
mark_linked c s = elim (find_by_id (id c) s.all_containers) [
  | none ↦ record s { changed = true }
  | some ac ↦ record {
    all_containers = link_by_id (id c) s.all_containers;
    restarting = insert (name ac) true s.restarting;
    changed = true;
  }
]

-- `links c` stands for c.Links().
module _ (links : Container → List Text) where
  -- The identifier by which a container is linked to a restarting one, or none.
  unfoldable pub linked_identifier : Scene → Container → Text
  unfolding linked_identifier_marked_for_restart get_project
  linked_identifier s c =
      linked_identifier_marked_for_restart (name_to_container s.all_containers []) s.restarting
        (get_project c) (links c)

  -- The `for` loop over the containers.
  unfoldable pub mark_pass : List Container → Scene → List Container × Scene
  unfolding linked_identifier mark_linked
  mark_pass [] s = ([], s)
  mark_pass (c ∷ cs) s =
      let marked = not (to_restart c) && not (is_empty (linked_identifier s c)) in
      let (rest, end) = mark_pass cs (if marked then mark_linked c s else s) in
      ((if marked then set_linked_to_restarting true c else c) ∷ rest, end)

  -- The loop that repeats it while something changes, with fuel.
  unfoldable pub mark_rounds : ℕ → List Container → Scene → Option (List Container × Scene)
  unfolding mark_pass
  mark_rounds zero cs s = none
  mark_rounds (suc fuel) cs s =
      let (marked, end) = mark_pass cs (record s { changed = false }) in
      elim end.changed [ true ↦ mark_rounds fuel marked end | false ↦ some (marked, end) ]

  -- All containers and those of the run, after the call.
  unfoldable pub update_implicit_restart :
      List Container → List Container → Option (List Container × Scene)
  unfolding mark_rounds restart_by_name
  update_implicit_restart all_containers containers =
      mark_rounds (suc (length containers)) containers (record {
        all_containers = all_containers;
        restarting = restart_by_name all_containers [];
        changed = true;
      })
