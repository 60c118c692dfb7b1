-- ===== src/Container/Identifier.antt =====
-- ResolveContainerIdentifier of pkg/container/container.go, and the Compose labels that it reads
-- (pkg/compose/compose.go).
use aether_supervisor.Prelude.{
  Text, Assoc, lookup, has_prefix, Bool, true, false, ◌&&◌, not, none, some, [], ◌∷◌, ◌++◌, codes,
  if◌then◌else◌, ◌≢◌, ◌⊎◌, arith, has_prefix-ne-nil,
}
use aether_supervisor.Container.Data.{Container, id, name}

abbrev pub compose_depends_on_label : Text
compose_depends_on_label = codes "com.docker.compose.depends_on"

abbrev pub compose_project_label : Text
compose_project_label = codes "com.docker.compose.project"

abbrev pub compose_service_label : Text
compose_service_label = codes "com.docker.compose.service"

abbrev pub compose_container_number : Text
compose_container_number = codes "com.docker.compose.container-number"

abbrev value_or_empty : Text → Assoc Text → Text
value_or_empty key labels = elim (lookup key labels) [ none ↦ [] | some v ↦ v ]

unfoldable pub get_project_name : Assoc Text → Text
get_project_name labels = value_or_empty compose_project_label labels

unfoldable pub get_service_name : Assoc Text → Text
get_service_name labels = value_or_empty compose_service_label labels

unfoldable pub get_container_number : Assoc Text → Text
get_container_number labels = value_or_empty compose_container_number labels

abbrev pub is_empty : Text → Bool
is_empty [] = true
is_empty (_ ∷ _) = false

abbrev dash : Text
dash = codes "-"

unfoldable pub name_or_id : Container → Text
name_or_id c = if is_empty (name c) then id c else name c

-- The choice between the formats, over the values that the labels give.
choose_identifier : Container → Text → Text → Text → Text
unfolding name_or_id
choose_identifier c project service number =
    if not (is_empty project)
      && (not (is_empty service) && has_prefix (name c) (project ++ dash ++ service ++ dash))
    then name c
    else if not (is_empty project) && (not (is_empty service) && not (is_empty number))
    then project ++ dash ++ service ++ dash ++ number
    else if not (is_empty project) && not (is_empty service)
    then project ++ dash ++ service
    else if not (is_empty service)
    then service
    else name_or_id c

unfoldable pub resolve_container_identifier : Container → Text
unfolding choose_identifier name_or_id get_project_name get_service_name get_container_number
resolve_container_identifier c = elim c.container_info.labels [
  | [] ↦ name_or_id c
  | present ↦
      choose_identifier c (get_project_name present) (get_service_name present)
        (get_container_number present)
]

choose_identifier-ne-nil :
    (c : Container) (project service number : Text)
    → name c ≢ [] ⊎ id c ≢ []
    → choose_identifier c project service number ≢ []
unfolding choose_identifier name_or_id
choose_identifier-ne-nil c [] [] number h = ground arith
choose_identifier-ne-nil c [] (x ∷ service) number h = ground arith
choose_identifier-ne-nil c (x ∷ project) [] number h = ground arith
choose_identifier-ne-nil c (x ∷ project) (y ∷ service) number h =
    ground (arith, has_prefix-ne-nil x (project ++ dash ++ (y ∷ service) ++ dash) (name c))

-- The identifier of a container that has a name or an ID is never empty.
pub resolve_container_identifier-ne-nil :
    (c : Container) → name c ≢ [] ⊎ id c ≢ [] → resolve_container_identifier c ≢ []
unfolding resolve_container_identifier name_or_id
resolve_container_identifier-ne-nil c h =
    let labels = c.container_info.labels in
    ground (
      arith,
      choose_identifier-ne-nil c (get_project_name labels) (get_service_name labels)
          (get_container_number labels),
    )
