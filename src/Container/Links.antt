-- ===== src/Container/Links.antt =====
-- Container.Links of pkg/container/container.go and ParseDependsOnLabel of pkg/compose/compose.go.
-- A nil slice is `none` where the source tells it from an empty one.
use aether_supervisor.Prelude.{
  Text, has_prefix, trim_space, split, first_part, contains_byte, sort_by, text_order, text_eq,
  text_eq_iff, keep, mem-keep, mem-keep_of, map, ◌↔◌, ◌≢◌, arith, Memᴰ, ◌&&◌, not, Bool, true, ◌≡◌,
  Option, none, some, List, [], ◌∷◌, ◌++◌, codes, if◌then◌else◌,
}
use aether_supervisor.Container.Data.{Container, name, normalize_container_name}
use aether_supervisor.Container.Labels.{get_label_value_or_empty, depends_on_label}
use aether_supervisor.Container.Identifier.{get_project_name, is_empty, compose_depends_on_label}

unfoldable pub filter_self_references : List Text → Text → List Text
filter_self_references links container_name = keep (λ link. not (text_eq link container_name)) links

-- The parts of the label that are not empty before they are trimmed.
abbrev nonempty_parts : Text → List Text
nonempty_parts s = keep (λ part. not (is_empty part)) (split s b',')

unfoldable pub get_links_from_watchtower_label : Container → Option (List Text)
unfolding get_label_value_or_empty trim_space
get_links_from_watchtower_label c =
    let label = get_label_value_or_empty c depends_on_label in
    if is_empty label
    then none
    else some (map (λ link. normalize_container_name (trim_space link)) (nonempty_parts label))

-- The project's name is put in front, where there is one and the name does not have it.
unfoldable pub qualify : Text → Text → Text
qualify project service =
    if not (is_empty project) && not (has_prefix service (project ++ codes "-"))
    then project ++ codes "-" ++ service
    else service

-- The legacy form: service:condition:required, separated by commas.
unfoldable pub parse_depends_on_string : Text → List Text
unfolding trim_space
parse_depends_on_string label =
    keep (λ service. not (is_empty service))
      (map (λ dep. trim_space (first_part dep b':'))
        (keep (λ dep. not (is_empty dep)) (map trim_space (split label b','))))

-- The name in a link `name:alias`; one without a colon or a name is skipped.
host_link_names : Text → List Text → List Text
unfolding qualify
host_link_names project [] = []
host_link_names project (link ∷ rest) =
    let names = host_link_names project rest in
    let target = first_part link b':' in
    if contains_byte link b':' && not (is_empty target)
    then qualify project (normalize_container_name target) ∷ names
    else names

unfoldable pub get_links_from_host_config : Container → List Text
unfolding host_link_names get_project_name
get_links_from_host_config c =
    let project = get_project_name c.container_info.labels in
    elim c.container_info.host_config [
      | none ↦ []
      | some host ↦ host_link_names project host.links ++ elim host.network_container [
        | none ↦ []
        | some connected ↦ qualify project (normalize_container_name connected) ∷ []
      ]
    ]

-- `json_object_keys` stands for encoding/json: the keys of the object that the text denotes, in an
-- order that the map leaves open, or `none` if the text is no object.
module _ (json_object_keys : Text → Option (List Text)) where
  unfoldable pub parse_depends_on_label : Text → List Text
  unfolding parse_depends_on_string trim_space
  parse_depends_on_label label =
      if is_empty label
      then []
      else if has_prefix (trim_space label) (codes "{")
      then elim (json_object_keys label) [
        | some services ↦ sort_by text_order (λ s. s) services
        | none ↦ parse_depends_on_string label
      ]
      else parse_depends_on_string label

  unfoldable pub get_links_from_compose_label : Container → Option (List Text)
  unfolding parse_depends_on_label get_label_value_or_empty qualify get_project_name
  get_links_from_compose_label c =
      let label = get_label_value_or_empty c compose_depends_on_label in
      let project = get_project_name c.container_info.labels in
      if is_empty label then none else elim (parse_depends_on_label label) [
        | [] ↦ none
        | services ↦
            some (map (λ service. qualify project (normalize_container_name service)) services)
      ]

  -- The first source that answers, in the order of priority.
  unfoldable pub all_links : Container → List Text
  unfolding get_links_from_watchtower_label get_links_from_compose_label get_links_from_host_config
  all_links c = elim (get_links_from_watchtower_label c) [
    | some found ↦ found
    | none ↦ elim (get_links_from_compose_label c) [
      | some found ↦ found
      | none ↦ get_links_from_host_config c
    ]
  ]

  unfoldable pub links : Container → List Text
  unfolding all_links filter_self_references
  links c = filter_self_references (all_links c) (name c)

  kept_of : (c : Container) (link : Text) → link ≢ name c → not (text_eq link (name c)) ≡ true
  kept_of c link h = ground (arith, text_eq_iff link (name c))

  -- The links of a container are those of the first source that answers, less its own name.
  links_iff :
      (c : Container) (link : Text)
      → Memᴰ link (links c) ↔ (Memᴰ link (all_links c) × (link ≢ name c))
  unfolding links filter_self_references
  links_iff c link =
      let other : Text → Bool = λ l. not (text_eq l (name c)) in
      (
        λ m.
            let (inside, kept) = mem-keep other (all_links c) m in
            (inside, λ e. cc (kept, (text_eq_iff link (name c)).1 e)),
        λ h. mem-keep_of other h.0 (kept_of c link h.1),
      )
