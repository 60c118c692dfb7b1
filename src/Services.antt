-- ===== src/Services.antt =====
-- The labels, the command, the devices and the names that internal/actions/services.go gives to
-- the containers of an application, with the fields of pkg/types/app_spec.go that they read. Of
-- encoding/json, Marshal of the dependencies is a parameter.
pub mod Environment
pub mod Identity
pub mod Order
mod Tests
use aether_supervisor.Prelude.{
  join, Text, Assoc, lookup, insert, cut, split, sort_by, text_order, codes, map, Bool, true, false,
  Option, none, some, List, [], ◌∷◌, ◌++◌, ℕ, if◌then◌else◌,
}
use aether_supervisor.Container.Identifier.{
  is_empty, compose_project_label, compose_service_label, compose_container_number,
  compose_depends_on_label,
}

pub record MappingOrList : Type 0 where
  pub mapping : Assoc (Option Text)
  pub items : List Text

pub record ServiceDependency : Type 0 where
  pub condition : Text
  pub restart : Bool
  pub required : Option Bool

pub record DependsOnSpec : Type 0 where
  pub names : List Text
  pub values : Assoc ServiceDependency

pub record CommandValue : Type 0 where
  pub shell : Option Text
  pub exec : List Text

pub record ServiceSpec : Type 0 where
  pub container_name : Text
  pub labels : MappingOrList
  pub depends_on : DependsOnSpec

-- A network or a volume of the application, as far as its name goes.
pub record NamedSpec : Type 0 where
  pub name : Text

pub record AppSpec : Type 0 where
  pub name : Text
  pub networks : Assoc NamedSpec

-- `nil` values stand for the empty string.
abbrev add_mapping : Assoc (Option Text) → Assoc Text → Assoc Text
add_mapping [] result = result
add_mapping ((key, none) ∷ rest) result = add_mapping rest (insert key [] result)
add_mapping ((key, some value) ∷ rest) result = add_mapping rest (insert key value result)

abbrev add_entry : Text → Assoc Text → Assoc Text
add_entry entry result = elim (cut entry b'=') [
  | none ↦ insert entry [] result
  | some (key, value) ↦ insert key value result
]

abbrev add_entries : List Text → Assoc Text → Assoc Text
add_entries [] result = result
add_entries (entry ∷ rest) result = add_entries rest (add_entry entry result)

-- An absent map reads as the empty one, and the caller makes it one before it writes.
unfoldable pub labels_to_map : MappingOrList → Assoc Text
labels_to_map value = elim value.mapping [
  | [] ↦ add_entries value.items []
  | (entry ∷ rest) ↦ add_mapping (entry ∷ rest) []
]

-- The values of one dependency in the payload
pub data Any : Type 0 where
  text : Text → Any
  flag : Bool → Any

unfoldable pub dependency_entry : ServiceDependency → Assoc Any
dependency_entry dep =
    let with_condition : Assoc Any =
      if is_empty dep.condition then [] else (codes "condition", text dep.condition) ∷ [] in
    let with_restart : Assoc Any =
      if dep.restart then insert (codes "restart") (flag true) with_condition else with_condition in
    elim dep.required [
      | none ↦ with_restart
      | some b ↦ insert (codes "required") (flag b) with_restart
    ]

unfoldable pub payload : Assoc ServiceDependency → Assoc (Assoc Any)
unfolding dependency_entry
payload [] = []
payload ((name, dep) ∷ rest) = (name, dependency_entry dep) ∷ payload rest

unfoldable pub service_dependencies : ServiceSpec → List Text
service_dependencies spec = elim spec.depends_on.values [
  | [] ↦ spec.depends_on.names
  | (v ∷ vs) ↦ sort_by text_order (λ s. s) (map (λ p. p.0) (v ∷ vs))
]

module _ (marshal : Assoc (Assoc Any) → Option Text) where
  unfoldable pub depends_on_value : DependsOnSpec → Text
  unfolding payload
  depends_on_value depends_on =
      let names = join (codes ",") depends_on.names in
      elim depends_on.values [
        | [] ↦ names
        | (v ∷ vs) ↦ elim (marshal (payload (v ∷ vs))) [ none ↦ names | some encoded ↦ encoded ]
      ]

  unfoldable pub service_labels : AppSpec → Text → ServiceSpec → Assoc Text
  unfolding labels_to_map depends_on_value
  service_labels app_spec service_name service_spec =
      let labels = insert compose_container_number (codes "1") (
        insert compose_service_label service_name
          (insert compose_project_label app_spec.name (labels_to_map service_spec.labels))) in
      let depends_on = depends_on_value service_spec.depends_on in
      if is_empty depends_on then labels else insert compose_depends_on_label depends_on labels

unfoldable pub command_to_slice : CommandValue → List Text
command_to_slice command = elim command.shell [
  | some shell ↦ codes "/bin/sh" ∷ codes "-c" ∷ shell ∷ []
  | none ↦ command.exec
]

unfoldable pub first_non_empty : List Text → Text
first_non_empty [] = []
first_non_empty (value ∷ values) =
    let rest = first_non_empty values in if is_empty value then rest else value

-- resolveNetworkName and resolveVolumeName
unfoldable pub resolve_name : Text → Text → NamedSpec → Text
resolve_name app_name key spec =
    if is_empty spec.name then app_name ++ codes "_" ++ key else spec.name

unfoldable pub resolve_service_network_name : AppSpec → Text → Assoc Text → Text
unfolding resolve_name
resolve_service_network_name app_spec key network_names = elim (lookup key network_names) [
  | some name ↦ name
  | none ↦ elim (lookup key app_spec.networks) [
    | some spec ↦ resolve_name app_spec.name key spec
    | none ↦ key
  ]
]

unfoldable pub resolve_container_name : Text → Text → ServiceSpec → Text
resolve_container_name app_name service_name service_spec =
    if is_empty service_spec.container_name
    then app_name ++ codes "-" ++ service_name ++ codes "-1"
    else service_spec.container_name

pub record DeviceMapping : Type 0 where
  pub path_on_host : Text
  pub path_in_container : Text
  pub cgroup_permissions : Text

-- The parts of a device; strings.Split gives at least one.
unfoldable pub device_mapping : List Text → DeviceMapping
device_mapping [] = record { path_on_host = []; path_in_container = []; cgroup_permissions = [] }
device_mapping (p ∷ []) = record {
  path_on_host = p;
  path_in_container = p;
  cgroup_permissions = [];
}
device_mapping (p ∷ q ∷ []) = record {
  path_on_host = p;
  path_in_container = q;
  cgroup_permissions = [];
}
device_mapping (p ∷ q ∷ r ∷ _) = record {
  path_on_host = p;
  path_in_container = q;
  cgroup_permissions = r;
}

unfoldable pub devices_to_mappings : List Text → List DeviceMapping
unfolding device_mapping
devices_to_mappings values = map (λ value. device_mapping (split value b':')) values
