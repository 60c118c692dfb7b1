-- ===== src/Container/Data.antt =====
-- The state of pkg/container/container.go's Container, and its getters that read no label.
-- Docker's inspect records are cut down to the fields that the modelled functions read. The
-- pointers to the record and to its Config are taken as non-nil, as Docker's client returns them.
use aether_supervisor.Prelude.{
  Text, ℤ, Assoc, Bool, false, ◌||◌, Option, none, some, List, [], trim_prefix, codes,
}

-- HostConfig: `network_container` is what Docker's NetworkMode.ConnectedContainer answers where
-- NetworkMode.IsContainer holds.
pub record HostConfig : Type 0 where
  pub links : List Text
  pub network_container : Option Text

-- The state of the container, where Docker gives one.
pub record RunState : Type 0 where
  pub running : Bool
  pub restarting : Bool

pub record ContainerInfo : Type 0 where
  pub id : Text
  pub name : Text
  pub image : Text
  pub labels : Assoc Text
  pub host_config : Option HostConfig
  pub state : Option RunState
  -- StopSignal and StopTimeout of the Config; an empty signal is none.
  pub stop_signal : Text
  pub stop_timeout : Option ℤ

pub record Container : Type 0 where
  pub linked_to_restarting : Bool
  pub stale : Bool
  pub old_image_id : Text
  pub normalized_name : Text
  pub container_info : ContainerInfo
  -- The ID in the image's inspect record, where there is one.
  pub image_info : Option Text

-- util.NormalizeContainerName
abbrev pub normalize_container_name : Text → Text
normalize_container_name name = trim_prefix name (codes "/")

unfoldable pub new_container : ContainerInfo → Option Text → Container
new_container container_info image_info = record {
  linked_to_restarting = false;
  stale = false;
  old_image_id = [];
  normalized_name = normalize_container_name container_info.name;
  container_info = container_info;
  image_info = image_info;
}

abbrev pub set_linked_to_restarting : Bool → Container → Container
set_linked_to_restarting value c = record c { linked_to_restarting = value }

abbrev pub set_stale : Bool → Container → Container
set_stale value c = record c { stale = value }

abbrev pub set_old_image_id : Text → Container → Container
set_old_image_id id c = record c { old_image_id = id }

abbrev pub to_restart : Container → Bool
to_restart c = c.stale || c.linked_to_restarting

abbrev pub id : Container → Text
id c = c.container_info.id

abbrev pub name : Container → Text
name c = c.normalized_name

abbrev pub image_id : Container → Text
image_id c = elim c.image_info [ none ↦ [] | some i ↦ i ]

unfoldable pub is_running : Container → Bool
is_running c = elim c.container_info.state [ none ↦ false | some s ↦ s.running ]

unfoldable pub is_restarting : Container → Bool
is_restarting c = elim c.container_info.state [ none ↦ false | some s ↦ s.restarting ]

pub data ConfigError : Type 0 where
  no_image_info invalid_config : ConfigError

-- The write to ExposedPorts, which only the Docker client reads, is left out.
unfoldable pub verify_configuration : Container → Option ConfigError
verify_configuration c = elim c.image_info [
  | none ↦ some no_image_info
  | some _ ↦ elim c.container_info.host_config [ none ↦ some invalid_config | some _ ↦ none ]
]
