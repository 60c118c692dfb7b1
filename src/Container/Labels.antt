-- ===== src/Container/Labels.antt =====
-- pkg/container/metadata.go: what the labels say of a container. A label value comes with its
-- presence, as in the source; the error of a Boolean label is its own case.
use aether_supervisor.Prelude.{
  Text, ℕ, ℤ, lookup, contains_byte, [], Bool, false, ◌||◌, Option, none, some, codes, ◌++◌,
  if◌then◌else◌, text_eq, parse_bool,
}
use aether_supervisor.Container.Data.{Container}

abbrev pub watchtower_label : Text
watchtower_label = codes "com.centurylinklabs.watchtower"

abbrev pub enable_label : Text
enable_label = codes "com.centurylinklabs.watchtower.enable"

abbrev pub monitor_only_label : Text
monitor_only_label = codes "com.centurylinklabs.watchtower.monitor-only"

abbrev pub no_pull_label : Text
no_pull_label = codes "com.centurylinklabs.watchtower.no-pull"

abbrev pub depends_on_label : Text
depends_on_label = codes "com.centurylinklabs.watchtower.depends-on"

abbrev pub zodiac_label : Text
zodiac_label = codes "com.centurylinklabs.zodiac.original-image"

abbrev pub scope_label : Text
scope_label = codes "com.centurylinklabs.watchtower.scope"

-- types.UpdateParams, but for Timeout and CPUCopyMode, which only the Docker client reads. A filter
-- that is nil is `none`, and a duration is in nanoseconds.
pub record UpdateParams : Type 0 where
  pub filter : Option (Container → Bool)
  pub cleanup : Bool
  pub lifecycle_hooks : Bool
  pub rolling_restart : Bool
  pub pull_failure_delay : ℕ
  pub lifecycle_uid : ℤ
  pub lifecycle_gid : ℤ
  pub no_restart : Bool
  pub monitor_only : Bool
  pub no_pull : Bool
  pub label_precedence : Bool
  pub run_once : Bool
  pub skip_self_update : Bool
  pub current_container_id : Text

unfoldable pub get_raw_label_value : Container → Text → Option Text
get_raw_label_value c label = lookup label c.container_info.labels

unfoldable pub get_label_value_or_empty : Container → Text → Text
unfolding get_raw_label_value
get_label_value_or_empty c label = elim (get_raw_label_value c label) [ none ↦ [] | some v ↦ v ]

pub data BoolLabel : Type 0 where
  value : Bool → BoolLabel
  not_found parse_error : BoolLabel

-- An empty value counts as false.
bool_of_text : Text → BoolLabel
unfolding parse_bool
bool_of_text [] = value false
bool_of_text s = elim (parse_bool s) [ none ↦ parse_error | some b ↦ value b ]

unfoldable pub get_bool_label_value : Container → Text → BoolLabel
unfolding bool_of_text get_raw_label_value
get_bool_label_value c label = elim (get_raw_label_value c label) [
  | none ↦ not_found
  | some v ↦ bool_of_text v
]

unfoldable pub get_container_or_global_bool : Container → Bool → Text → Bool → Bool
get_container_or_global_bool c global_val label cont_precedence =
    elim (get_bool_label_value c label) [
      | value cont_val ↦ if cont_precedence then cont_val else cont_val || global_val
      | _ ↦ global_val
    ]

unfoldable pub is_monitor_only : Container → UpdateParams → Bool
unfolding get_container_or_global_bool
is_monitor_only c params =
    get_container_or_global_bool c params.monitor_only monitor_only_label params.label_precedence

unfoldable pub is_no_pull : Container → UpdateParams → Bool
unfolding get_container_or_global_bool
is_no_pull c params =
    get_container_or_global_bool c params.no_pull no_pull_label params.label_precedence

-- `none` where the source answers (false, false): the label is absent or no Boolean.
unfoldable pub enabled : Container → Option Bool
unfolding get_raw_label_value parse_bool
enabled c = elim (get_raw_label_value c enable_label) [ none ↦ none | some v ↦ parse_bool v ]

unfoldable pub scope : Container → Option Text
unfolding get_raw_label_value
scope c = get_raw_label_value c scope_label

unfoldable pub is_watchtower : Container → Bool
is_watchtower c = elim (lookup watchtower_label c.container_info.labels) [
  | none ↦ false
  | some v ↦ text_eq v (codes "true")
]

unfoldable pub image_name : Container → Text
unfolding get_raw_label_value
image_name c =
    let name : Text = elim (get_raw_label_value c zodiac_label) [
      | none ↦ c.container_info.image
      | some v ↦ v
    ] in
    if contains_byte name b':' then name else name ++ codes ":latest"
