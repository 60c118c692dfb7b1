-- ===== src/Container/Hooks.antt =====
-- The labels of pkg/container/metadata.go that configure lifecycle hooks, the scope of an instance,
-- its chain of self-updates and how it is stopped.
pub mod Bounds
use aether_supervisor.Prelude.{
  Text, ℤ, pos, negsuc, atoi, leb, Bool, Option, none, some, [], ◌∷◌, codes, if◌then◌else◌, ℕ,
}
use aether_supervisor.Container.Data.{Container}
use aether_supervisor.Container.Labels.{get_raw_label_value, get_label_value_or_empty, scope}

abbrev pub container_chain_label : Text
container_chain_label = codes "com.centurylinklabs.watchtower.container-chain"

abbrev pub signal_label : Text
signal_label = codes "com.centurylinklabs.watchtower.stop-signal"

abbrev pub pre_check_label : Text
pre_check_label = codes "com.centurylinklabs.watchtower.lifecycle.pre-check"

abbrev pub post_check_label : Text
post_check_label = codes "com.centurylinklabs.watchtower.lifecycle.post-check"

abbrev pub pre_update_label : Text
pre_update_label = codes "com.centurylinklabs.watchtower.lifecycle.pre-update"

abbrev pub post_update_label : Text
post_update_label = codes "com.centurylinklabs.watchtower.lifecycle.post-update"

abbrev pub pre_update_timeout_label : Text
pre_update_timeout_label = codes "com.centurylinklabs.watchtower.lifecycle.pre-update-timeout"

abbrev pub post_update_timeout_label : Text
post_update_timeout_label = codes "com.centurylinklabs.watchtower.lifecycle.post-update-timeout"

abbrev pub lifecycle_uid_label : Text
lifecycle_uid_label = codes "com.centurylinklabs.watchtower.lifecycle.uid"

abbrev pub lifecycle_gid_label : Text
lifecycle_gid_label = codes "com.centurylinklabs.watchtower.lifecycle.gid"

unfoldable pub get_lifecycle_pre_check_command : Container → Text
get_lifecycle_pre_check_command c = get_label_value_or_empty c pre_check_label

unfoldable pub get_lifecycle_post_check_command : Container → Text
get_lifecycle_post_check_command c = get_label_value_or_empty c post_check_label

unfoldable pub get_lifecycle_pre_update_command : Container → Text
get_lifecycle_pre_update_command c = get_label_value_or_empty c pre_update_label

unfoldable pub get_lifecycle_post_update_command : Container → Text
get_lifecycle_post_update_command c = get_label_value_or_empty c post_update_label

-- The minutes that a value gives, or 1 where it gives none. The empty value gives none either.
unfoldable pub minutes_of : Text → ℤ
unfolding atoi
minutes_of [] = pos 1
minutes_of val = elim (atoi val) [ none ↦ pos 1 | some minutes ↦ minutes ]

unfoldable pub pre_update_timeout : Container → ℤ
unfolding minutes_of
pre_update_timeout c = minutes_of (get_label_value_or_empty c pre_update_timeout_label)

unfoldable pub post_update_timeout : Container → ℤ
unfolding minutes_of
post_update_timeout c = minutes_of (get_label_value_or_empty c post_update_timeout_label)

abbrev pub max_reasonable_id : ℕ
max_reasonable_id = 2_147_483_647

-- The ID that a value gives, within the range of IDs.
abbrev pub id_in_range : ℤ → Option ℤ
id_in_range (negsuc _) = none
id_in_range (pos n) = if leb n max_reasonable_id then some (pos n) else none

unfoldable pub get_lifecycle_id : Container → Text → Option ℤ
get_lifecycle_id c label = elim (get_raw_label_value c label) [
  | none ↦ none
  | some raw ↦ elim (atoi raw) [ none ↦ none | some parsed ↦ id_in_range parsed ]
]

unfoldable pub get_lifecycle_uid : Container → Option ℤ
unfolding get_lifecycle_id
get_lifecycle_uid c = get_lifecycle_id c lifecycle_uid_label

unfoldable pub get_lifecycle_gid : Container → Option ℤ
unfolding get_lifecycle_id
get_lifecycle_gid c = get_lifecycle_id c lifecycle_gid_label

abbrev pub nonempty_or : Text → Text → Text
nonempty_or [] other = other
nonempty_or (c ∷ cs) other = c ∷ cs

-- The container is nil where it is `none`; the answer is `none` for the error that this gives.
unfoldable pub get_effective_scope : Option Container → Text → Option Text
get_effective_scope c (s ∷ current_scope) = some (s ∷ current_scope)
get_effective_scope none [] = none
get_effective_scope (some c) [] = elim (scope c) [
  | none ↦ some []
  | some derived ↦ some (nonempty_or derived [])
]

unfoldable pub get_container_chain : Container → Option Text
get_container_chain c = get_raw_label_value c container_chain_label

unfoldable pub stop_signal : Container → Text
stop_signal c =
    nonempty_or (get_label_value_or_empty c signal_label)
      (nonempty_or c.container_info.stop_signal (codes "SIGTERM"))

unfoldable pub stop_timeout : Container → Option ℤ
stop_timeout c = c.container_info.stop_timeout
