-- ===== src/Update/Select.antt =====
-- shouldUpdateContainer and hasSelfDependency of internal/actions/update.go.
use aether_supervisor.Prelude.{
  text_eq, any, Bool, true, false, not, ◌&&◌, ◌||◌, none, some, if◌then◌else◌, ◌≡◌, arith,
}
use aether_supervisor.Container.Data.{Container, id, name}
use aether_supervisor.Container.Identifier.{is_empty}
use aether_supervisor.Container.Labels.{UpdateParams, is_monitor_only, is_watchtower}
use aether_supervisor.Container.Links.{get_links_from_watchtower_label}

unfoldable pub should_update_container : Bool → Container → UpdateParams → Bool
should_update_container stale c config =
    if not stale
    then false
    else if is_monitor_only c config
    then false
    else if config.no_restart && not (is_watchtower c)
    then false
    else if config.run_once && is_watchtower c
    then false
    else if config.skip_self_update && is_watchtower c
    then false
    else if is_watchtower c
        && (not (is_empty config.current_container_id)
            && not (text_eq (id c) config.current_container_id))
    then false
    else true

unfoldable pub has_self_dependency : Container → Bool
has_self_dependency c = elim (get_links_from_watchtower_label c) [
  | none ↦ false
  | some links ↦ any (text_eq (name c)) links
]

-- May an instance of the program update itself, if the run is that of the instance?
abbrev pub may_update_self : Container → UpdateParams → Bool
may_update_self c config =
    not config.run_once
    && (not config.skip_self_update
        && (is_empty config.current_container_id || text_eq (id c) config.current_container_id))

-- A container is updated if it is stale, is not only monitored and, as an instance of the program,
-- may update itself, or else restarts are allowed.
pub should_update_container_lem :
    (stale : Bool) (c : Container) (config : UpdateParams)
    → should_update_container stale c config
      ≡ stale
        && (not (is_monitor_only c config)
            && (if is_watchtower c then may_update_self c config else not config.no_restart))
unfolding should_update_container
should_update_container_lem stale c config = ground arith
