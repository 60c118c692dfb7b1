-- ===== src/Scheduling.antt =====
-- ShouldExitDueToInvalidRestart of internal/scheduling/scheduling.go, and IsWatchtowerParent of
-- pkg/container/container_source.go that it asks.
mod Tests
use aether_supervisor.Prelude.{
  Text, text_eq, trim_space, split, any, Bool, true, false, ◌||◌, ◌&&◌, not, Option, none, some,
  if◌then◌else◌,
}
use aether_supervisor.Container.Data.{Container, id}
use aether_supervisor.Container.Hooks.{get_container_chain}
use aether_supervisor.Container.Identifier.{is_empty}

unfoldable pub is_watchtower_parent : Text → Text → Bool
unfolding trim_space
is_watchtower_parent current_id chain =
    if is_empty current_id || is_empty chain
    then false
    else any (λ part. text_eq (trim_space part) current_id) (split chain b',')

-- The Boolean is the flag run-once.
unfoldable pub should_exit_due_to_invalid_restart : Option Container → Bool → Bool
unfolding is_watchtower_parent
should_exit_due_to_invalid_restart none run_once = false
should_exit_due_to_invalid_restart (some c) run_once = elim (get_container_chain c) [
  | none ↦ false
  | some chain ↦ is_watchtower_parent (id c) chain && not run_once
]
