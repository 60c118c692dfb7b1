-- ===== src/Scheduling/Tests.antt =====
-- An instance that is in its own chain exits, unless it runs once.
use aether_supervisor.Prelude.{codes, true, false, some, [], ◌∷◌, ◌≡◌, refl}
use aether_supervisor.Container.Data.{new_container, Container}
use aether_supervisor.Container.Labels.{get_raw_label_value}
use aether_supervisor.Container.Hooks.{container_chain_label, get_container_chain}
use aether_supervisor.Update.Sample.{instance_named}
use aether_supervisor.Scheduling.{should_exit_due_to_invalid_restart}

abbrev restarted : Container
restarted = instance_named (codes "i1") ((container_chain_label, codes "i0, i1") ∷ [])

exits : should_exit_due_to_invalid_restart (some restarted) false ≡ true
unfolding should_exit_due_to_invalid_restart get_container_chain get_raw_label_value new_container
exits = refl

stays : should_exit_due_to_invalid_restart (some restarted) true ≡ false
unfolding should_exit_due_to_invalid_restart get_container_chain get_raw_label_value new_container
stays = refl
