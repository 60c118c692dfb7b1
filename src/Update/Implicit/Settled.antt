-- ===== src/Update/Implicit/Settled.antt =====
-- What UpdateImplicitRestart marks and what it leaves.
use aether_supervisor.Prelude.{Text, true, false, List, ◌≡◌, ◌⊎◌, All}
use aether_supervisor.Container.Data.{Container, to_restart}
use aether_supervisor.Update.Implicit.{is_marked, Scene}

module _ (links : Container → List Text) (all_containers containers : List Container) where
  -- The container is to be restarted, or no link of it is a name that is marked.
  abbrev pub IsDone : Scene → Container → Type 0
  IsDone end d =
      (to_restart d ≡ true) ⊎ All (λ link. is_marked end.restarting link ≡ false) (links d)
