-- ===== src/Session/Status.antt =====
-- pkg/session/container_status.go
use aether_supervisor.Prelude.{Text, Bool, Option, none, some, [], codes}

-- The constants of the integer type State. Its other values are never stored.
pub data State : Type 0 where
  unknown skipped scanned updated failed fresh stale restarted : State

-- An error is the text that its method Error gives; nil is `none`.
pub record ContainerStatus : Type 0 where
  pub container_id : Text
  pub old_image : Text
  pub new_image : Text
  pub container_name : Text
  pub image_name : Text
  pub container_error : Option Text
  pub state : State
  pub monitor_only : Bool
  pub new_container_id : Text

-- The method State, whose name the type has.
unfoldable pub state_string : ContainerStatus → Text
state_string u = elim u.state [
  | unknown ↦ codes "Unknown"
  | skipped ↦ codes "Skipped"
  | scanned ↦ codes "Scanned"
  | updated ↦ codes "Updated"
  | failed ↦ codes "Failed"
  | fresh ↦ codes "Fresh"
  | stale ↦ codes "Stale"
  | restarted ↦ codes "Restarted"
]

unfoldable pub error : ContainerStatus → Text
error u = elim u.container_error [ none ↦ [] | some message ↦ message ]

unfoldable pub set_new_container_id : Text → ContainerStatus → ContainerStatus
set_new_container_id id u = record u { new_container_id = id }
