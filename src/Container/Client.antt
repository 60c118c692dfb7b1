-- ===== src/Container/Client.antt =====
-- The interface Client of pkg/container/client.go, as far as the actions use it, over the state `W`
-- of Docker and of the contexts. A call gives its answer and the state after it. A client that is
-- not Docker's own fits too.
use aether_supervisor.Prelude.{Text, ℕ, ℤ, Bool, Option, List}
use aether_supervisor.Container.Data.{Container}
use aether_supervisor.Container.Labels.{UpdateParams}

-- The context of the caller, or one that its cancellation does not reach.
pub data Context : Type 0 where
  parent detached : Context

-- A result and an error, of which the caller reads only one. An error is its text.
pub data Result (A : Type 0) : Type 0 where
  ok : A → Result A
  err : Text → Result A

-- The error of a stop, with what the containerd function IsNotFound says of it.
pub record StopError : Type 0 where
  pub is_not_found : Bool
  pub text : Text

-- The error of the removal of an image, with what IsNotFound and IsConflict say of it.
pub record RemoveError : Type 0 where
  pub is_not_found : Bool
  pub is_conflict : Bool
  pub text : Text

-- The timeout of the update parameters is one for all calls, so it belongs to the client.
pub record Client (W : Type 0) : Type 0 where
  -- The method Err of the caller's context.
  pub context_error : W → Option Text × W
  pub list_containers : Option (Container → Bool) → W → Result (List Container) × W
  pub get_container : Context → Text → W → Result Container × W
  pub stop_and_remove_container : Context → Container → W → Option StopError × W
  pub start_container : Context → Container → W → Result Text × W
  pub rename_container : Context → Container → Text → W → Option Text × W
  -- The configuration is cut down to the name of the restart policy.
  pub update_container : Context → Container → Text → W → Option Text × W
  -- Its Boolean and its image are read even with an error.
  pub is_container_stale : Context → Container → UpdateParams → W → (Bool × Text × Option Text) × W
  -- The command, its timeout in minutes, and the IDs of the user and the group.
  pub execute_command : Context → Container → Text → ℤ → ℤ → ℤ → W → Result Bool × W
  -- The timeout is in minutes.
  pub wait_for_container_healthy : Context → Text → ℕ → W → Option Text × W
  -- The ID of the image and its name.
  pub remove_image_by_id : Context → Text → Text → W → Option RemoveError × W
