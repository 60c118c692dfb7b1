-- ===== src/Lifecycle.antt =====
-- pkg/lifecycle/lifecycle.go: the hooks, as calls of the client.
use aether_supervisor.Prelude.{
  Text, ℤ, pos, codes, Bool, true, false, ◌||◌, not, Option, none, some, List, [], ◌∷◌, ◌++◌,
  if◌then◌else◌,
}
use aether_supervisor.Container.Data.{Container, name, is_running, is_restarting}
use aether_supervisor.Container.Labels.{UpdateParams}
use aether_supervisor.Container.Hooks.{
  get_lifecycle_pre_check_command, get_lifecycle_post_check_command,
  get_lifecycle_pre_update_command, get_lifecycle_post_update_command, get_lifecycle_uid,
  get_lifecycle_gid, pre_update_timeout, post_update_timeout,
}
use aether_supervisor.Container.Client.{Client, Context, parent, Result, ok, err}

abbrev pub check_command_timeout : ℤ
check_command_timeout = pos 1

-- The ID of the container's label, or else the default.
abbrev pub effective : Option ℤ → ℤ → ℤ
effective none default = default
effective (some own) default = own

-- The error of the hook, which wraps that of the command.
abbrev pub pre_update_error : Container → Text → Text
pre_update_error c cause =
    codes "pre-update command execution failed for container " ++ name c ++ codes ": " ++ cause

module _ {W : Type 0} (client : Client W) where
  abbrev pub execute : Context → Container → Text → ℤ → ℤ → ℤ → W → Result Bool × W
  execute ctx c command timeout uid gid w =
      client.execute_command ctx c command timeout (effective (get_lifecycle_uid c) uid)
        (effective (get_lifecycle_gid c) gid) w

  unfoldable pub execute_pre_check_command : Container → ℤ → ℤ → W → W
  execute_pre_check_command c uid gid w = elim (get_lifecycle_pre_check_command c) [
    | [] ↦ w
    | command ↦ (execute parent c command check_command_timeout uid gid w).1
  ]

  unfoldable pub execute_post_check_command : Container → ℤ → ℤ → W → W
  execute_post_check_command c uid gid w = elim (get_lifecycle_post_check_command c) [
    | [] ↦ w
    | command ↦ (execute parent c command check_command_timeout uid gid w).1
  ]

  abbrev pub for_each : (Container → W → W) → List Container → W → W
  for_each f [] w = w
  for_each f (c ∷ cs) w = for_each f cs (f c w)

  unfoldable pub execute_pre_checks : UpdateParams → W → W
  execute_pre_checks params w =
      let (listed, w) = client.list_containers params.filter w in
      elim listed [
        | err _ ↦ w
        | ok containers ↦
            for_each (λ c. execute_pre_check_command c params.lifecycle_uid params.lifecycle_gid)
              containers w
      ]

  unfoldable pub execute_post_checks : UpdateParams → W → W
  execute_post_checks params w =
      let (listed, w) = client.list_containers params.filter w in
      elim listed [
        | err _ ↦ w
        | ok containers ↦
            for_each (λ c. execute_post_check_command c params.lifecycle_uid params.lifecycle_gid)
              containers w
      ]

  unfoldable pub execute_pre_update_command :
      Context → Container → ℤ → ℤ → W → (Bool × Option Text) × W
  execute_pre_update_command ctx c uid gid w = elim (get_lifecycle_pre_update_command c) [
    | [] ↦ ((false, none), w)
    | command ↦
        if not (is_running c) || is_restarting c
        then ((false, none), w)
        else let (result, w) = execute ctx c command (pre_update_timeout c) uid gid w in
          elim result [
            | ok success ↦ ((success, none), w)
            | err cause ↦ ((true, some (pre_update_error c cause)), w)
          ]
  ]

  unfoldable pub execute_post_update_command : Context → Text → ℤ → ℤ → W → W
  execute_post_update_command ctx new_container_id uid gid w =
      let (found, w) = client.get_container ctx new_container_id w in
      elim found [
        | err _ ↦ w
        | ok c ↦ elim (get_lifecycle_post_update_command c) [
          | [] ↦ w
          | command ↦ (execute ctx c command (post_update_timeout c) uid gid w).1
        ]
      ]
