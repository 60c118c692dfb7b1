-- ===== src/Services/Environment.antt =====
-- envValues and readEnvFile of internal/actions/services.go. What opening and scanning a file gives
-- is a parameter: nothing where it cannot be opened, else its lines and whether the scan failed.
mod Tests
use aether_supervisor.Prelude.{
  Text, Assoc, lookup, has_prefix, trim_space, sort_by, text_order, codes, map, Bool, true, false,
  ◌||◌, Option, none, some, List, [], ◌∷◌, ◌++◌, if◌then◌else◌, ◌⊎◌, inl, inr,
}
use aether_supervisor.Container.Identifier.{is_empty}
use aether_supervisor.Services.{MappingOrList}

pub data EnvError : Type 0 where
  open_failed : Text → EnvError
  read_failed : Text → EnvError

unfoldable pub env_lines : List Text → List Text
unfolding trim_space
env_lines [] = []
env_lines (l ∷ ls) =
    let line = trim_space l in
    let rest = env_lines ls in
    if is_empty line || has_prefix line (codes "#") then rest else line ∷ rest

unfoldable pub env_entry : Assoc (Option Text) → Text → Text
env_entry mapping key = elim (lookup key mapping) [
  | none ↦ key
  | some val ↦ elim val [ none ↦ key | some v ↦ key ++ codes "=" ++ v ]
]

unfoldable pub environment_values : MappingOrList → List Text
unfolding env_entry
environment_values environment = elim environment.mapping [
  | [] ↦ environment.items
  | (e ∷ es) ↦ map (env_entry (e ∷ es)) (sort_by text_order (λ s. s) (map (λ p. p.0) (e ∷ es)))
]

module _ (scan : Text → Option (List Text × Bool)) where
  unfoldable pub read_env_file : Text → EnvError ⊎ List Text
  unfolding env_lines
  read_env_file path = elim (scan path) [
    | none ↦ inl (open_failed path)
    | some (lines, failed) ↦ if failed then inl (read_failed path) else inr (env_lines lines)
  ]

  -- The first file that fails ends the loop.
  unfoldable pub env_values : List Text → MappingOrList → EnvError ⊎ List Text
  unfolding read_env_file environment_values
  env_values [] environment = inr (environment_values environment)
  env_values (env_file ∷ env_files) environment =
      let rest = env_values env_files environment in
      elim (read_env_file env_file) [
        | inl error ↦ inl error
        | inr file_values ↦ elim rest [
          | inl error ↦ inl error
          | inr values ↦ inr (file_values ++ values)
        ]
      ]
