-- ===== src/Services/Environment/Tests.antt =====
-- A file with a comment, before a mapping in the order of its keys, and a file that is missing.
use aether_supervisor.Prelude.{codes, false, none, some, inl, inr, [], ◌∷◌, ◌≡◌, refl, trim_space}
use aether_supervisor.Services.{MappingOrList}
use aether_supervisor.Services.Environment.{EnvError, env_values}

abbrev environment : MappingOrList
environment = record {
  mapping = (codes "B", some (codes "2")) ∷ (codes "A", none) ∷ [];
  items = [];
}

ordered :
    env_values
      (λ _. some (codes "# c" ∷ codes " X=1 " ∷ codes "" ∷ [], false))
      (codes ".env" ∷ [])
      environment
    ≡ inr (codes "X=1" ∷ codes "A" ∷ codes "B=2" ∷ [])
unfolding env_values trim_space
ordered = refl

missing :
    env_values (λ _. none) (codes ".env" ∷ []) environment
    ≡ inl (EnvError.open_failed (codes ".env"))
unfolding env_values
missing = refl
