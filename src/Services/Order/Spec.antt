-- ===== src/Services/Order/Spec.antt =====
-- What an order of services is, and what a circle of dependencies is.
use aether_supervisor.Prelude.{Text, Assoc, lookup, some, List, [], ◌∷◌, ◌++◌, Memᴰ, ◌≡◌}
use aether_supervisor.Services.{ServiceSpec, service_dependencies}

module _ (services : Assoc ServiceSpec) where
  abbrev pub IsService : Text → Type 0
  IsService name = (spec : ServiceSpec) × (lookup name services ≡ some spec)

  -- The service `name` names the service `dep` as a dependency.
  pub record DependsOn (name dep : Text) : Type 0 where
    pub spec : ServiceSpec
    pub found : lookup name services ≡ some spec
    pub named : Memᴰ dep (service_dependencies spec)
    pub known : IsService dep

  -- Through one dependency or more
  pub data Reaches : Text → Text → Type 0 where
    direct : {a b : Text} → DependsOn a b → Reaches a b
    further : {a b c : Text} → Reaches a b → DependsOn b c → Reaches a c

  -- Each name is that of a service, stands once, and behind all the services that it depends on.
  pub data IsOrdered : List Text → Type 0 where
    nothing : IsOrdered []
    placed :
        {names : List Text} (name : Text)
        → IsOrdered names
        → IsService name
        → (Memᴰ name names → ⊥)
        → ((dep : Text) → DependsOn name dep → Memᴰ dep names)
        → IsOrdered (names ++ name ∷ [])
