-- ===== src/Services/Order.antt =====
-- orderedServiceNames of internal/actions/services.go: the order in which services are deployed.
pub mod Spec
pub mod Visit
pub mod Total
mod Tests
use aether_supervisor.Prelude.{
  Text, Assoc, lookup, insert, sort_by, text_order, map, Option, none, some, List, [], ◌∷◌, ◌++◌,
  ◌⊎◌, inl, inr, ℕ, zero, suc, length,
}
use aether_supervisor.Services.{ServiceSpec, service_dependencies}

-- 1 and 2 in the map `visited`
pub data Mark : Type 0 where
  visiting : Mark
  visited : Mark

pub data OrderError : Type 0 where
  circular : Text → OrderError
  unknown : Text → OrderError

pub record Progress : Type 0 where
  pub marks : Assoc Mark
  pub ordered : List Text

-- `none` is a depth that the fuel does not reach.
abbrev pub Outcome : Type 0
Outcome = Option (OrderError ⊎ Progress)

abbrev pub Visitor : Type 0
Visitor = Text → Progress → Outcome

abbrev pub then_visit : Outcome → (Progress → Outcome) → Outcome
then_visit none next = none
then_visit (some (inl error)) next = some (inl error)
then_visit (some (inr p)) next = next p

-- The dependencies that are services, one after the other
unfoldable pub visit_dependencies : Assoc ServiceSpec → Visitor → List Text → Progress → Outcome
visit_dependencies services visit [] p = some (inr p)
visit_dependencies services visit (dep ∷ deps) p = elim (lookup dep services) [
  | none ↦ visit_dependencies services visit deps p
  | some _ ↦ then_visit (visit dep p) (visit_dependencies services visit deps)
]

abbrev pub mark : Text → Progress → Progress
mark name p = record p { marks = insert name visiting p.marks }

abbrev pub place : Text → Progress → Progress
place name p = record { marks = insert name visited p.marks; ordered = p.ordered ++ name ∷ [] }

unfoldable pub visit : Assoc ServiceSpec → ℕ → Visitor
unfolding service_dependencies visit_dependencies
visit services zero name p = none
visit services (suc fuel) name p = elim (lookup name p.marks) [
  | some visiting ↦ some (inl (circular name))
  | some visited ↦ some (inr p)
  | none ↦ elim (lookup name services) [
    | none ↦ some (inl (unknown name))
    | some spec ↦
        then_visit
          (visit_dependencies services (visit services fuel) (service_dependencies spec)
            (mark name p))
          (λ q. some (inr (place name q)))
  ]
]

abbrev pub visit_keys : Visitor → List Text → Progress → Outcome
visit_keys visit [] p = some (inr p)
visit_keys visit (key ∷ keys) p = then_visit (visit key p) (visit_keys visit keys)

abbrev pub service_names : Assoc ServiceSpec → List Text
service_names services = map (λ s. s.0) services

unfoldable pub ordered_service_names : Assoc ServiceSpec → Option (OrderError ⊎ List Text)
unfolding visit
ordered_service_names services =
    let keys = sort_by text_order (λ s. s) (service_names services) in
    let fuel = suc (length services) in
    elim (visit_keys (visit services fuel) keys (record { marks = []; ordered = [] })) [
      | none ↦ none
      | some r ↦ elim r [ inl error ↦ some (inl error) | inr p ↦ some (inr p.ordered) ]
    ]
