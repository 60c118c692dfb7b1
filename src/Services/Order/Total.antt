-- ===== src/Services/Order/Total.antt =====
-- The order is complete, and it fails exactly if there is a circle of dependencies.
use mathlib.Core.List.Memᴰ.{cases_cons, not-nil}
use mathlib.Core.List.Memᴰ
use mathlib.Core.List.Permᴰ
use aether_supervisor.Prelude.{
  Text, Assoc, lookup, text_eq, text_eq_iff, text_order, Option, none, some, List, [], ◌∷◌, Memᴰ,
  Permᴰ, ◌⊎◌, inl, inr, ℕ, suc, ◌<◌, ◌≤◌, ◌≡◌, refl, sym, subst, ◌∙◌, arith, length, Bool-cases,
  sort_by, sort_by-perm, Permᴰ-mem, true, false,
}
use aether_supervisor.Services.{ServiceSpec}
use aether_supervisor.Services.Order.{
  Mark, visiting, visited, OrderError, circular, unknown, Progress, Outcome, visit, visit_keys,
  service_names, ordered_service_names,
}
use aether_supervisor.Services.Order.Spec.{
  IsService, DependsOn, Reaches, direct, further, IsOrdered, nothing, placed,
}
use aether_supervisor.Services.Order.Visit.{
  lookup-mem, fresh, fresh-le, Kept-Grown, Inv, Returns, then_visit-Returns, Visited, AllVisited,
  join, visit-Returns, unmarked,
}

absurd_bool {ℓ} : {A : Type ℓ} → true ≡ false → A
absurd_bool e = cc

clash {ℓ} : {A : Type ℓ} → some visited ≡ some visiting → A
clash e = cc

nothing_marked {ℓ} : {A : Type ℓ} {x : Mark} → none ≡ some x → A
nothing_marked e = cc

unmarked_le : (o : Option Mark) → unmarked o ≤ 1
unmarked_le none = omega arith
unmarked_le (some x) = omega arith

mem-lookup :
    (services : Assoc ServiceSpec) (name : Text)
    → Memᴰ name (service_names services)
    → IsService services name
mem-lookup [] name m = absurd (not-nil m)
mem-lookup ((k, s) ∷ services) name m = elim (Bool-cases (text_eq k name)) [
  | inl same ↦ (s, rw same refl)
  | inr other ↦ elim (cases_cons m) [
    | inl e ↦ absurd_bool (sym ((text_eq_iff k name).1 (sym e)) ∙ other)
    | inr later ↦ let (spec, h) = mem-lookup services name later in (spec, rw other h)
  ]
]

fresh-le-length :
    (m : Assoc Mark) (services : Assoc ServiceSpec)
    → fresh m (service_names services) ≤ length services
fresh-le-length m [] = omega arith
fresh-le-length m ((k, s) ∷ services) =
    omega (arith, unmarked_le (lookup k m), fresh-le-length m services)

module _ (services : Assoc ServiceSpec) where
  mem_of_dependency :
      {a b : Text} (names : List Text)
      → IsOrdered services names
      → Memᴰ a names
      → DependsOn services a b
      → Memᴰ b names
  mem_of_dependency _ nothing m d = absurd (not-nil m)
  mem_of_dependency {a} {b} _ (placed {names} name o known absent closed) m d =
      elim (Memᴰ.append_cases names m) [
        | inl old ↦ Memᴰ.append_left (name ∷ []) (mem_of_dependency names o old d)
        | inr new ↦ elim (cases_cons new) [
          | inl e ↦
              Memᴰ.append_left (name ∷ []) (closed b (subst (λ x. DependsOn services x b) e d))
          | inr none_left ↦ absurd (not-nil none_left)
        ]
      ]

  mem_of_Reaches :
      {a b : Text} (names : List Text)
      → IsOrdered services names
      → ((dep : Text) → DependsOn services a dep → Memᴰ dep names)
      → Reaches services a b
      → Memᴰ b names
  mem_of_Reaches names o closed (direct d) = closed _ d
  mem_of_Reaches names o closed (further r d) =
      mem_of_dependency names o (mem_of_Reaches names o closed r) d

  -- No service of an order reaches itself.
  acyclic :
      {a : Text} (names : List Text)
      → IsOrdered services names
      → Memᴰ a names
      → Reaches services a a
      → ⊥
  acyclic _ nothing m r = not-nil m
  acyclic {a} _ (placed {names} name o known absent closed) m r = elim (Memᴰ.append_cases names m) [
    | inl old ↦ acyclic names o old r
    | inr new ↦ elim (cases_cons new) [
      | inl e ↦ absent (mem_of_Reaches names o closed (subst (λ x. Reaches services x x) e r))
      | inr none_left ↦ not-nil none_left
    ]
  ]

  start_IsService : {a b : Text} → Reaches services a b → IsService services a
  start_IsService (direct d) = (d.spec, d.found)
  start_IsService (further r d) = start_IsService r

  -- An order of all services, without a circle; or a service that reaches itself.
  abbrev pub IsAnswer : Option (OrderError ⊎ List Text) → Type 0
  IsAnswer none = ⊥
  IsAnswer (some (inl (circular name))) = Reaches services name name
  IsAnswer (some (inl (unknown name))) = ⊥
  IsAnswer (some (inr names)) =
      IsOrdered services names
      × ((name : Text) → IsService services name → Memᴰ name names)
      × ((name : Text) → Reaches services name name → ⊥)

  abbrev NoneVisiting : Progress → Type 0
  NoneVisiting p = (k : Text) → lookup k p.marks ≡ some visiting → ⊥

  visit_keys-Returns :
      (fuel : ℕ) (keys : List Text) (p : Progress)
      → fresh p.marks (service_names services) < fuel
      → Inv services p
      → NoneVisiting p
      → ((k : Text) → Memᴰ k keys → IsService services k)
      → Returns services (AllVisited services p keys) (visit_keys (visit services fuel) keys p)
  visit_keys-Returns fuel [] p f inv quiet known = record {
    inv = inv;
    kept = λ k. inl refl;
    at_end = λ k m. absurd (not-nil m);
  }
  visit_keys-Returns fuel (key ∷ keys) p f inv quiet known =
      then_visit-Returns services (Visited services p key) (AllVisited services p (key ∷ keys))
        (visit services fuel key p) (visit_keys (visit services fuel) keys)
        (visit-Returns services fuel key p f (known key (Memᴰ.head refl)) inv
          (λ k e. absurd (quiet k e)))
        (λ q v. join services p key keys q v (visit_keys (visit services fuel) keys q) (
          visit_keys-Returns fuel keys q
            (omega
              (arith, fresh-le p.marks q.marks (service_names services) (Kept-Grown _ _ v.kept)))
            v.inv
            (λ k e. elim (v.kept k) [
              | inl same ↦ quiet k (sym same ∙ e)
              | inr (_, done) ↦ clash (sym done ∙ e)
            ])
            (λ k m. known k (Memᴰ.tail m))))

  abbrev names_of : Outcome → Option (OrderError ⊎ List Text)
  names_of o = elim o [
    | none ↦ none
    | some r ↦ elim r [ inl error ↦ some (inl error) | inr p ↦ some (inr p.ordered) ]
  ]

  answer :
      (p : Progress) (keys : List Text) (o : Outcome)
      → ((k : Text) → IsService services k → Memᴰ k keys)
      → Returns services (AllVisited services p keys) o
      → IsAnswer (names_of o)
  answer p keys none all h = absurd h
  answer p keys (some (inl (circular name))) all h = h
  answer p keys (some (inl (unknown name))) all h = absurd h
  answer p keys (some (inr q)) all h =
      let complete = λ (name : Text) (s : IsService services name).
        h.inv.placed_in name (h.at_end name (all name s) s) in
      (
        h.inv.ordered,
        complete,
        λ name r. acyclic q.ordered h.inv.ordered (complete name (start_IsService r)) r,
      )

-- Whatever the services are, the search ends. Its result is an order in which each service stands
-- once and behind the services that it depends on, and then no service reaches itself; or it is the
-- error that names a service that reaches itself. It is never the error of an unknown service.
pub ordered_service_names_lem :
    (services : Assoc ServiceSpec) → IsAnswer services (ordered_service_names services)
unfolding ordered_service_names
ordered_service_names_lem services =
    let keys = sort_by text_order (λ s. s) (service_names services) in
    let same : Permᴰ keys (service_names services) =
      sort_by-perm text_order (λ s. s) (service_names services) in
    let empty : Progress = record { marks = []; ordered = [] } in
    answer services empty keys (visit_keys (visit services (suc (length services))) keys empty)
      (λ k s. Permᴰ-mem (Permᴰ.symm same) (lookup-mem services k s))
      (visit_keys-Returns services (suc (length services)) keys empty
        (omega (arith, fresh-le-length [] services))
        (record {
          ordered = nothing;
          placed_in = λ k e. nothing_marked e;
          marked = λ k m. absurd (not-nil m);
        })
        (λ k e. nothing_marked e) (λ k m. mem-lookup services k (Permᴰ-mem same m)))
