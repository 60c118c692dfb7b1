-- ===== src/Services/Order/Visit.antt =====
-- What a visit of a service does to the progress.
use mathlib.Core.List.Memᴰ.{cases_cons, not-nil}
use mathlib.Core.List.Memᴰ
use aether_supervisor.Prelude.{
  Text, Assoc, lookup, insert, lookup-insert, text_eq, text_eq_iff, Option, none, some, List, [],
  ◌∷◌, Memᴰ, ◌⊎◌, inl, inr, ℕ, zero, suc, ◌+◌, ◌<◌, ◌≤◌, ◌≡◌, refl, sym, ap, subst, ◌∙◌, arith,
  true, false, Bool-cases, Option-cases,
}
use aether_supervisor.Services.{ServiceSpec, service_dependencies}
use aether_supervisor.Services.Order.{
  Mark, visiting, visited, circular, unknown, Progress, Outcome, Visitor, then_visit,
  visit_dependencies, mark, place, visit, service_names,
}
use aether_supervisor.Services.Order.Spec.{
  IsService, DependsOn, Reaches, direct, further, IsOrdered, placed,
}

pub lookup-mem :
    (services : Assoc ServiceSpec) (name : Text)
    → IsService services name
    → Memᴰ name (service_names services)
lookup-mem [] name (spec, e) = cc
lookup-mem ((k, s) ∷ services) name (spec, e) = elim (Bool-cases (text_eq k name)) [
  | inl same ↦ Memᴰ.head (sym ((text_eq_iff k name).0 same))
  | inr other ↦ Memᴰ.tail (lookup-mem services name (spec, rw other at e))
]

-- The keys that have no mark
abbrev pub unmarked : Option Mark → ℕ
unmarked none = 1
unmarked (some _) = 0

abbrev pub fresh : Assoc Mark → List Text → ℕ
fresh m [] = 0
fresh m (k ∷ ks) = unmarked (lookup k m) + fresh m ks

-- Marks that are there stay, and a mark that comes is `visited`.
abbrev pub Kept : Assoc Mark → Assoc Mark → Type 0
Kept m m' =
    (k : Text) → (lookup k m' ≡ lookup k m) ⊎ ((lookup k m ≡ none) × (lookup k m' ≡ some visited))

Kept-trans : (a b c : Assoc Mark) → Kept a b → Kept b c → Kept a c
Kept-trans a b c f g k = elim (f k) [
  | inl e ↦ elim (g k) [ inl h ↦ inl (h ∙ e) | inr (h, v) ↦ inr (sym e ∙ h, v) ]
  | inr (e, v) ↦ elim (g k) [ inl h ↦ inr (e, h ∙ v) | inr (h, w) ↦ inr (e, w) ]
]

abbrev pub Grown : Assoc Mark → Assoc Mark → Type 0
Grown m m' = (k : Text) → unmarked (lookup k m') ≤ unmarked (lookup k m)

pub Kept-Grown : (m m' : Assoc Mark) → Kept m m' → Grown m m'
Kept-Grown m m' f k = elim (f k) [
  | inl e ↦ omega (arith, ap unmarked e)
  | inr (e, v) ↦ omega (arith, ap unmarked v)
]

pub fresh-le : (m m' : Assoc Mark) (keys : List Text) → Grown m m' → fresh m' keys ≤ fresh m keys
fresh-le m m' [] g = omega arith
fresh-le m m' (k ∷ ks) g = omega (arith, g k, fresh-le m m' ks g)

Grown-insert : (name : Text) (x : Mark) (m : Assoc Mark) → Grown m (insert name x m)
Grown-insert name x m k = elim (Bool-cases (text_eq name k)) [
  | inl e ↦ rw (lookup-insert name k x m, e) (omega arith)
  | inr e ↦ rw (lookup-insert name k x m, e) (omega arith)
]

lookup-insert_self :
    (name : Text) (x : Mark) (m : Assoc Mark) → lookup name (insert name x m) ≡ some x
lookup-insert_self name x m = rw (lookup-insert name name x m, (text_eq_iff name name).1 refl) refl

fresh-insert-lt :
    (name : Text) (x : Mark) (m : Assoc Mark) (keys : List Text)
    → Memᴰ name keys
    → lookup name m ≡ none
    → fresh (insert name x m) keys < fresh m keys
fresh-insert-lt name x m [] t h = elim t [ ]
fresh-insert-lt name x m (k ∷ ks) (Memᴰ.head e) h =
    let there = ap unmarked (ap (λ j. lookup j m) (sym e) ∙ h) in
    let gone =
      ap unmarked (ap (λ j. lookup j (insert name x m)) (sym e) ∙ lookup-insert_self name x m) in
    omega (arith, there, gone, fresh-le m (insert name x m) ks (Grown-insert name x m))
fresh-insert-lt name x m (k ∷ ks) (Memᴰ.tail t) h =
    omega (arith, Grown-insert name x m k, fresh-insert-lt name x m ks t h)

clash {ℓ} : {A : Type ℓ} → some visiting ≡ some visited → A
clash e = cc

clash' {ℓ} : {A : Type ℓ} → some visited ≡ some visiting → A
clash' e = cc

clash_bool {ℓ} : {A : Type ℓ} → true ≡ false → A
clash_bool e = cc

absent {ℓ} : {A : Type ℓ} {o : Option Mark} {x : Mark} → o ≡ some x → o ≡ none → A
absent e h = cc

some-injective : {a b : ServiceSpec} → some a ≡ some b → a ≡ b
some-injective e = cc

stays :
    (m m' : Assoc Mark)
    → Kept m m'
    → (k : Text) → lookup k m ≡ some visited
    → lookup k m' ≡ some visited
stays m m' f k e = elim (f k) [ inl same ↦ same ∙ e | inr (_, v) ↦ v ]

module _ (services : Assoc ServiceSpec) where
  -- The order is one, and holds exactly the names with the mark `visited`.
  pub record Inv (p : Progress) : Type 0 where
    pub ordered : IsOrdered services p.ordered
    pub placed_in : (k : Text) → lookup k p.marks ≡ some visited → Memᴰ k p.ordered
    pub marked : (k : Text) → Memᴰ k p.ordered → lookup k p.marks ≡ some visited

  -- What is being visited leads to `name`.
  abbrev pub Chain : Progress → Text → Type 0
  Chain p name = (k : Text) → lookup k p.marks ≡ some visiting → Reaches services k name

  abbrev pub Returns : (Progress → Type 0) → Outcome → Type 0
  Returns P none = ⊥
  Returns P (some (inl (circular name))) = Reaches services name name
  Returns P (some (inl (unknown name))) = ⊥
  Returns P (some (inr q)) = P q

  pub then_visit-Returns :
      (P Q : Progress → Type 0) (m : Outcome) (next : Progress → Outcome)
      → Returns P m
      → ((q : Progress) → P q → Returns Q (next q))
      → Returns Q (then_visit m next)
  then_visit-Returns P Q none next h f = absurd h
  then_visit-Returns P Q (some (inl (circular name))) next h f = h
  then_visit-Returns P Q (some (inl (unknown name))) next h f = absurd h
  then_visit-Returns P Q (some (inr q)) next h f = f q h

  pub record Visited (p : Progress) (name : Text) (q : Progress) : Type 0 where
    pub inv : Inv q
    pub kept : Kept p.marks q.marks
    pub at_end : lookup name q.marks ≡ some visited

  pub record AllVisited (p : Progress) (names : List Text) (q : Progress) : Type 0 where
    pub inv : Inv q
    pub kept : Kept p.marks q.marks
    pub at_end : (k : Text) → Memᴰ k names → IsService services k → lookup k q.marks ≡ some visited

  pub Chain-Kept :
      (p q : Progress) (name : Text) → Kept p.marks q.marks → Chain p name → Chain q name
  Chain-Kept p q name f chain k e = elim (f k) [
    | inl same ↦ chain k (sym same ∙ e)
    | inr (_, v) ↦ cc
  ]

  absurd_service {ℓ} :
      {A : Type ℓ} (dep : Text) → lookup dep services ≡ none → IsService services dep → A
  absurd_service dep e (spec, there) = cc

  -- A name that is no service adds nothing.
  skip :
      (p : Progress) (dep : Text) (deps : List Text)
      → lookup dep services ≡ none
      → (m : Outcome) → Returns (AllVisited p deps) m
      → Returns (AllVisited p (dep ∷ deps)) m
  skip p dep deps e none h = absurd h
  skip p dep deps e (some (inl (circular name))) h = h
  skip p dep deps e (some (inl (unknown name))) h = absurd h
  skip p dep deps e (some (inr q)) h = record {
    inv = h.inv;
    kept = h.kept;
    at_end = λ k m s. elim (cases_cons m) [
      | inl same ↦ absurd_service dep e (subst (IsService services) same s)
      | inr later ↦ h.at_end k later s
    ];
  }

  pub join :
      (p : Progress) (dep : Text) (deps : List Text) (q : Progress)
      → Visited p dep q
      → (m : Outcome) → Returns (AllVisited q deps) m
      → Returns (AllVisited p (dep ∷ deps)) m
  join p dep deps q v none h = absurd h
  join p dep deps q v (some (inl (circular name))) h = h
  join p dep deps q v (some (inl (unknown name))) h = absurd h
  join p dep deps q v (some (inr r)) h = record {
    inv = h.inv;
    kept = Kept-trans p.marks q.marks r.marks v.kept h.kept;
    at_end = λ k m s. elim (cases_cons m) [
      | inl same ↦ stays q.marks r.marks h.kept k (ap (λ n. lookup n q.marks) same ∙ v.at_end)
      | inr later ↦ h.at_end k later s
    ];
  }

  module _ (fuel : ℕ) (visitor : Visitor)
      (answers : (name : Text) (p : Progress)
        → fresh p.marks (service_names services) < fuel
        → IsService services name
        → Inv p
        → Chain p name
        → Returns (Visited p name) (visitor name p)) where
    visit_dependencies-Returns :
        (deps : List Text) (p : Progress)
        → fresh p.marks (service_names services) < fuel
        → Inv p
        → ((dep : Text) → Memᴰ dep deps → IsService services dep → Chain p dep)
        → Returns (AllVisited p deps) (visit_dependencies services visitor deps p)
    unfolding visit_dependencies
    visit_dependencies-Returns [] p f inv chain = record {
      inv = inv;
      kept = λ k. inl refl;
      at_end = λ k m. absurd (not-nil m);
    }
    visit_dependencies-Returns (dep ∷ deps) p f inv chain =
        elim (Option-cases (lookup dep services)) [
          | inl none_there ↦
              rw (none_there, visit_dependencies)
                (skip p dep deps none_there (visit_dependencies services visitor deps p)
                  (visit_dependencies-Returns deps p f inv (λ d m. chain d (Memᴰ.tail m))))
          | inr (spec, there) ↦
              rw (there, visit_dependencies)
                (then_visit-Returns (Visited p dep) (AllVisited p (dep ∷ deps)) (visitor dep p)
                  (visit_dependencies services visitor deps)
                  (answers dep p f (spec, there) inv (chain dep (Memᴰ.head refl) (spec, there)))
                  (λ q v. join p dep deps q v (visit_dependencies services visitor deps q) (
                    visit_dependencies-Returns deps q
                      (omega (
                        arith,
                        fresh-le p.marks q.marks (service_names services) (Kept-Grown _ _ v.kept),
                      ))
                      v.inv (λ d m s. Chain-Kept p q d v.kept (chain d (Memᴰ.tail m) s)))))
        ]

  mark-Inv : (name : Text) (p : Progress) → lookup name p.marks ≡ none → Inv p → Inv (mark name p)
  mark-Inv name p e inv = record {
    ordered = inv.ordered;
    placed_in = λ k h. elim (Bool-cases (text_eq name k)) [
      | inl same ↦ clash (rw (lookup-insert name k visiting p.marks, same) at h)
      | inr other ↦ inv.placed_in k (rw (lookup-insert name k visiting p.marks, other) at h)
    ];
    marked = λ k m. elim (Bool-cases (text_eq name k)) [
      | inl same ↦
          absent (inv.marked k m)
            (ap (λ j. lookup j p.marks) (sym ((text_eq_iff name k).0 same)) ∙ e)
      | inr other ↦ rw (lookup-insert name k visiting p.marks, other) (inv.marked k m)
    ];
  }

  mark-Chain :
      (name dep : Text) (p : Progress)
      → DependsOn services name dep
      → Chain p name
      → Chain (mark name p) dep
  mark-Chain name dep p d chain k h = elim (Bool-cases (text_eq name k)) [
    | inl same ↦ subst (λ j. Reaches services j dep) ((text_eq_iff name k).0 same) (direct d)
    | inr other ↦ further (chain k (rw (lookup-insert name k visiting p.marks, other) at h)) d
  ]

  place-Kept :
      (name : Text) (p q : Progress)
      → lookup name p.marks ≡ none
      → Kept (mark name p).marks q.marks
      → Kept p.marks (place name q).marks
  place-Kept name p q e kept k = elim (Bool-cases (text_eq name k)) [
    | inl same ↦ inr (
      ap (λ j. lookup j p.marks) (sym ((text_eq_iff name k).0 same)) ∙ e,
      rw (lookup-insert name k visited q.marks, same) refl,
    )
    | inr other ↦
        let before : lookup k (mark name p).marks ≡ lookup k p.marks =
          rw (lookup-insert name k visiting p.marks, other) refl in
        let after : lookup k (place name q).marks ≡ lookup k q.marks =
          rw (lookup-insert name k visited q.marks, other) refl in
        elim (kept k) [
          | inl h ↦ inl (after ∙ h ∙ before)
          | inr (h, v) ↦ inr (sym before ∙ h, after ∙ v)
        ]
  ]

  place-Inv :
      (name : Text) (spec : ServiceSpec) (p q : Progress)
      → lookup name p.marks ≡ none
      → lookup name services ≡ some spec
      → AllVisited (mark name p) (service_dependencies spec) q
      → Inv (place name q)
  place-Inv name spec p q e there h = record {
    ordered =
        placed name h.inv.ordered (spec, there) (λ m. pending_still (h.inv.marked name m))
          (λ dep d. h.inv.placed_in dep (
            h.at_end dep
              (subst (λ s. Memᴰ dep (service_dependencies s)) (some-injective (sym d.found ∙ there))
                d.named)
              d.known));
    placed_in = λ k m. elim (Bool-cases (text_eq name k)) [
      | inl same ↦ Memᴰ.append_right q.ordered (Memᴰ.head (sym ((text_eq_iff name k).0 same)))
      | inr other ↦
          Memᴰ.append_left (name ∷ [])
            (h.inv.placed_in k (rw (lookup-insert name k visited q.marks, other) at m))
    ];
    marked = λ k m. elim (Bool-cases (text_eq name k)) [
      | inl same ↦ rw (lookup-insert name k visited q.marks, same) refl
      | inr other ↦
          rw (lookup-insert name k visited q.marks, other)
            (elim (Memᴰ.append_cases q.ordered m) [
              | inl old ↦ h.inv.marked k old
              | inr new ↦ elim (cases_cons new) [
                | inl same ↦ clash_bool (sym ((text_eq_iff name k).1 (sym same)) ∙ other)
                | inr none_left ↦ absurd (not-nil none_left)
              ]
            ])
    ];
  }
    where
      pending_still : lookup name q.marks ≡ some visited → ⊥
      pending_still v = elim (h.kept name) [
        | inl same ↦ clash' (sym v ∙ same ∙ lookup-insert_self name visiting p.marks)
        | inr (gone, _) ↦ absent (lookup-insert_self name visiting p.marks) gone
      ]

  -- A visit of a service ends, and its name is placed behind its dependencies, or it finds a service
  -- that reaches itself.
  pub visit-Returns :
      (fuel : ℕ) (name : Text) (p : Progress)
      → fresh p.marks (service_names services) < fuel
      → IsService services name
      → Inv p
      → Chain p name
      → Returns (Visited p name) (visit services fuel name p)
  unfolding visit
  visit-Returns zero name p f s inv chain = absurd (omega arith)
  visit-Returns (suc fuel) name p f (spec, there) inv chain =
      elim (Option-cases (lookup name p.marks)) [
        | inl e ↦
            rw (e, visit, there)
              (then_visit-Returns (AllVisited (mark name p) (service_dependencies spec))
                (Visited p name)
                (visit_dependencies services (visit services fuel) (service_dependencies spec)
                  (mark name p))
                (λ q. some (inr (place name q)))
                (visit_dependencies-Returns fuel (visit services fuel) (visit-Returns fuel)
                  (service_dependencies spec) (mark name p)
                  (omega (
                    arith,
                    fresh-insert-lt name visiting p.marks (service_names services)
                        (lookup-mem services name (spec, there)) e,
                  ))
                  (mark-Inv name p e inv)
                  (λ dep m known.
                    mark-Chain name dep p
                      (record { spec = spec; found = there; named = m; known = known }) chain))
                (λ q h. record {
                  inv = place-Inv name spec p q e there h;
                  kept = place-Kept name p q e h.kept;
                  at_end = lookup-insert_self name visited q.marks;
                }))
        | inr (visiting, e) ↦ rw (e, visit) (chain name e)
        | inr (visited, e) ↦ rw (e, visit) (record { inv = inv; kept = λ k. inl refl; at_end = e })
      ]
