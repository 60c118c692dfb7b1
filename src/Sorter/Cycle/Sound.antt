-- ===== src/Sorter/Cycle/Sound.antt =====
-- A path that the search reports is a cycle.
use aether_supervisor.Prelude.{
  Text, Assoc, text_eq, text_eq_iff, true, Option, none, some, List, [], ◌∷◌, ◌++◌, ℕ, zero, suc,
  ◌≡◌, subst, arith, Bool-cases, Option-cases, List-cases, inl, inr, All,
}
use aether_supervisor.Sorter.Graph.{dependents}
use aether_supervisor.Sorter.Cycle.{
  Marks, Search, explore, leave, dfs, find_cycle_path, from_first, close,
}
use aether_supervisor.Sorter.Kahn.Edges.{mem_text, All-of_mem_text}

module _ (adjacency : Assoc (List Text)) where
  -- Each node of the walk is followed by one of its dependents.
  abbrev pub IsWalk : List Text → Type 0
  IsWalk [] = Unit
  IsWalk (x ∷ []) = Unit
  IsWalk (x ∷ y ∷ rest) = (mem_text y (dependents adjacency x) ≡ true) × IsWalk (y ∷ rest)

  -- A walk of at least one step that ends where it starts.
  pub record IsCycle (path : List Text) : Type 0 where
    pub start : Text
    pub middle : List Text
    pub shape : path ≡ start ∷ (middle ++ start ∷ [])
    pub walk : IsWalk path

  IsWalk-tail : (x : Text) (xs : List Text) → IsWalk (x ∷ xs) → IsWalk xs
  IsWalk-tail x [] h = tt
  IsWalk-tail x (y ∷ ys) h = h.1

  pub IsWalk-snoc :
      (xs : List Text) (x y : Text)
      → IsWalk (xs ++ x ∷ [])
      → mem_text y (dependents adjacency x) ≡ true
      → IsWalk ((xs ++ x ∷ []) ++ y ∷ [])
  IsWalk-snoc [] x y h m = (m, tt)
  IsWalk-snoc (z ∷ []) x y h m = (h.0, (m, tt))
  IsWalk-snoc (z ∷ w ∷ xs) x y h m = (h.0, IsWalk-snoc (w ∷ xs) x y h.1 m)

  pub closed-IsCycle :
      (node : Text) (path : List Text) {c : Text} {cs : List Text}
      → IsWalk (path ++ node ∷ [])
      → close node (from_first node path) ≡ c ∷ cs
      → IsCycle (c ∷ cs)
  closed-IsCycle node [] h e = absurd (cc)
  closed-IsCycle node (p ∷ path) {c} {cs} h e = elim (Bool-cases (text_eq p node)) [
    | inl same ↦
        let e' : p ∷ (path ++ node ∷ []) ≡ c ∷ cs = rw same at e in
        let start = (text_eq_iff p node).0 same in
        let cycle : IsCycle (p ∷ (path ++ node ∷ [])) = record {
          start = node;
          middle = path;
          shape = rw start;
          walk = h;
        } in
        subst IsCycle e' cycle
    | inr other ↦ closed-IsCycle node path (IsWalk-tail p _ h) (rw other at e)
  ]

  -- What a search must satisfy: the cycle that it reports is one.
  abbrev Reports : Option (List Text × Marks) → Type 0
  Reports o =
      (c : Text) (cs : List Text) (marks : Marks) → o ≡ some (c ∷ cs, marks) → IsCycle (c ∷ cs)

  impossible : {a : List Text × Marks} → none ≡ some a → ⊥
  impossible e = cc

  nothing_found :
      {c : Text} {cs : List Text} {m ms : Marks}
      → ◌≡◌ {A = Option (List Text × Marks)} (some ([], m)) (some (c ∷ cs, ms))
      → ⊥
  nothing_found e = cc

  impossible_path : {path : List Text} → none ≡ some path → ⊥
  impossible_path e = cc

  same_path :
      {p q : List Text} {ms : Marks}
      → some p ≡ some q
      → ◌≡◌ {A = Option (List Text × Marks)} (some (p, ms)) (some (q, ms))
  same_path e = cc

  leave_inv :
      (node c : Text) (cs : List Text) (ms : Marks) (o : Option (List Text × Marks))
      → leave node o ≡ some (c ∷ cs, ms)
      → o ≡ some (c ∷ cs, ms)
  leave_inv node c cs ms none e = e
  leave_inv node c cs ms (some ([], marks)) e = absurd (cc)
  leave_inv node c cs ms (some (d ∷ ds, marks)) e = e

  explore_sound :
      (search : Search) (path : List Text)
      → (rest : List Text) → All (λ n. (marks : Marks) → Reports (search n path marks)) rest
      → (marks : Marks) → Reports (explore search rest path marks)
  unfolding explore
  explore_sound search path [] h marks c cs ms e = absurd (cc)
  explore_sound search path (n ∷ rest) h marks c cs ms e =
      elim (Option-cases (search n path marks)) [
        | inl nothing ↦ absurd (impossible (rw (nothing, explore) at e))
        | inr ((found, after), answer) ↦ elim (List-cases found) [
          | inl empty ↦
              explore_sound search path rest h.1 after c cs ms (rw (answer, explore, empty) at e)
          | inr (d, ds, cycle) ↦
              h.0 marks c cs ms (rw (answer, cycle) (rw (answer, explore, cycle) at e))
        ]
      ]

  dfs_sound :
      (fuel : ℕ) (node : Text) (path : List Text) (marks : Marks)
      → IsWalk (path ++ node ∷ [])
      → Reports (dfs adjacency fuel node path marks)
  unfolding dfs
  dfs_sound zero node path marks w c cs ms e = absurd (cc)
  dfs_sound (suc fuel) node path marks w c cs ms e =
      elim (Bool-cases (mem_text node marks.visiting)) [
        | inl active ↦
            let closed : close node (from_first node path) ≡ c ∷ cs = ground arith in
            closed-IsCycle node path w closed
        | inr inactive ↦ elim (Bool-cases (mem_text node marks.visited)) [
          | inl done ↦ absurd (nothing_found (rw (inactive, done) at e))
          | inr fresh ↦
              explore_sound (dfs adjacency fuel) (path ++ node ∷ []) (dependents adjacency node)
                (All-of_mem_text
                  (λ n. (marks : Marks) → Reports (dfs adjacency fuel n (path ++ node ∷ []) marks))
                  _
                  (λ n m ms'.
                    dfs_sound fuel n (path ++ node ∷ []) ms' (IsWalk-snoc path node n w m)))
                _ c cs ms (leave_inv node c cs ms _ (rw (inactive, fresh) at e))
        ]
      ]

  -- The path that findCyclePath reports, if it is not empty, is a cycle of the graph.
  pub find_cycle_path_sound :
      (fuel : ℕ) (start c : Text) (cs : List Text)
      → find_cycle_path adjacency fuel start ≡ some (c ∷ cs)
      → IsCycle (c ∷ cs)
  unfolding find_cycle_path
  find_cycle_path_sound fuel start c cs e =
      let fresh : Marks = record { visiting = []; visited = [] } in
      elim (Option-cases (dfs adjacency fuel start [] fresh)) [
        | inl nothing ↦ absurd (impossible_path (rw (nothing, find_cycle_path) at e))
        | inr ((path, ms), answer) ↦
            dfs_sound fuel start [] fresh tt c cs ms
              (rw answer (same_path (rw (answer, find_cycle_path) at e)))
      ]
