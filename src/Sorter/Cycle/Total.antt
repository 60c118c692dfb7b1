-- ===== src/Sorter/Cycle/Total.antt =====
-- The search for a cycle is never deeper than there are nodes.
use aether_supervisor.Prelude.{
  Text, Assoc, text_eq, text_eq_refl, keep-append, not, true, false, Option, some, List, [], ◌∷◌,
  ◌++◌, append-nil, ℕ, zero, suc, ◌+◌, ◌<◌, ◌≡◌, refl, ap, subst, ◌∙◌, arith, length, length-append,
  All, All-append, Bool-cases, List-cases, inl, inr,
}
use aether_supervisor.Sorter.Graph.{dependents}
use aether_supervisor.Sorter.Cycle.{Marks, Search, explore, leave, dfs, find_cycle_path, unmark}
use aether_supervisor.Sorter.Kahn.Edges.{
  mem_text, DistinctNames, DistinctNames-snoc, length_le_of_subset,
}

-- A result that is there, and that leaves the visiting nodes as they were if it is no cycle.
abbrev Answers : List Text → Option (List Text × Marks) → Type 0
Answers visiting o =
    (found : List Text) × (marks : Marks) × (o ≡ some (found, marks))
    × (found ≡ [] → marks.visiting ≡ visiting)

unmark-absent : (node : Text) (xs : List Text) → mem_text node xs ≡ false → unmark node xs ≡ xs
unmark-absent node [] h = refl
unmark-absent node (x ∷ xs) h = ground (arith, unmark-absent node xs)

unmark-snoc :
    (node : Text) (xs : List Text) → mem_text node xs ≡ false → unmark node (xs ++ node ∷ []) ≡ xs
unmark-snoc node xs h = ground (
  arith,
  keep-append (λ k. not (text_eq node k)) xs (node ∷ []),
  unmark-absent node xs h,
  text_eq_refl node,
  append-nil xs,
)

module _ (nodes : List Text) (visiting : List Text) (search : Search)
    (answers : (node : Text) (path : List Text) (marks : Marks)
      → mem_text node nodes ≡ true
      → marks.visiting ≡ visiting
      → Answers visiting (search node path marks)) where
  explore_total :
      (rest path : List Text) (marks : Marks)
      → All (λ k. mem_text k nodes ≡ true) rest
      → marks.visiting ≡ visiting
      → Answers visiting (explore search rest path marks)
  unfolding explore
  explore_total [] path marks h e = ([], marks, refl, λ _. e)
  explore_total (node ∷ rest) path marks h e =
      let (found, marks', r, kept) = answers node path marks h.0 e in
      elim (List-cases found) [
        | inl none_found ↦
            rw (r, explore, none_found) (explore_total rest path marks' h.1 (kept none_found))
        | inr (c, cs, cycle) ↦ (c ∷ cs, marks', rw (r, explore, cycle), λ absurdity. cc)
      ]

module _ (adjacency : Assoc (List Text)) (nodes : List Text)
    (closed : (k : Text) → All (λ d. mem_text d nodes ≡ true) (dependents adjacency k)) where
  leave_found :
      (node : Text) (visiting found : List Text) (marks : Marks)
      → mem_text node visiting ≡ false
      → (found ≡ [] → marks.visiting ≡ visiting ++ node ∷ [])
      → Answers visiting (leave node (some (found, marks)))
  leave_found node visiting [] marks h kept =
      ([], _, refl, λ _. ap (unmark node) (kept refl) ∙ unmark-snoc node visiting h)
  leave_found node visiting (c ∷ cs) marks h kept = (c ∷ cs, marks, refl, λ e. cc)

  leave_total :
      (node : Text) (visiting : List Text) (o : Option (List Text × Marks))
      → mem_text node visiting ≡ false
      → Answers (visiting ++ node ∷ []) o
      → Answers visiting (leave node o)
  leave_total node visiting o h (found, marks, r, kept) =
      rw r (leave_found node visiting found marks h kept)

  dfs_total :
      (fuel : ℕ) (node : Text) (path : List Text) (marks : Marks)
      → mem_text node nodes ≡ true
      → length nodes < fuel + length marks.visiting
      → DistinctNames marks.visiting
      → All (λ k. mem_text k nodes ≡ true) marks.visiting
      → Answers marks.visiting (dfs adjacency fuel node path marks)
  unfolding dfs
  dfs_total zero node path marks m f d k =
      absurd (omega (arith, length_le_of_subset marks.visiting nodes d k))
  dfs_total (suc fuel) node path marks m f d k = elim (Bool-cases (mem_text node marks.visiting)) [
    | inl active ↦ rw active (_, marks, refl, λ _. refl)
    | inr inactive ↦ elim (Bool-cases (mem_text node marks.visited)) [
      | inl done ↦ rw (inactive, done) ([], marks, refl, λ _. refl)
      | inr fresh ↦
          let visiting = marks.visiting ++ node ∷ [] in
          let inner : (n : Text) (p : List Text) (ms : Marks)
              → mem_text n nodes ≡ true
              → ms.visiting ≡ visiting
              → Answers visiting (dfs adjacency fuel n p ms) =
            λ n p ms known e.
              subst (λ v. Answers v (dfs adjacency fuel n p ms)) e
                (dfs_total fuel n p ms known
                  (rw e (omega (arith, length-append marks.visiting (node ∷ []))))
                  (rw e (DistinctNames-snoc marks.visiting node d inactive))
                  (rw e (
                    All-append (λ j. mem_text j nodes ≡ true) marks.visiting (node ∷ []) k
                      (m, tt)))) in
          rw (inactive, fresh)
            (leave_total node marks.visiting _ inactive (
              explore_total nodes visiting (dfs adjacency fuel) inner (dependents adjacency node)
                (path ++ node ∷ []) (record marks { visiting = visiting }) (closed node) refl))
    ]
  ]

  -- With fuel for one level more than there are nodes the search answers.
  pub find_cycle_path_total :
      (start : Text)
      → mem_text start nodes ≡ true
      → (path : List Text) × (find_cycle_path adjacency (suc (length nodes)) start ≡ some path)
  unfolding find_cycle_path
  find_cycle_path_total start m =
      let (path, marks, e, _) =
        dfs_total (suc (length nodes)) start [] (record { visiting = []; visited = [] }) m
          (omega arith) tt tt in
      (path, rw (e, find_cycle_path))
