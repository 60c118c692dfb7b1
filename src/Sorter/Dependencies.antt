-- ===== src/Sorter/Dependencies.antt =====
-- What sortByDependencies guarantees.
use aether_supervisor.Prelude.{
  Text, true, Option, some, List, [], ◌∷◌, ◌++◌, Permᴰ, text_eq_iff, ◌≡◌, ◌≢◌, ◌⊎◌, inl, inr, ap,
  ◌∙◌, arith, length, All,
}
use aether_supervisor.Container.Data.{Container}
use aether_supervisor.Sorter.Graph.{
  identifier, Result, ok, err, SortError, identifier_collision, circular_reference,
  build_dependency_graph, container_map, group_all,
}
use aether_supervisor.Sorter.Queue.{containers_of}
use aether_supervisor.Sorter.Sort.{sort_by_dependencies}
use aether_supervisor.Sorter.Kahn.Edges.{
  Edges, mem_text, Ordered, DistinctNames, All-of_mem_text, All-mem_text, waits_mono,
  mem_text-append, length_le_of_subset,
}
use aether_supervisor.Sorter.Kahn.Invariant.{Final}
use aether_supervisor.Sorter.Kahn.Groups.{identifiers, by_identifier, container_map_lem}
use aether_supervisor.Sorter.Kahn.Lookup.{
  identifiers-containers_of, perm_of_subset, containers_of_order,
}
use aether_supervisor.Sorter.Kahn.Start.{mem_text-perm}
use aether_supervisor.Sorter.Kahn.Correct.{dependency_edges, built}
use aether_supervisor.Sorter.Cycle.Sound.{IsCycle}
use aether_supervisor.Sorter.Kahn.Outcome.{
  IsReport, length-identifiers, report_lem, sort_by_dependencies_lem,
}

abbrev pub Answer : Type 0
Answer = Option (Result (List Container))

ok_ne_err :
    {sorted : List Container} {e : SortError} {r : Answer}
    → r ≡ some (ok sorted)
    → r ≡ some (err e)
    → ⊥
ok_ne_err f g = cc

ok_injective : {xs ys : List Container} {r : Answer} → r ≡ some (ok xs) → r ≡ some (ok ys) → xs ≡ ys
ok_injective f g = cc

identifiers-perm : {xs ys : List Container} → Permᴰ xs ys → Permᴰ (identifiers xs) (identifiers ys)
identifiers-perm Permᴰ.nil = Permᴰ.nil
identifiers-perm (Permᴰ.cons e p) = Permᴰ.cons (ap identifier e) (identifiers-perm p)
identifiers-perm (Permᴰ.swap e f) = Permᴰ.swap (ap identifier e) (ap identifier f)
identifiers-perm (Permᴰ.trans p q) = Permᴰ.trans (identifiers-perm p) (identifiers-perm q)

-- A list that respects the edges is part of every order that the loop can end with.
reached :
    (edges : Edges) (nodes order : List Text)
    → Final edges nodes order
    → (seen ys : List Text) → ((k : Text) → mem_text k seen ≡ true → mem_text k order ≡ true)
    → All (λ k. mem_text k nodes ≡ true) ys
    → Ordered edges seen ys
    → All (λ k. mem_text k order ≡ true) ys
reached edges nodes order f seen [] h n o = tt
reached edges nodes order f seen (y ∷ ys) h n o =
    let here : mem_text y order ≡ true =
      f.complete y n.0 (omega (arith, waits_mono edges seen order y h, o.0)) in
    (
      here,
      reached edges nodes order f (seen ++ y ∷ []) ys
          (λ k m. ground (arith, mem_text-append k seen (y ∷ []), h k, text_eq_iff k y)) n.1 o.1,
    )

module _ (links : Container → List Text) (cs : List Container) where
  -- What each kind of result says of the containers.
  abbrev pub IsOutcome : Result (List Container) → Type 0
  IsOutcome (ok sorted) = DistinctNames (identifiers cs)
  IsOutcome (err (identifier_collision k affected)) = ¬ DistinctNames (identifiers cs)
  IsOutcome (err (circular_reference first path)) =
      DistinctNames (identifiers cs) × ((path ≡ []) ⊎ IsCycle (built links cs).adjacency path)

  distinct_report :
      DistinctNames (identifiers cs) → (e : SortError) → IsReport links cs e → IsOutcome (err e)
  distinct_report distinct (identifier_collision k affected) report = absurd report
  distinct_report distinct (circular_reference first path) report = (distinct, report)

  -- Containers whose identifiers collide are refused.
  collides :
      ¬ DistinctNames (identifiers cs)
      → (k : Text) × (affected : List Container) × (sort_by_dependencies links cs
          ≡ some (err (identifier_collision k affected)))
  unfolding sort_by_dependencies build_dependency_graph container_map group_all
  collides clash = elim (container_map_lem cs) [
    | inl (distinct, _) ↦ absurd (clash distinct)
    | inr (_, (k, affected, e)) ↦
        (k, affected, rw (e, build_dependency_graph, sort_by_dependencies))
  ]

  distinct_or : DistinctNames (identifiers cs) ⊎ (¬ DistinctNames (identifiers cs))
  distinct_or = elim (container_map_lem cs) [ inl (d, _) ↦ inl d | inr (d, _) ↦ inr d ]

  -- The two results for containers with distinct identifiers, each with the order of the loop.
  outcome :
      DistinctNames (identifiers cs)
      → (order : List Text) × Final (dependency_edges links cs) (identifiers cs) order
        × (((length order ≡ length cs)
              × (sort_by_dependencies links cs
                  ≡ some (ok (containers_of (by_identifier cs) order))))
            ⊎ ((length order ≢ length cs)
                × ((e : SortError) × (sort_by_dependencies links cs ≡ some (err e))
                    × IsReport links cs e)))
  outcome distinct =
      let (order, call, final) = sort_by_dependencies_lem links cs distinct in
      (order, final, rw (← call) at (report_lem links cs distinct order final))

  full_order :
      (order : List Text)
      → Final (dependency_edges links cs) (identifiers cs) order
      → length order ≡ length cs
      → DistinctNames (identifiers cs)
      → Permᴰ (containers_of (by_identifier cs) order) cs
        × Ordered
            (dependency_edges links cs)
            []
            (identifiers (containers_of (by_identifier cs) order))
  full_order order final full distinct = (
    containers_of_order cs order distinct (
        perm_of_subset order (identifiers cs) final.distinct
          (All-of_mem_text (λ k. mem_text k (identifiers cs) ≡ true) order final.nodes_only)
          (omega (arith, length-identifiers cs))),
    rw (identifiers-containers_of cs order final.nodes_only) final.ordered,
  )

  -- A result has the containers of the input, rearranged so that each stands behind all that its
  -- links lead to.
  pub sort_by_dependencies_sound :
      (sorted : List Container)
      → sort_by_dependencies links cs ≡ some (ok sorted)
      → Permᴰ sorted cs × Ordered (dependency_edges links cs) [] (identifiers sorted)
  sort_by_dependencies_sound sorted e = elim distinct_or [
    | inr clash ↦ let (k, affected, f) = collides clash in absurd (ok_ne_err e f)
    | inl distinct ↦
        let (order, final, result) = outcome distinct in
        elim result [
          | inl (full, f) ↦ rw (← ok_injective f e) (full_order order final full distinct)
          | inr (_, (error, f, _)) ↦ absurd (ok_ne_err e f)
        ]
  ]

  mem_text-identifiers :
      (xs : List Container)
      → Permᴰ xs cs
      → (k : Text) → mem_text k (identifiers xs) ≡ mem_text k (identifiers cs)
  mem_text-identifiers xs p k = mem_text-perm k (identifiers-perm p)

  -- An order of the loop misses no container if any arrangement respects the dependencies.
  full :
      (order : List Text)
      → DistinctNames (identifiers cs)
      → Final (dependency_edges links cs) (identifiers cs) order
      → (arranged : List Container) → Permᴰ arranged cs
      → Ordered (dependency_edges links cs) [] (identifiers arranged)
      → length order ≡ length cs
  full order distinct final arranged p o =
      let same = mem_text-identifiers arranged p in
      let found : All (λ k. mem_text k order ≡ true) (identifiers arranged) =
        reached _ (identifiers cs) order final [] (identifiers arranged) (λ k m. absurd (cc))
          (All-of_mem_text (λ k. mem_text k (identifiers cs) ≡ true) _
            (λ k m. ground (arith, same k)))
          o in
      let most : All (λ k. mem_text k order ≡ true) (identifiers cs) =
        All-of_mem_text (λ k. mem_text k order ≡ true) (identifiers cs)
          (λ k m.
            All-mem_text (λ j. mem_text j order ≡ true) (identifiers arranged) k found
              (same k ∙ m)) in
      omega (
        arith,
        length-identifiers cs,
        length_le_of_subset (identifiers cs) order distinct most,
        length_le_of_subset order (identifiers cs) final.distinct
            (All-of_mem_text (λ k. mem_text k (identifiers cs) ≡ true) order final.nodes_only),
      )

  -- If the identifiers are distinct and some arrangement of the containers respects their
  -- dependencies, the call returns one.
  pub sort_by_dependencies_complete :
      DistinctNames (identifiers cs)
      → (arranged : List Container) → Permᴰ arranged cs
      → Ordered (dependency_edges links cs) [] (identifiers arranged)
      → (sorted : List Container) × (sort_by_dependencies links cs ≡ some (ok sorted))
  sort_by_dependencies_complete distinct arranged p o =
      let (order, final, result) = outcome distinct in
      elim result [
        | inl (_, f) ↦ (containers_of (by_identifier cs) order, f)
        | inr (short, _) ↦ absurd (short (full order distinct final arranged p o))
      ]

  -- The call ends, whatever the containers and their links: with a result, with a collision of
  -- identifiers exactly if two are the same, or with a report whose path, if there is one, is a
  -- cycle of the graph.
  pub sort_by_dependencies_total :
      (result : Result (List Container)) × (sort_by_dependencies links cs ≡ some result)
      × IsOutcome result
  sort_by_dependencies_total = elim distinct_or [
    | inr clash ↦
        let (k, affected, e) = collides clash in (err (identifier_collision k affected), e, clash)
    | inl distinct ↦
        let (order, final, result) = outcome distinct in
        elim result [
          | inl (_, e) ↦ (ok _, e, distinct)
          | inr (_, (error, e, report)) ↦ (err error, e, distinct_report distinct error report)
        ]
  ]
