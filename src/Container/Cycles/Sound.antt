-- ===== src/Container/Cycles/Sound.antt =====
-- The search marks only nodes that are on a cycle, and is never deeper than there are nodes.
use aether_supervisor.Prelude.{
  Text, Assoc, text_eq, text_eq_iff, lookup-insert, insert, true, false, Option, some, List, [],
  ◌∷◌, ◌++◌, if◌then◌else◌, ◌==◌, ℕ, zero, suc, ◌+◌, ◌<◌, ◌≡◌, refl, ap, ◌∙◌, arith, length,
  length-append, All, All-append, Bool-cases, List-cases, inl, inr,
}
use aether_supervisor.Sorter.Graph.{degree, dependents, keys, zero_degrees}
use aether_supervisor.Sorter.Cycle.{from_first}
use aether_supervisor.Sorter.Cycle.Sound.{IsWalk, IsCycle, IsWalk-snoc, closed-IsCycle}
use aether_supervisor.Sorter.Kahn.Edges.{
  mem_text, mem_text-append, All-of_mem_text, All-mem_text, DistinctNames, DistinctNames-snoc,
  length_le_of_subset,
}
use aether_supervisor.Container.Cycles.Neighbors.{known_neighbors-All, keys-known_neighbors}
use aether_supervisor.Container.Cycles.{
  CycleDetector, color, drop_last, enter, backtrack, mark_cycle, Visit, visit_neighbor, visit_all,
  search, search_all, backtracked, cycle_graph, raw_graph, alias_map, detect_cycles,
}
use aether_supervisor.Container.Data.{Container}

color-insert :
    (node k : Text) (n : ℕ) (colors : Assoc ℕ)
    → degree (insert node n colors) k ≡ (if text_eq node k then n else degree colors k)
color-insert node k n colors = ground (arith, lookup-insert node k n colors)

drop_last-snoc : (xs : List Text) (x : Text) → drop_last (xs ++ x ∷ []) ≡ xs
drop_last-snoc [] x = refl
drop_last-snoc (y ∷ []) x = refl
drop_last-snoc (y ∷ z ∷ xs) x = ap (λ (l : List Text). y ∷ l) (drop_last-snoc (z ∷ xs) x)

module _ (graph : Assoc (List Text)) where
  -- Some closed walk of the graph visits the node.
  abbrev pub OnCycle : Text → Type 0
  OnCycle k = (cycle : List Text) × IsCycle graph cycle × (mem_text k cycle ≡ true)

  from_first-OnCycle :
      (neighbor : Text) (path : List Text)
      → IsWalk graph (path ++ neighbor ∷ [])
      → All OnCycle (from_first neighbor path)
  from_first-OnCycle neighbor path w = elim (List-cases (from_first neighbor path)) [
    | inl e ↦ rw e tt
    | inr (c, cs, e) ↦
        let cycle = (c ∷ cs) ++ neighbor ∷ [] in
        let closed : IsCycle graph cycle = closed-IsCycle graph neighbor path w (rw e refl) in
        rw e (
          All-of_mem_text OnCycle (c ∷ cs)
            (λ k m. (cycle, closed, ground (arith, mem_text-append k (c ∷ cs) (neighbor ∷ [])))))
  ]

  -- What holds of the detector while the path is this one.
  record Inv (path : List Text) (s : CycleDetector) : Type 0 where
    here : s.path ≡ path
    visited : (k : Text) → mem_text k path ≡ true → (color s k == 0) ≡ false
    marked : All OnCycle s.cycles

  abbrev Result : List Text → Option CycleDetector → Type 0
  Result path o = (s : CycleDetector) × (o ≡ some s) × Inv path s

  abbrev Visits : List Text → Visit → Text → Type 0
  Visits path visit neighbor =
      (s : CycleDetector)
      → Inv path s
      → (color s neighbor == 0) ≡ true
      → Result path (visit neighbor s)

  visit_neighbor_lem :
      (path : List Text) (visit : Visit) (neighbor : Text) (s : CycleDetector)
      → IsWalk graph (path ++ neighbor ∷ [])
      → Visits path visit neighbor
      → Inv path s
      → Result path (visit_neighbor visit neighbor s)
  visit_neighbor_lem path visit neighbor s w v h = elim (Bool-cases (color s neighbor == 0)) [
    | inl white ↦ rw white (v s h white)
    | inr seen ↦ elim (Bool-cases (color s neighbor == 1)) [
      | inl gray ↦
          let more : All OnCycle (from_first neighbor s.path) =
            rw h.here (from_first-OnCycle neighbor path w) in
          rw (seen, gray)
            (
              mark_cycle neighbor s,
              refl,
              record {
                here = h.here;
                visited = h.visited;
                marked = All-append OnCycle s.cycles (from_first neighbor s.path) h.marked more;
              },
            )
      | inr black ↦ rw (seen, black) (s, refl, h)
    ]
  ]

  visit_all_lem :
      (path : List Text) (visit : Visit) (rest : List Text) (s : CycleDetector)
      → All (λ n. IsWalk graph (path ++ n ∷ []) × Visits path visit n) rest
      → Inv path s
      → Result path (visit_all visit rest s)
  unfolding visit_all
  visit_all_lem path visit [] s a h = (s, refl, h)
  visit_all_lem path visit (n ∷ rest) s a h =
      let (s', e, h') = visit_neighbor_lem path visit n s a.0.0 a.0.1 h in
      rw (e, visit_all) (visit_all_lem path visit rest s' a.1 h')

  enter-Inv :
      (path : List Text) (node : Text) (s : CycleDetector)
      → Inv path s
      → Inv (path ++ node ∷ []) (enter node s)
  enter-Inv path node s h = record {
    here = ap (λ (p : List Text). p ++ node ∷ []) h.here;
    visited = λ k m. ground (
      arith,
      mem_text-append k path (node ∷ []),
      h.visited k,
      color-insert node k 1 s.colors,
      text_eq_iff k node,
      text_eq_iff node k,
    );
    marked = h.marked;
  }

  backtrack-Inv :
      (path : List Text) (node : Text) (s : CycleDetector)
      → Inv (path ++ node ∷ []) s
      → Inv path (backtrack node s)
  backtrack-Inv path node s h = record {
    here = ap drop_last h.here ∙ drop_last-snoc path node;
    visited = λ k m.
        ground
          (arith, mem_text-append k path (node ∷ []), h.visited k, color-insert node k 2 s.colors);
    marked = h.marked;
  }

  backtracked_lem :
      (path : List Text) (node : Text) (o : Option CycleDetector)
      → Result (path ++ node ∷ []) o
      → Result path (backtracked node o)
  backtracked_lem path node o (s, e, h) =
      (backtrack node s, ap (backtracked node) e, backtrack-Inv path node s h)

  module _ (nodes : List Text)
      (closed : (k : Text) → All (λ d. mem_text d nodes ≡ true) (dependents graph k)) where
    search_lem :
        (fuel : ℕ) (path : List Text) (node : Text)
        → mem_text node nodes ≡ true
        → length nodes < fuel + length path
        → DistinctNames path
        → All (λ k. mem_text k nodes ≡ true) path
        → IsWalk graph (path ++ node ∷ [])
        → Visits path (search graph fuel) node
    unfolding search
    search_lem zero path node m f d k w s h white =
        absurd (omega (arith, length_le_of_subset path nodes d k))
    search_lem (suc fuel) path node m f d k w s h white =
        let fresh : mem_text node path ≡ false = ground (arith, h.visited node) in
        let deeper : (n : Text)
            → mem_text n (dependents graph node) ≡ true
            → IsWalk graph ((path ++ node ∷ []) ++ n ∷ [])
              × Visits (path ++ node ∷ []) (search graph fuel) n =
          λ n next.
            let walk = IsWalk-snoc graph path node n w next in
            (
              walk,
              search_lem fuel (path ++ node ∷ []) n
                  (All-mem_text (λ j. mem_text j nodes ≡ true) (dependents graph node) n
                    (closed node) next)
                  (omega (arith, length-append path (node ∷ [])))
                  (DistinctNames-snoc path node d fresh)
                  (All-append (λ j. mem_text j nodes ≡ true) path (node ∷ []) k (m, tt)) walk,
            ) in
        backtracked_lem path node _ (
          visit_all_lem (path ++ node ∷ []) (search graph fuel) (dependents graph node)
            (enter node s) (All-of_mem_text _ (dependents graph node) deeper)
            (enter-Inv path node s h))

    search_all_lem :
        (rest : List Text) (s : CycleDetector)
        → All (λ k. mem_text k nodes ≡ true) rest
        → Inv [] s
        → Result [] (search_all graph (suc (length nodes)) rest s)
    unfolding search_all
    search_all_lem [] s k h = (s, refl, h)
    search_all_lem (node ∷ rest) s k h = elim (Bool-cases (color s node == 0)) [
      | inl white ↦
          let (s', e, h') =
            search_lem (suc (length nodes)) [] node k.0 (omega arith) tt tt tt s h white in
          rw (search_all, white, e) (search_all_lem rest s' k.1 h')
      | inr seen ↦ rw (search_all, seen) (search_all_lem rest s k.1 h)
    ]

module _ (links : Container → List Text) (cs : List Container) where
  cycle_graph-closed :
      (k : Text)
      → All
          (λ d. mem_text d (keys (cycle_graph links cs)) ≡ true)
          (dependents (cycle_graph links cs) k)
  unfolding cycle_graph
  cycle_graph-closed k =
      let graph = raw_graph links (alias_map cs []) cs [] in
      rw (keys-known_neighbors (keys graph) graph) (known_neighbors-All (keys graph) graph k)

  -- DetectCycles ends, and every node that it marks is on a cycle of the graph.
  pub detect_cycles_sound :
      (marked : List Text) × (detect_cycles links cs ≡ some marked)
      × All (OnCycle (cycle_graph links cs)) marked
  unfolding detect_cycles
  detect_cycles_sound =
      let graph = cycle_graph links cs in
      let white : CycleDetector = record {
        colors = zero_degrees (keys graph);
        cycles = [];
        path = [];
      } in
      let start : Inv graph [] white = record {
        here = refl;
        visited = λ k m. absurd (cc);
        marked = tt;
      } in
      let (s, e, h) =
        search_all_lem graph (keys graph) cycle_graph-closed (keys graph) white
          (All-of_mem_text (λ k. mem_text k (keys graph) ≡ true) (keys graph) (λ k m. m)) start in
      (s.cycles, rw (detect_cycles, e) refl, h.marked)
