-- ===== src/Container/Cycles/Neighbors.antt =====
-- The graph of DetectCycles leads only to its own nodes.
use aether_supervisor.Prelude.{
  Text, Assoc, text_eq, any, true, List, [], ◌∷◌, ◌≡◌, refl, ap, All, keep, Bool-cases, inl, inr,
}
use aether_supervisor.Sorter.Graph.{dependents, keys}
use aether_supervisor.Sorter.Kahn.Edges.{mem_text}
use aether_supervisor.Container.Cycles.{known_neighbors}

kept-All :
    (nodes ns : List Text)
    → All (λ d. mem_text d nodes ≡ true) (keep (λ n. any (text_eq n) nodes) ns)
kept-All nodes [] = tt
kept-All nodes (n ∷ ns) = elim (Bool-cases (mem_text n nodes)) [
  | inl e ↦ rw e (e, kept-All nodes ns)
  | inr e ↦ rw e (kept-All nodes ns)
]

pub known_neighbors-All :
    (nodes : List Text) (graph : Assoc (List Text)) (k : Text)
    → All (λ d. mem_text d nodes ≡ true) (dependents (known_neighbors nodes graph) k)
known_neighbors-All nodes [] k = tt
known_neighbors-All nodes ((node, neighbors) ∷ graph) k = elim (Bool-cases (text_eq node k)) [
  | inl e ↦ rw (dependents, e) (kept-All nodes neighbors)
  | inr n ↦ rw (dependents, n) (known_neighbors-All nodes graph k)
]

pub keys-known_neighbors :
    (nodes : List Text) (graph : Assoc (List Text))
    → keys (known_neighbors nodes graph) ≡ keys graph
keys-known_neighbors nodes [] = refl
keys-known_neighbors nodes ((node, neighbors) ∷ graph) =
    ap (λ (ks : List Text). node ∷ ks) (keys-known_neighbors nodes graph)
