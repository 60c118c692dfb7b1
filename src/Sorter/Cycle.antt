-- ===== src/Sorter/Cycle.antt =====
-- findCyclePath of pkg/sorter/dependency.go, with fuel for the depth of the search: `none` is
-- running out of it. A path that is empty stands for nil.
pub mod Total
pub mod Sound
use aether_supervisor.Prelude.{
  Text, Assoc, text_eq, any, keep, not, Bool, true, false, Option, none, some, List, [], ◌∷◌, ◌++◌,
  if◌then◌else◌, ℕ, zero, suc,
}
use aether_supervisor.Sorter.Graph.{dependents}

-- The maps visiting and visited, as the lists of the keys that are true.
pub record Marks : Type 0 where
  pub visiting : List Text
  pub visited : List Text

-- The path from the first occurrence of the node on.
abbrev pub from_first : Text → List Text → List Text
from_first node [] = []
from_first node (p ∷ ps) = let rest = from_first node ps in if text_eq p node then p ∷ ps else rest

abbrev pub close : Text → List Text → List Text
close node [] = []
close node (p ∷ ps) = (p ∷ ps) ++ node ∷ []

abbrev pub unmark : Text → List Text → List Text
unmark node = keep (λ k. not (text_eq node k))

abbrev pub Search : Type 0
Search = Text → List Text → Marks → Option (List Text × Marks)

-- The loop over the neighbors, up to the first that leads to a cycle.
unfoldable pub explore : Search → List Text → List Text → Marks → Option (List Text × Marks)
explore search [] path marks = some ([], marks)
explore search (neighbor ∷ rest) path marks = elim (search neighbor path marks) [
  | none ↦ none
  | some (found, marks') ↦ elim found [
    | [] ↦ explore search rest path marks'
    | c ∷ cs ↦ some (c ∷ cs, marks')
  ]
]

-- What is left to do for a node when its neighbors have been explored.
abbrev pub leave : Text → Option (List Text × Marks) → Option (List Text × Marks)
leave node none = none
leave node (some ([], marks)) =
    some ([], record { visiting = unmark node marks.visiting; visited = node ∷ marks.visited })
leave node (some (c ∷ cs, marks)) = some (c ∷ cs, marks)

module _ (adjacency : Assoc (List Text)) where
  unfoldable pub dfs : ℕ → Search
  unfolding explore
  dfs zero node path marks = none
  dfs (suc fuel) node path marks =
      let deeper = leave node (
        explore (dfs fuel) (dependents adjacency node) (path ++ node ∷ [])
          (record marks { visiting = marks.visiting ++ node ∷ [] })) in
      if any (text_eq node) marks.visiting
      then some (close node (from_first node path), marks)
      else if any (text_eq node) marks.visited
      then some ([], marks)
      else deeper

  unfoldable pub find_cycle_path : ℕ → Text → Option (List Text)
  unfolding dfs
  find_cycle_path fuel start = elim (dfs fuel start [] (record { visiting = []; visited = [] })) [
    | none ↦ none
    | some (path, _) ↦ some path
  ]
