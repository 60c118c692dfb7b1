-- ===== src/Sorter/Queue.antt =====
-- Kahn's algorithm: initializeQueue and the loop of sortByDependencies. Where the source appends
-- the container of an identifier to `sorted`, the identifier is kept, and the containers are
-- looked up when the loop is over.
use aether_supervisor.Prelude.{
  Text, Assoc, lookup, insert, sort_by, StrictOrder, text_lt, text_lt_irrefl, text_lt_trans,
  text_lt_connected, Option, none, some, List, [], ◌∷◌, ◌++◌, if◌then◌else◌, ◌==◌, ℕ, zero, suc,
  ◌-◌,
}
use aether_supervisor.Container.Data.{Container}
use aether_supervisor.Sorter.Graph.{degree, dependents}

-- sort.Reverse of the order on strings.
abbrev pub descending : StrictOrder Text
descending = record {
  lt = λ a b. text_lt b a;
  irrefl = text_lt_irrefl;
  trans = λ a b c p q. text_lt_trans c b a q p;
  connected = λ a b p q. text_lt_connected a b q p;
}

abbrev pub zero_keys : Assoc ℕ → List Text
zero_keys [] = []
zero_keys ((k, n) ∷ m) = let rest = zero_keys m in if n == 0 then k ∷ rest else rest

unfoldable pub initialize_queue : Assoc ℕ → List Text
initialize_queue indegree = sort_by descending (λ k. k) (zero_keys indegree)

-- The variables of the loop.
pub record Run : Type 0 where
  pub queue : List Text
  pub order : List Text
  pub indegree : Assoc ℕ

-- `indegree[dependent]--`, where the subtraction on ℕ stops at 0, and the dependent is queued when
-- it waits for nothing more.
unfoldable pub release : Text → Run → Run
release dependent s =
    let left = degree s.indegree dependent - 1 in
    record s {
      queue = if left == 0 then s.queue ++ dependent ∷ [] else s.queue;
      indegree = insert dependent left s.indegree;
    }

unfoldable pub release_all : List Text → Run → Run
unfolding release
release_all [] s = s
release_all (dependent ∷ rest) s = release_all rest (release dependent s)

-- The `while` loop with fuel; `none` where it runs out.
unfoldable pub process : ℕ → Assoc (List Text) → Run → Option (List Text)
unfolding release_all
process zero adjacency s = elim s.queue [ [] ↦ some s.order | _ ∷ _ ↦ none ]
process (suc fuel) adjacency s = elim s.queue [
  | [] ↦ some s.order
  | current ∷ queue ↦ process fuel adjacency (
      release_all (dependents adjacency current)
        (record s { queue = queue; order = s.order ++ current ∷ [] }))
]

abbrev pub with_found : Option Container → List Container → List Container
with_found none rest = rest
with_found (some c) rest = c ∷ rest

unfoldable pub containers_of : Assoc Container → List Text → List Container
containers_of found [] = []
containers_of found (k ∷ ks) = with_found (lookup k found) (containers_of found ks)
