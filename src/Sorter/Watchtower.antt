-- ===== src/Sorter/Watchtower.antt =====
-- What DependencySorter.Sort guarantees.
use mathlib.Core.List.Permᴰ
use aether_supervisor.Prelude.{
  Text, false, none, some, List, [], ◌∷◌, ◌++◌, Permᴰ, ◌≡◌, inl, inr, refl, All, All-perm,
  Bool-cases,
}
use aether_supervisor.Container.Data.{Container}
use aether_supervisor.Container.Labels.{is_watchtower}
use aether_supervisor.Sorter.Graph.{ok, err}
use aether_supervisor.Sorter.Sort.{sort, sort_by_dependencies, watchtower, non_watchtower}
use aether_supervisor.Sorter.Kahn.Edges.{Ordered}
use aether_supervisor.Sorter.Kahn.Groups.{identifiers}
use aether_supervisor.Sorter.Kahn.Correct.{dependency_edges}
use aether_supervisor.Sorter.Dependencies.{sort_by_dependencies_sound, Answer}

separated : (cs : List Container) → Permᴰ (non_watchtower cs ++ watchtower cs) cs
separated [] = Permᴰ.nil
separated (c ∷ cs) = elim (Bool-cases (is_watchtower c)) [
  | inl e ↦
      rw e (Permᴰ.trans (Permᴰ.middle c (non_watchtower cs) _) (Permᴰ.cons refl (separated cs)))
  | inr e ↦ rw e (Permᴰ.cons refl (separated cs))
]

none_watchtower : (cs : List Container) → All (λ c. is_watchtower c ≡ false) (non_watchtower cs)
none_watchtower [] = tt
none_watchtower (c ∷ cs) = elim (Bool-cases (is_watchtower c)) [
  | inl e ↦ rw e (none_watchtower cs)
  | inr e ↦ rw e (e, none_watchtower cs)
]

sort_ok :
    (rest sorted : List Container) (r : Answer)
    → (elim r [
      | none ↦ none
      | some (err e) ↦ some (err e)
      | some (ok front) ↦ some (ok (front ++ rest))
    ])
      ≡ some (ok sorted)
    → (front : List Container) × (r ≡ some (ok front)) × (sorted ≡ front ++ rest)
sort_ok rest sorted none h = absurd (cc)
sort_ok rest sorted (some (err e)) h = absurd (cc)
sort_ok rest sorted (some (ok front)) h = (front, refl, cc)

module _ (links : Container → List Text) (cs : List Container) where
  -- A result has the containers of the input, rearranged: in front those that are not watchtower
  -- instances, each behind all among them that its links lead to, and then the watchtower instances
  -- in the order of the input. Links to watchtower instances do not count.
  pub sort_sound :
      (sorted : List Container)
      → sort links cs ≡ some (ok sorted)
      → Permᴰ sorted cs
        × ((front : List Container) × (sorted ≡ front ++ watchtower cs)
            × All (λ c. is_watchtower c ≡ false) front
            × Ordered (dependency_edges links (non_watchtower cs)) [] (identifiers front))
  unfolding sort
  sort_sound sorted e =
      let (front, f, shape) =
        sort_ok (watchtower cs) sorted (sort_by_dependencies links (non_watchtower cs)) e in
      let (p, o) = sort_by_dependencies_sound links (non_watchtower cs) front f in
      (
        rw shape (Permᴰ.trans (Permᴰ.append_right (watchtower cs) p) (separated cs)),
        (front, shape, All-perm (λ c. is_watchtower c ≡ false) p (none_watchtower cs), o),
      )
