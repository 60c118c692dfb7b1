-- ===== src/Sorter/Tests.antt =====
-- The sorter on containers that are linked by label.
use aether_supervisor.Prelude.{
  Text, Assoc, codes, Option, none, some, List, [], ◌∷◌, ◌++◌, Permᴰ, ◌≡◌, ◌≢◌, refl, All, true,
  false, text_eq, text_eq_iff, Bool-cases, inl, inr,
}
use aether_supervisor.Container.Data.{Container, new_container}
use aether_supervisor.Container.Identifier.{resolve_container_identifier}
use aether_supervisor.Container.Labels.{depends_on_label, watchtower_label, is_watchtower}
use aether_supervisor.Container.Links.{links}
use aether_supervisor.Sorter.Graph.{identifier, Result, ok, dependents}
use aether_supervisor.Sorter.Cycle.{find_cycle_path}
use aether_supervisor.Sorter.Cycle.Total.{find_cycle_path_total}
use aether_supervisor.Sorter.Cycle.Sound.{IsCycle, find_cycle_path_sound}
use aether_supervisor.Sorter.Sort.{sort, sort_by_dependencies, watchtower, non_watchtower}
use aether_supervisor.Sorter.Kahn.Edges.{mem_text, Ordered, DistinctNames}
use aether_supervisor.Sorter.Kahn.Groups.{identifiers}
use aether_supervisor.Sorter.Kahn.Correct.{dependency_edges}
use aether_supervisor.Sorter.Dependencies.{
  IsOutcome, sort_by_dependencies_sound, sort_by_dependencies_complete, sort_by_dependencies_total,
}
use aether_supervisor.Sorter.Watchtower.{sort_sound}

abbrev container : Text → Assoc Text → Container
container name labels =
    new_container
      (record {
        id = name;
        name = name;
        image = name;
        labels = labels;
        host_config = none;
        state = none;
        stop_signal = [];
        stop_timeout = none;
      })
      none

abbrev json_free : Text → Option (List Text)
json_free _ = none

abbrev label_links : Container → List Text
unfolding links
label_links = links json_free

abbrev db : Container
db = container (codes "/db") []

abbrev web : Container
web = container (codes "/web") ((depends_on_label, codes "db") ∷ [])

abbrev tower : Container
tower = container (codes "/tower") ((watchtower_label, codes "true") ∷ [])

sorted_pair : sort_by_dependencies label_links (web ∷ db ∷ []) ≡ some (ok (db ∷ web ∷ []))
unfolding sort_by_dependencies links resolve_container_identifier new_container
sorted_pair = refl

sorted_tower : sort label_links (tower ∷ web ∷ db ∷ []) ≡ some (ok (db ∷ web ∷ tower ∷ []))
unfolding sort links is_watchtower new_container resolve_container_identifier
sorted_tower = refl

sort_sound_example :
    Permᴰ (db ∷ web ∷ tower ∷ []) (tower ∷ web ∷ db ∷ [])
    × ((front : List Container) × ((db ∷ web ∷ tower ∷ [])
          ≡ front ++ watchtower (tower ∷ web ∷ db ∷ []))
        × All (λ c. is_watchtower c ≡ false) front
        × Ordered
            (dependency_edges label_links (non_watchtower (tower ∷ web ∷ db ∷ [])))
            []
            (identifiers front))
sort_sound_example =
    sort_sound label_links (tower ∷ web ∷ db ∷ []) (db ∷ web ∷ tower ∷ []) sorted_tower

sort_by_dependencies_sound_example :
    Permᴰ (db ∷ web ∷ []) (web ∷ db ∷ [])
    × Ordered (dependency_edges label_links (web ∷ db ∷ [])) [] (identifiers (db ∷ web ∷ []))
sort_by_dependencies_sound_example =
    sort_by_dependencies_sound label_links (web ∷ db ∷ []) (db ∷ web ∷ []) sorted_pair

pair_distinct : DistinctNames (identifiers (web ∷ db ∷ []))
unfolding identifier resolve_container_identifier new_container
pair_distinct = ((web_ne_db, tt), (tt, tt))
  where
    web_ne_db : codes "web" ≢ codes "db"
    web_ne_db e = cc ((text_eq_iff (codes "web") (codes "db")).1 e)

pair-Ordered :
    Ordered (dependency_edges label_links (web ∷ db ∷ [])) [] (identifiers (db ∷ web ∷ []))
pair-Ordered = sort_by_dependencies_sound_example.1

sort_by_dependencies_complete_example :
    (sorted : List Container) × (sort_by_dependencies label_links (web ∷ db ∷ [])
      ≡ some (ok sorted))
sort_by_dependencies_complete_example =
    sort_by_dependencies_complete label_links (web ∷ db ∷ []) pair_distinct (db ∷ web ∷ [])
      (Permᴰ.swap refl refl) pair-Ordered

sort_by_dependencies_total_example :
    (result : Result (List Container)) × (sort_by_dependencies label_links (web ∷ db ∷ [])
      ≡ some result)
    × IsOutcome label_links (web ∷ db ∷ []) result
sort_by_dependencies_total_example = sort_by_dependencies_total label_links (web ∷ db ∷ [])

-- The graph of two nodes that wait for each other.
abbrev ring : Assoc (List Text)
ring = (codes "a", codes "b" ∷ []) ∷ (codes "b", codes "a" ∷ []) ∷ []

ring_path : find_cycle_path ring 3 (codes "a") ≡ some (codes "a" ∷ codes "b" ∷ codes "a" ∷ [])
unfolding find_cycle_path
ring_path = refl

find_cycle_path_sound_example : IsCycle ring (codes "a" ∷ codes "b" ∷ codes "a" ∷ [])
find_cycle_path_sound_example =
    find_cycle_path_sound ring 3 (codes "a") (codes "a") (codes "b" ∷ codes "a" ∷ []) ring_path

ring_closed :
    (k : Text) → All (λ d. mem_text d (codes "a" ∷ codes "b" ∷ []) ≡ true) (dependents ring k)
ring_closed k = elim (Bool-cases (text_eq (codes "a") k)) [
  | inl e ↦ rw e (refl, tt)
  | inr n ↦ elim (Bool-cases (text_eq (codes "b") k)) [
    | inl e ↦ rw (n, e) (refl, tt)
    | inr m ↦ rw (n, m) tt
  ]
]

find_cycle_path_total_example :
    (path : List Text) × (find_cycle_path ring 3 (codes "a") ≡ some path)
find_cycle_path_total_example =
    find_cycle_path_total ring (codes "a" ∷ codes "b" ∷ []) ring_closed (codes "a") refl
