-- ===== src/Container/Tests.antt =====
-- The names and the links of a container that Docker Compose made.
use aether_supervisor.Prelude.{
  Text, ℕ, pos, atoi, lookup, ◌≤◌, codes, Option, none, some, All, List, [], ◌∷◌, ◌≡◌, ◌≢◌, ◌⊎◌,
  inl, refl,
}
use aether_supervisor.Container.Data.{Container, new_container, name, id}
use aether_supervisor.Container.Identifier.{
  compose_project_label, compose_service_label, resolve_container_identifier,
}
use aether_supervisor.Container.Labels.{depends_on_label, get_raw_label_value}
use aether_supervisor.Container.Hooks.{get_lifecycle_id, lifecycle_uid_label, max_reasonable_id}
use aether_supervisor.Container.Hooks.Bounds.{get_lifecycle_id_lem}
use aether_supervisor.Container.ShortId.{short_id}
use aether_supervisor.Container.Links.{links}
use aether_supervisor.Container.Cycles.{detect_cycles, cycle_graph}
use aether_supervisor.Container.Cycles.Sound.{OnCycle, detect_cycles_sound}

abbrev web : Container
web =
    new_container
      (record {
        id = codes "id";
        name = codes "/web";
        image = codes "web";
        labels =
            (compose_project_label, codes "shop")
            ∷ (compose_service_label, codes "front")
            ∷ (depends_on_label, codes "db, web")
            ∷ [];
        host_config = none;
        state = none;
        stop_signal = [];
        stop_timeout = none;
      })
      none

abbrev no_json : Text → Option (List Text)
no_json _ = none

web_identifier : resolve_container_identifier web ≡ codes "shop-front"
unfolding resolve_container_identifier new_container
web_identifier = refl

web_links : links no_json web ≡ codes "db" ∷ []
unfolding links new_container
web_links = refl

web_named : name web ≢ [] ⊎ id web ≢ []
unfolding new_container
web_named = inl (λ e. cc)

abbrev linked : Text → Text → Container
linked name depends_on =
    new_container
      (record {
        id = name;
        name = name;
        image = name;
        labels = (depends_on_label, depends_on) ∷ [];
        host_config = none;
        state = none;
        stop_signal = [];
        stop_timeout = none;
      })
      none

-- Two cycles, a-b-c and a-d-c, that share an edge.
abbrev two_cycles : List Container
two_cycles =
    linked (codes "a") (codes "b,d")
    ∷ linked (codes "b") (codes "c")
    ∷ linked (codes "c") (codes "a")
    ∷ linked (codes "d") (codes "c")
    ∷ []

-- The node d is on a cycle, and is not marked: c is black when the search comes to it from d.
d_unmarked :
    detect_cycles (links no_json) two_cycles ≡ some (codes "a" ∷ codes "b" ∷ codes "c" ∷ [])
unfolding detect_cycles links resolve_container_identifier new_container
d_unmarked = refl

detect_cycles_sound_example :
    (marked : List Text) × (detect_cycles (links no_json) two_cycles ≡ some marked)
    × All (OnCycle (cycle_graph (links no_json) two_cycles)) marked
detect_cycles_sound_example = detect_cycles_sound (links no_json) two_cycles

abbrev with_uid : Container
with_uid = record web {
  container_info = record web.container_info { labels = (lifecycle_uid_label, codes "1000") ∷ [] };
}

with_uid-get_lifecycle_id : get_lifecycle_id with_uid lifecycle_uid_label ≡ some (pos 1000)
unfolding get_lifecycle_id new_container get_raw_label_value atoi
with_uid-get_lifecycle_id = refl

get_lifecycle_id_lem_example :
    (raw : Text) × (n : ℕ) × (lookup lifecycle_uid_label with_uid.container_info.labels ≡ some raw)
    × (atoi raw ≡ some (pos n))
    × (pos 1000 ≡ pos n)
    × (n ≤ max_reasonable_id)
get_lifecycle_id_lem_example =
    get_lifecycle_id_lem with_uid lifecycle_uid_label (pos 1000) with_uid-get_lifecycle_id

short_digest : short_id (codes "sha256:0123456789abcdef") ≡ codes "0123456789ab"
unfolding short_id
short_digest = refl
