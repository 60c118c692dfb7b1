-- ===== src/Filters/Tests.antt =====
-- The filters on a labelled container.
use aether_supervisor.Prelude.{
  Text, codes, any, text_eq, Bool, true, false, not, ◌&&◌, ◌||◌, Option, none, some, is_some, [],
  ◌∷◌, ◌≡◌, refl,
}
use aether_supervisor.Container.Data.{Container, new_container, name}
use aether_supervisor.Container.Labels.{enabled, scope, enable_label, scope_label}
use aether_supervisor.Filters.{build_filter, match_image_and_tag, matches_name, container_scope}
use aether_supervisor.Filters.Selection.{
  asked_scope, is_disabled, is_named, build_filter_lem, build_filter-scope,
}

-- A stand-in for regexp that matches nothing.
abbrev no_regex : Text → Text → Option Bool
no_regex _ _ = some false

abbrev web : Container
web =
    new_container
      (record {
        id = codes "id";
        name = codes "/web";
        image = codes "web";
        labels = (enable_label, codes "true") ∷ (scope_label, codes "prod") ∷ [];
        host_config = none;
        state = none;
        stop_signal = [];
        stop_timeout = none;
      })
      none

web_selected :
    build_filter no_regex (codes "web" ∷ []) (codes "db" ∷ []) true (codes "prod") web ≡ true
unfolding build_filter enabled scope new_container
web_selected = refl

web_selected_alone : build_filter no_regex [] [] false (codes "prod") web ≡ true
unfolding build_filter enabled scope new_container
web_selected_alone = refl

-- Only the part behind the first colon is compared, so the tags behind a registry's port are not.
port_hides_tag : match_image_and_tag (codes "host:5000/app:v1") (codes "host:5000/app:v2") ≡ true
unfolding match_image_and_tag
port_hides_tag = refl

build_filter_lem_example :
    build_filter no_regex (codes "web" ∷ []) (codes "db" ∷ []) true (codes "prod") web
    ≡ not (is_disabled (enabled web))
      && (text_eq (container_scope (scope web)) (asked_scope (codes "prod"))
          && ((not true || is_some (enabled web))
              && (not (any (matches_name no_regex (name web)) (codes "db" ∷ []))
                  && is_named no_regex (codes "web" ∷ []) web)))
build_filter_lem_example =
    build_filter_lem no_regex (codes "web" ∷ []) (codes "db" ∷ []) true (codes "prod") web

build_filter-scope_example : asked_scope (codes "prod") ≡ asked_scope (codes "prod")
build_filter-scope_example =
    build_filter-scope no_regex (codes "web" ∷ []) (codes "db" ∷ []) [] [] true false (codes "prod")
      (codes "prod") web web_selected web_selected_alone
