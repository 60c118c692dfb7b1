-- ===== src/Filters.antt =====
-- pkg/filters/filters.go: which containers a run looks at. The choice of the filter and its
-- description are two functions where BuildFilter returns both.
pub mod Selection
pub mod Description
mod Tests
use aether_supervisor.Prelude.{
  Text, has_prefix, trim_prefix, split, any, text_eq, Bool, true, false, not, ◌&&◌, ◌||◌, Option,
  none, some, is_some, List, [], ◌∷◌, ◌++◌, codes, if◌then◌else◌,
}
use aether_supervisor.Container.Data.{Container, name}
use aether_supervisor.Container.Labels.{enabled, scope, is_watchtower, image_name}
use aether_supervisor.Container.Identifier.{is_empty}

abbrev pub no_scope : Text
no_scope = codes "none"

abbrev pub Filter : Type 0
Filter = Container → Bool

unfoldable pub watchtower_containers_filter : Filter
watchtower_containers_filter c = is_watchtower c

-- The scope of a container, "none" where it is not set or empty.
abbrev pub container_scope : Option Text → Text
container_scope none = no_scope
container_scope (some []) = no_scope
container_scope (some (c ∷ cs)) = c ∷ cs

unfoldable pub unscoped_watchtower_containers_filter : Filter
unscoped_watchtower_containers_filter c =
    if not (is_watchtower c) then false else text_eq (container_scope (scope c)) no_scope

unfoldable pub no_filter : Filter
no_filter c = true

unfoldable pub filter_by_enable_label : Filter → Filter
filter_by_enable_label base_filter c = elim (enabled c) [ none ↦ false | some _ ↦ base_filter c ]

unfoldable pub filter_by_disabled_label : Filter → Filter
filter_by_disabled_label base_filter c = elim (enabled c) [ some false ↦ false | _ ↦ base_filter c ]

unfoldable pub filter_by_scope : Text → Filter → Filter
filter_by_scope wanted base_filter c =
    if text_eq (container_scope (scope c)) wanted then base_filter c else false

-- What is in front of the first colon, and what stands between it and the next, if there is one.
abbrev name_and_tag : List Text → Text × Option Text
name_and_tag [] = ([], none)
name_and_tag (part ∷ []) = (part, none)
name_and_tag (part ∷ tag ∷ parts) = (part, some tag)

abbrev tags_match : Option Text → Option Text → Bool
tags_match (some container_tag) (some target_tag) = text_eq container_tag target_tag
tags_match _ _ = true

unfoldable pub match_image_and_tag : Text → Text → Bool
match_image_and_tag container_image target_image =
    let (container_name, container_tag) = name_and_tag (split container_image b':') in
    let (target_name, target_tag) = name_and_tag (split target_image b':') in
    if not (text_eq container_name target_name) then false else tags_match container_tag target_tag

-- `none` is the nil slice.
unfoldable pub filter_by_image : Option (List Text) → Filter → Filter
unfolding match_image_and_tag
filter_by_image none base_filter c = base_filter c
filter_by_image (some images) base_filter c =
    if any (match_image_and_tag (image_name c)) images then base_filter c else false

-- `matches_regex` stands for the package regexp: whether the expression matches the text, or
-- `none` if it does not compile.
module _ (matches_regex : Text → Text → Option Bool) where
  unfoldable pub matches_name : Text → Text → Bool
  matches_name container_name pattern =
      let trimmed = trim_prefix pattern (codes "/") in
      if text_eq trimmed container_name
      then true
      else elim (matches_regex (codes "^" ++ trimmed ++ codes "$") container_name) [
        | none ↦ false
        | some matched ↦ matched
      ]

  unfoldable pub filter_by_names : List Text → Filter → Filter
  unfolding matches_name
  filter_by_names [] base_filter c = base_filter c
  filter_by_names (pattern ∷ patterns) base_filter c =
      if any (matches_name (name c)) (pattern ∷ patterns) then base_filter c else false

  unfoldable pub filter_by_disable_names : List Text → Filter → Filter
  unfolding matches_name
  filter_by_disable_names [] base_filter c = base_filter c
  filter_by_disable_names (pattern ∷ patterns) base_filter c =
      if any (matches_name (name c)) (pattern ∷ patterns) then false else base_filter c

  unfoldable pub build_filter : List Text → List Text → Bool → Text → Filter
  unfolding filter_by_names filter_by_disable_names filter_by_enable_label filter_by_scope
      filter_by_disabled_label no_filter
  build_filter names disable_names enable_label wanted =
      let named = filter_by_disable_names disable_names (filter_by_names names no_filter) in
      let labelled = if enable_label then filter_by_enable_label named else named in
      let scoped =
        if text_eq wanted no_scope || is_empty wanted
        then filter_by_scope no_scope labelled
        else filter_by_scope wanted labelled in
      filter_by_disabled_label scoped
