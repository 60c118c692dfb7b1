-- ===== src/Filters/Selection.antt =====
-- What the filter that BuildFilter makes selects.
use aether_supervisor.Prelude.{
  Text, text_eq, text_eq_iff, any, Bool, true, false, not, ◌&&◌, ◌||◌, Option, some, is_some,
  Bool-cases, inl, inr, List, [], ◌∷◌, ◌≡◌, refl, sym, ◌∙◌, arith, if◌then◌else◌,
}
use aether_supervisor.Container.Data.{Container, name}
use aether_supervisor.Container.Labels.{enabled, scope}
use aether_supervisor.Container.Identifier.{is_empty}
use aether_supervisor.Filters.{
  no_scope, container_scope, matches_name, build_filter, filter_by_names, filter_by_disable_names,
  filter_by_enable_label, filter_by_scope, filter_by_disabled_label, no_filter,
}

-- The scope that a filter for `wanted` asks for.
abbrev pub asked_scope : Text → Text
asked_scope [] = no_scope
asked_scope (c ∷ cs) = c ∷ cs

abbrev pub is_disabled : Option Bool → Bool
is_disabled (some false) = true
is_disabled _ = false

module _ (matches_regex : Text → Text → Option Bool) where
  -- A container is named by a list of patterns if one of them matches, or the list is empty.
  abbrev pub is_named : List Text → Container → Bool
  is_named names c = is_empty_list names || any (matches_name matches_regex (name c)) names
    where
      is_empty_list : List Text → Bool
      is_empty_list [] = true
      is_empty_list (_ ∷ _) = false

  filter_by_names_lem :
      (names : List Text) (base : Container → Bool) (c : Container)
      → filter_by_names matches_regex names base c ≡ is_named names c && base c
  unfolding filter_by_names
  filter_by_names_lem [] base c = refl
  filter_by_names_lem (n ∷ names) base c = ground arith

  filter_by_disable_names_lem :
      (names : List Text) (base : Container → Bool) (c : Container)
      → filter_by_disable_names matches_regex names base c
        ≡ not (any (matches_name matches_regex (name c)) names) && base c
  unfolding filter_by_disable_names
  filter_by_disable_names_lem [] base c = refl
  filter_by_disable_names_lem (n ∷ names) base c = ground arith

  filter_by_scope-asked :
      (wanted : Text) (base : Container → Bool) (c : Container)
      → (if text_eq wanted no_scope || is_empty wanted
            then filter_by_scope no_scope base
            else filter_by_scope wanted base)
          c
        ≡ text_eq (container_scope (scope c)) (asked_scope wanted) && base c
  unfolding filter_by_scope
  filter_by_scope-asked [] base c = ground arith
  filter_by_scope-asked (w ∷ ws) base c = elim (Bool-cases (text_eq (w ∷ ws) no_scope)) [
    | inl e ↦ rw (e, (text_eq_iff (w ∷ ws) no_scope).0 e) (ground arith)
    | inr n ↦ rw n (ground arith)
  ]

  filter_by_labels_lem :
      (enable_label : Bool) (base : Container → Bool) (c : Container)
      → (if enable_label then filter_by_enable_label base else base) c
        ≡ (not enable_label || is_some (enabled c)) && base c
  unfolding filter_by_enable_label
  filter_by_labels_lem true base c = ground arith
  filter_by_labels_lem false base c = refl

  filter_by_disabled_label_lem :
      (base : Container → Bool) (c : Container)
      → filter_by_disabled_label base c ≡ not (is_disabled (enabled c)) && base c
  unfolding filter_by_disabled_label
  filter_by_disabled_label_lem base c = ground arith

  true_last : (a b : Bool) → a && (b && true) ≡ a && b
  true_last a b = ground arith

  -- The filter selects a container if its enable label is not false, its scope is the one that is
  -- asked for ("none" where none is), it has an enable label where that is required, no
  -- disabling pattern matches its name, and a naming pattern does, if there are any.
  pub build_filter_lem :
      (names disable_names : List Text) (enable_label : Bool) (wanted : Text) (c : Container)
      → build_filter matches_regex names disable_names enable_label wanted c
        ≡ not (is_disabled (enabled c))
          && (text_eq (container_scope (scope c)) (asked_scope wanted)
              && ((not enable_label || is_some (enabled c))
                  && (not (any (matches_name matches_regex (name c)) disable_names)
                      && is_named names c)))
  unfolding build_filter no_filter
  build_filter_lem names disable_names enable_label wanted c =
      rw
        (
          filter_by_disabled_label_lem, filter_by_scope-asked, filter_by_labels_lem,
          filter_by_disable_names_lem, filter_by_names_lem, true_last,
        )
        refl

  and_true : {a b : Bool} → a && b ≡ true → (a ≡ true) × (b ≡ true)
  and_true {a} {b} h = ground arith

  -- Two filters that both select one container were asked for the same scope, where an empty
  -- scope counts as "none".
  pub build_filter-scope :
      (names disable_names names' disable_names' : List Text) (label label' : Bool)
      (wanted wanted' : Text) (c : Container)
      → build_filter matches_regex names disable_names label wanted c ≡ true
      → build_filter matches_regex names' disable_names' label' wanted' c ≡ true
      → asked_scope wanted ≡ asked_scope wanted'
  build_filter-scope names disable_names names' disable_names' label label' wanted wanted' c h h' =
      let e =
        (and_true (and_true (sym (build_filter_lem names disable_names label wanted c) ∙ h)).1).0 in
      let e' =
        (and_true
          (and_true (sym (build_filter_lem names' disable_names' label' wanted' c) ∙ h')).1).0 in
      sym ((text_eq_iff _ _).0 e) ∙ (text_eq_iff _ _).0 e'
