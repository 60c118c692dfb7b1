-- ===== src/Filters/Description.antt =====
-- The text that BuildFilter of pkg/filters/filters.go returns with the filter.
use aether_supervisor.Prelude.{
  Text, text_eq, Bool, false, ◌||◌, List, [], ◌∷◌, ◌++◌, codes, if◌then◌else◌, ◌≡◌, refl, arith,
  List-cases, inl, inr,
}
use aether_supervisor.Container.Identifier.{is_empty}
use aether_supervisor.Filters.{no_scope}

-- The names with `" or "` between them.
unfoldable pub alternatives : List Text → Text
alternatives [] = []
alternatives (n ∷ []) = n
alternatives (n ∷ m ∷ names) = n ++ codes "\" or \"" ++ alternatives (m ∷ names)

unfoldable pub describe_names : Text → List Text → Text
unfolding alternatives
describe_names opening [] = []
describe_names opening (n ∷ names) = opening ++ alternatives (n ∷ names) ++ codes "\", "

unfoldable pub describe_scope : Text → Text
describe_scope wanted =
    if text_eq wanted no_scope || is_empty wanted
    then codes "without a scope"
    else codes "in scope " ++ wanted

-- strings.TrimSuffix
unfoldable pub trim_suffix : Text → Text → Text
trim_suffix [] suffix = []
trim_suffix (c ∷ cs) suffix =
    let rest = trim_suffix cs suffix in if text_eq (c ∷ cs) suffix then [] else c ∷ rest

-- What the string builder holds at the end.
unfoldable pub built_text : List Text → List Text → Bool → Text → Text
unfolding describe_names describe_scope
built_text names disable_names enable_label wanted =
    describe_names (codes "which name matches \"") names
    ++ describe_names (codes "not named one of \"") disable_names
    ++ (if enable_label then codes "using enable label, " else [])
    ++ describe_scope wanted

unfoldable pub filter_description : List Text → List Text → Bool → Text → Text
unfolding built_text trim_suffix
filter_description names disable_names enable_label wanted =
    elim (built_text names disable_names enable_label wanted) [
      | [] ↦ codes "Checking all containers (except explicitly disabled with label)"
      | text ↦ trim_suffix (codes "Only checking containers " ++ text) (codes ", ")
    ]

empty_ne : {text : Text} → text ≡ [] → is_empty text ≡ false → ⊥
empty_ne e h = cc

append-ne-nil_right : (xs ys : Text) → is_empty ys ≡ false → is_empty (xs ++ ys) ≡ false
append-ne-nil_right [] ys h = h
append-ne-nil_right (x ∷ xs) ys h = refl

describe_scope-ne-nil : (wanted : Text) → is_empty (describe_scope wanted) ≡ false
unfolding describe_scope
describe_scope-ne-nil wanted = ground arith

built_text-ne-nil :
    (names disable_names : List Text) (enable_label : Bool) (wanted : Text)
    → is_empty (built_text names disable_names enable_label wanted) ≡ false
unfolding built_text
built_text-ne-nil names disable_names enable_label wanted =
    append-ne-nil_right _ (describe_scope wanted) (describe_scope-ne-nil wanted)

trim_suffix-only_checking :
    (text : Text)
    → trim_suffix (codes "Only checking containers " ++ text) (codes ", ")
      ≡ codes "Only checking containers " ++ trim_suffix text (codes ", ")
unfolding trim_suffix
trim_suffix-only_checking text = refl

-- The description always names a selection: the text for all containers is never returned, since
-- the scope always adds to what the builder holds.
pub filter_description_lem :
    (names disable_names : List Text) (enable_label : Bool) (wanted : Text)
    → filter_description names disable_names enable_label wanted
      ≡ codes "Only checking containers "
        ++ trim_suffix (built_text names disable_names enable_label wanted) (codes ", ")
unfolding filter_description
filter_description_lem names disable_names enable_label wanted =
    let nonempty = built_text-ne-nil names disable_names enable_label wanted in
    elim (List-cases (built_text names disable_names enable_label wanted)) [
      | inl e ↦ absurd (empty_ne e nonempty)
      | inr (c, cs, e) ↦ rw (e, filter_description) (trim_suffix-only_checking (c ∷ cs))
    ]
