-- ===== src/Container/ShortId.antt =====
-- ShortID of pkg/types/container.go, and the errors of pkg/container/errors.go that a check of the
-- configuration gives.
use aether_supervisor.Prelude.{
  Text, ℕ, suc, ◌+◌, leb, length, text_eq, codes, Option, none, some, [], ◌∷◌, if◌then◌else◌, ◌==◌,
  take, drop,
}
use aether_supervisor.Container.Data.{ConfigError, no_image_info, invalid_config}

-- strings.IndexRune, for a rune of one byte
abbrev pub index_rune : Text → ℕ → Option ℕ
index_rune [] b = none
index_rune (c ∷ s) b =
    let rest = index_rune s b in
    if c == b then some 0 else elim rest [ none ↦ none | some i ↦ some (suc i) ]

-- The slice from an offset, or the whole text where it is too short.
abbrev pub slice_or_all : Text → ℕ → ℕ → Text
slice_or_all s offset len = if leb (offset + len) (length s) then take len (drop offset s) else s

unfoldable pub short_id : Text → Text
short_id long_id = elim (index_rune long_id b':') [
  | none ↦ slice_or_all long_id 0 12
  | some prefix_sep ↦
      if text_eq (take prefix_sep long_id) (codes "sha256")
      then slice_or_all long_id (suc prefix_sep) 12
      else slice_or_all long_id 0 (12 + suc prefix_sep)
]

abbrev pub config_error_text : ConfigError → Text
config_error_text no_image_info = codes "no image info available"
config_error_text invalid_config = codes "invalid container configuration"
