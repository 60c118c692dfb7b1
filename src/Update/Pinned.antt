-- ===== src/Update/Pinned.antt =====
-- isPinned, parseReference, getFallbackImage and isInvalidImageName of internal/actions/update.go.
-- `parse_docker_ref` stands for reference.ParseDockerRef of the package reference: whether the
-- reference has a digest, or the text of the error.
use aether_supervisor.Prelude.{
  Text, codes, has_prefix, text_eq, Bool, ◌&&◌, ◌||◌, not, ◌++◌, if◌then◌else◌,
}
use aether_supervisor.Container.Data.{Container, name, image_id}
use aether_supervisor.Container.Identifier.{is_empty}
use aether_supervisor.Container.Labels.{UpdateParams, image_name}
use aether_supervisor.Container.Client.{Result, ok, err}
use aether_supervisor.Session.Progress.{Progress, add_scanned}

abbrev pub get_fallback_image : Container → Text
get_fallback_image c = name c ++ codes ":latest"

unfoldable pub is_invalid_image_name : Text → Bool
is_invalid_image_name t = is_empty t || (text_eq t (codes ":latest") || has_prefix t (codes ":"))

-- The name that is parsed first.
unfoldable pub reference_name : Container → Text
unfolding is_invalid_image_name image_name
reference_name c =
    let config_image = c.container_info.image in
    if not (is_invalid_image_name (image_name c))
    then image_name c
    else if not (is_empty config_image) && not (is_invalid_image_name config_image)
    then config_image
    else get_fallback_image c

module _ (parse_docker_ref : Text → Result Bool) where
  unfoldable pub parse_reference : Text → Result Bool
  parse_reference t = elim (parse_docker_ref t) [
    | ok is_digested ↦ ok is_digested
    | err cause ↦ err (codes "failed to parse image reference " ++ t ++ codes ": " ++ cause)
  ]

  -- The parse, with the fallback image where another name fails.
  unfoldable pub parse_or_fallback : Container → Text → Result Bool
  unfolding parse_reference
  parse_or_fallback c t = elim (parse_reference t) [
    | ok is_digested ↦ ok is_digested
    | err cause ↦
        if text_eq t (get_fallback_image c)
        then err cause
        else parse_reference (get_fallback_image c)
  ]

  -- Whether the image is pinned, or the error.
  unfoldable pub pinned : Container → Result Bool
  unfolding reference_name is_invalid_image_name parse_or_fallback
  pinned c =
      if is_invalid_image_name (reference_name c)
      then err (codes "invalid image reference")
      else parse_or_fallback c (reference_name c)

  unfoldable pub is_pinned : Container → Progress → UpdateParams → Result Bool × Progress
  unfolding pinned
  is_pinned c progress config = (
    pinned c,
    elim (pinned c) [
      | err _ ↦ progress
      | ok is_digested ↦
          if is_digested then add_scanned c (image_id c) config progress else progress
    ],
  )
