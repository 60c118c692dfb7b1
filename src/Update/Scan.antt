-- ===== src/Update/Scan.antt =====
-- The part of Update of internal/actions/update.go that finds the stale containers.
pub mod Stale
use aether_supervisor.Prelude.{
  Text, lookup, any, text_eq, codes, map, Bool, true, false, ◌&&◌, ◌||◌, not, Option, none, some,
  List, [], ◌∷◌, if◌then◌else◌,
}
use aether_supervisor.Container.Data.{
  Container, id, image_id, set_stale, set_old_image_id, verify_configuration,
}
use aether_supervisor.Container.Identifier.{resolve_container_identifier}
use aether_supervisor.Container.Labels.{UpdateParams, is_watchtower}
use aether_supervisor.Container.ShortId.{config_error_text}
use aether_supervisor.Container.Client.{Client, Result, ok, err, parent}
use aether_supervisor.Session.Progress.{Progress, add_skipped, add_scanned}
use aether_supervisor.Update.Pinned.{is_pinned}
use aether_supervisor.Update.Select.{should_update_container, has_self_dependency}
use aether_supervisor.Update.Stop.{caused}

-- The loop that skips containers that depend on themselves.
unfoldable pub skip_self_dependencies : UpdateParams → List Container → Progress → Progress
unfolding has_self_dependency
skip_self_dependencies config [] progress = progress
skip_self_dependencies config (c ∷ cs) progress = skip_self_dependencies config cs (
    if has_self_dependency c
    then add_skipped c (some (codes "container has self-dependency")) config progress
    else progress)

abbrev pub circular_dependency : Text
circular_dependency = codes "circular dependency detected"

-- The loop that skips containers on a cycle.
unfoldable pub skip_cycles : UpdateParams → List Text → List Container → Progress → Progress
unfolding resolve_container_identifier
skip_cycles config cycles [] progress = progress
skip_cycles config cycles (c ∷ cs) progress = skip_cycles config cycles cs (
    if any (text_eq (resolve_container_identifier c)) cycles
    then add_skipped c (some circular_dependency) config progress
    else progress)

-- What the loop over the containers leaves, and the error of the context if it was cancelled.
pub record Scan : Type 0 where
  pub containers : List Container
  pub progress : Progress
  pub watchtower_pull_failed : Bool
  pub cancelled : Option Text

-- The error of the staleness check, or else that of the configuration of a container to update.
unfoldable pub update_error : Option Text → Bool → Container → Option Text
unfolding verify_configuration
update_error (some e) should_update c = some e
update_error none should_update c = elim should_update [
  | false ↦ none
  | true ↦ elim (verify_configuration c) [ none ↦ none | some e ↦ some (config_error_text e) ]
]

-- What is known of one container after its check.
pub record Checked : Type 0 where
  pub container : Container
  pub progress : Progress
  pub pull_failed : Bool

-- The entry for an answer of the staleness check.
unfoldable pub record_check :
    UpdateParams → Container → Progress → Bool × Text × Option Text → Checked
unfolding update_error should_update_container
record_check config c progress (stale, newest_image, failure) =
    let should_update = should_update_container stale c config in
    let tracked = if should_update then set_old_image_id (image_id c) c else c in
    elim (update_error failure should_update tracked) [
      | some e ↦ record {
        container = set_stale false tracked;
        progress = add_skipped tracked (some e) config progress;
        pull_failed = is_watchtower c && not config.skip_self_update;
      }
      | none ↦ record {
        container = set_stale (stale && should_update) tracked;
        progress = add_scanned tracked (if stale then newest_image else image_id c) config progress;
        pull_failed = false;
      }
    ]

module _ {W : Type 0} (client : Client W) (parse_docker_ref : Text → Result Bool)
    (config : UpdateParams) where
  -- The staleness check of a container whose image is not pinned.
  unfoldable pub check_stale : Container → Progress → W → Checked × W
  unfolding record_check
  check_stale c progress w =
      if is_watchtower c && config.skip_self_update
      then (record_check config c progress (false, image_id c, none), w)
      else (let (answer, w') = client.is_container_stale parent c config w in
          (record_check config c progress answer, w'))

  -- The body of the loop after the check of the context.
  unfoldable pub check_container : Container → Progress → W → Checked × W
  unfolding is_pinned check_stale
  check_container c progress w = elim (lookup (id c) progress) [
    | some _ ↦ (record { container = c; progress = progress; pull_failed = false }, w)
    | none ↦
        let (answer, progress') = is_pinned parse_docker_ref c progress config in
        elim answer [
          | err cause ↦ (
            record {
              container = c;
              progress =
                  add_skipped c (some (caused (codes "failed to parse image reference") cause))
                    config progress';
              pull_failed = false;
            },
            w,
          )
          | ok is_digested ↦
              if is_digested
              then (record { container = c; progress = progress'; pull_failed = false }, w)
              else check_stale c progress' w
        ]
  ]

  unfoldable pub scan : List Container → Progress → Bool → W → Scan × W
  unfolding check_container
  scan [] progress pull_failed w = (
    record {
      containers = [];
      progress = progress;
      watchtower_pull_failed = pull_failed;
      cancelled = none;
    },
    w,
  )
  scan (c ∷ cs) progress pull_failed w =
      let (stop, w') = client.context_error w in
      elim stop [
        | some e ↦ (
          record {
            containers = c ∷ cs;
            progress = progress;
            watchtower_pull_failed = pull_failed;
            cancelled = some e;
          },
          w',
        )
        | none ↦
            let (checked, w'') = check_container c progress w' in
            let (rest, end) = scan cs checked.progress (pull_failed || checked.pull_failed) w'' in
            (record rest { containers = checked.container ∷ rest.containers }, end)
      ]

-- The marks of stale containers, written to all containers. In the source the ones are the others,
-- as the filter keeps the pointers; here they are joined by the ID.
unfoldable pub propagate_stale : List Container → List Container → List Container
propagate_stale filtered =
    map (λ ac.
      if any (λ c. c.stale && text_eq (id c) (id ac)) filtered then set_stale true ac else ac)
