-- ===== src/Cleanup/Removal.antt =====
-- removeExcessContainers, RemoveImages and RemoveExcessWatchtowerInstances of
-- internal/actions/cleanup.go.
use aether_supervisor.Prelude.{
  Text, ℕ, zero, suc, ltb, length, Bool, true, false, ◌&&◌, ◌||◌, not, Option, none, some, List, [],
  ◌∷◌, ◌++◌, ◌-◌, text_eq, if◌then◌else◌,
}
use aether_supervisor.Container.Data.{Container, image_id}
use aether_supervisor.Container.Identifier.{is_empty}
use aether_supervisor.Container.Client.{Client, ok, err, parent}
use aether_supervisor.Filters.{no_filter}
use aether_supervisor.Update.Stop.{RemovedImageInfo, removed_image_info}
use aether_supervisor.Cleanup.Excess.{get_excess_containers}

-- The errors, with the numbers that their texts show.
pub data CleanupError : Type 0 where
  list_failed cancelled : Text → CleanupError
  stop_failed removal_failed : (failed total : ℕ) → CleanupError

-- How the attempts to remove a container end.
pub data Attempt : Type 0 where
  removed gone given_up : Attempt
  interrupted : Text → Attempt

abbrev pub max_removal_attempts : ℕ
max_removal_attempts = 3

-- What the loop over the containers has counted and collected.
pub record Tally : Type 0 where
  pub count : ℕ
  pub infos : List RemovedImageInfo
  pub interruption : Option Text

-- The images that were removed, and how many were not.
pub record Removed : Type 0 where
  pub images : List RemovedImageInfo
  pub failures : ℕ

-- The count of a container that was removed, and its image, if it is to be removed.
unfoldable pub count_removed : Bool → Option Container → Container → Bool → Tally → Tally
count_removed cleanup current c was_not_found t =
    let differs : Bool = elim current [
      | none ↦ false
      | some cur ↦ not (text_eq (image_id c) (image_id cur))
    ] in
    record t {
      count = suc t.count;
      infos =
          if cleanup && (differs && not was_not_found)
          then t.infos ++ removed_image_info c ∷ []
          else t.infos;
    }

module _ {W : Type 0} (client : Client W) where
  -- The removal of one image, and whether it failed. An image that is gone or in use is passed over.
  unfoldable pub remove_image : RemovedImageInfo → W → (Bool × Bool) × W
  remove_image image w =
      let (failure, w') = client.remove_image_by_id parent image.image_id image.image_name w in
      (
        elim failure [
          | none ↦ (true, false)
          | some e ↦ (false, not (e.is_not_found || e.is_conflict))
        ],
        w',
      )

  unfoldable pub remove_all : List RemovedImageInfo → Removed → W → Removed × W
  unfolding remove_image
  remove_all [] r w = (r, w)
  remove_all (image ∷ images) r w = elim (is_empty image.image_id) [
    | true ↦ remove_all images r w
    | false ↦
        let ((done, failed), w') = remove_image image w in
        remove_all images
          (record {
            images = if done then r.images ++ image ∷ [] else r.images;
            failures = if failed then suc r.failures else r.failures;
          })
          w'
  ]

  unfoldable pub remove_images :
      List RemovedImageInfo → W → (List RemovedImageInfo × Option CleanupError) × W
  unfolding remove_all
  remove_images images w =
      let (r, w') = remove_all images (record { images = []; failures = 0 }) w in
      (
        (
          r.images,
          if ltb 0 r.failures then some (removal_failed r.failures (length images)) else none,
        ),
        w',
      )

-- `retry_delay` stands for the wait before another attempt: its answer is the error of the context
-- where that is cancelled first.
module _ {W : Type 0} (client : Client W) (retry_delay : W → Option Text × W) where
  -- The attempts that are left.
  unfoldable pub attempt_removal : ℕ → Container → W → Attempt × W
  attempt_removal zero c w = (given_up, w)
  attempt_removal (suc n) c w =
      let (failure, w') = client.stop_and_remove_container parent c w in
      elim failure [
        | none ↦ (removed, w')
        | some e ↦ elim e.is_not_found [
          | true ↦ (gone, w')
          | false ↦ elim n [
            | zero ↦ (given_up, w')
            | suc _ ↦
                let (stop, w'') = retry_delay w' in
                elim stop [ some cause ↦ (interrupted cause, w'') | none ↦ attempt_removal n c w'' ]
          ]
        ]
      ]

  unfoldable pub remove_each : Bool → Option Container → List Container → Tally → W → Tally × W
  unfolding attempt_removal count_removed
  remove_each cleanup current [] t w = (t, w)
  remove_each cleanup current (c ∷ cs) t w =
      let (attempt, w') = attempt_removal max_removal_attempts c w in
      elim attempt [
        | removed ↦ remove_each cleanup current cs (count_removed cleanup current c false t) w'
        | gone ↦ remove_each cleanup current cs (count_removed cleanup current c true t) w'
        | given_up ↦ remove_each cleanup current cs t w'
        | interrupted cause ↦ (record t { interruption = some cause }, w')
      ]

  -- The number and the error, and the slice of the images, which is `none` where the source has a
  -- nil pointer to it. The error of the removal of the images is only logged.
  unfoldable pub remove_excess_containers :
      List Container
      → Bool
      → Option Container
      → Option (List RemovedImageInfo)
      → W
      → ((ℕ × Option CleanupError) × Option (List RemovedImageInfo)) × W
  unfolding remove_each remove_images
  remove_excess_containers excess cleanup current image_infos w =
      let collected : List RemovedImageInfo = elim image_infos [ none ↦ [] | some infos ↦ infos ] in
      let (t, w') =
        remove_each cleanup current excess
          (record { count = 0; infos = collected; interruption = none }) w in
      let written : List RemovedImageInfo → Option (List RemovedImageInfo) =
        λ infos. elim image_infos [ none ↦ none | some _ ↦ some infos ] in
      elim t.interruption [
        | some cause ↦ (((0, some (cancelled cause)), written t.infos), w')
        | none ↦
            let short = ltb t.count (length excess) in
            let infos = if short then [] else t.infos in
            let ((images, _), w'') =
              if cleanup then remove_images client infos w' else ((infos, none), w') in
            (
              (
                if short
                    then (0, some (stop_failed (length excess - t.count) (length excess)))
                    else (t.count, none),
                written images,
              ),
              w'',
            )
      ]

  unfoldable pub remove_excess_watchtower_instances :
      Bool
      → Text
      → Option (List RemovedImageInfo)
      → Option Container
      → W
      → ((ℕ × Option CleanupError) × Option (List RemovedImageInfo)) × W
  unfolding remove_excess_containers get_excess_containers
  remove_excess_watchtower_instances cleanup scope image_infos current w =
      let (listed, w') = client.list_containers (some no_filter) w in
      elim listed [
        | err e ↦ (((0, some (list_failed e)), image_infos), w')
        | ok all_containers ↦ elim (get_excess_containers scope current all_containers) [
          | [] ↦ (((0, none), image_infos), w')
          | c ∷ cs ↦ remove_excess_containers (c ∷ cs) cleanup current image_infos w'
        ]
      ]
