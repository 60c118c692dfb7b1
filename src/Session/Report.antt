-- ===== src/Session/Report.antt =====
-- pkg/session/report.go. The slices of a report hold pointers into the progress map, so a status
-- whose state the loop rewrites shows the new state in every slice and in the map.
pub mod Settled
pub mod Partition
pub mod Order
pub mod All
pub mod Listing
pub mod Slices
use aether_supervisor.Prelude.{
  Text, text_eq, sort_by, text_order, any, Bool, true, false, not, ◌&&◌, List, [], ◌∷◌, ◌++◌,
  if◌then◌else◌,
}
use aether_supervisor.Session.Status.{ContainerStatus, State}
use aether_supervisor.Session.Progress.{Progress, is_restarted, mark}

pub record Report : Type 0 where
  pub scanned : List ContainerStatus
  pub updated : List ContainerStatus
  pub failed : List ContainerStatus
  pub skipped : List ContainerStatus
  pub stale : List ContainerStatus
  pub fresh : List ContainerStatus
  pub restarted : List ContainerStatus

abbrev pub empty_report : Report
empty_report = record {
  scanned = [];
  updated = [];
  failed = [];
  skipped = [];
  stale = [];
  fresh = [];
  restarted = [];
}

abbrev pub is_skipped : State → Bool
is_skipped State.skipped = true
is_skipped _ = false

-- The `switch` of categorizeContainer, with the element that the scanned slice has got before it.
switch_state : State → Report → ContainerStatus → Report × ContainerStatus
switch_state State.updated r u =
    (record r { scanned = r.scanned ++ u ∷ []; updated = r.updated ++ u ∷ [] }, u)
switch_state State.failed r u =
    (record r { scanned = r.scanned ++ u ∷ []; failed = r.failed ++ u ∷ [] }, u)
switch_state State.stale r u =
    (record r { scanned = r.scanned ++ u ∷ []; stale = r.stale ++ u ∷ [] }, u)
switch_state State.restarted r u =
    (record r { scanned = r.scanned ++ u ∷ []; restarted = r.restarted ++ u ∷ [] }, u)
switch_state _ r u =
    let u' = mark State.stale u in
    (record r { scanned = r.scanned ++ u' ∷ []; stale = r.stale ++ u' ∷ [] }, u')

-- The report with the status in it, and the status as the call leaves it.
categorize_container : Report → ContainerStatus → Report × ContainerStatus
unfolding switch_state
categorize_container r u =
    let same = mark State.fresh u in
    if is_skipped u.state
    then (record r { skipped = r.skipped ++ u ∷ [] }, u)
    else if text_eq u.new_image u.old_image && not (is_restarted u.state)
    then (record r { scanned = r.scanned ++ same ∷ []; fresh = r.fresh ++ same ∷ [] }, same)
    else switch_state u.state r u

-- The loop of NewReport over the map.
categorize_all : Report → Progress → Report × Progress
unfolding categorize_container
categorize_all r [] = (r, [])
categorize_all r ((k, u) ∷ m) =
    let (r', u') = categorize_container r u in
    let (end, m') = categorize_all r' m in (end, (k, u') ∷ m')

-- sort.Sort(SortableContainers(...))
abbrev pub sort_reports : List ContainerStatus → List ContainerStatus
sort_reports = sort_by text_order (λ u. u.container_id)

unfoldable pub sort_categories : Report → Report
sort_categories r = record {
  scanned = sort_reports r.scanned;
  updated = sort_reports r.updated;
  failed = sort_reports r.failed;
  skipped = sort_reports r.skipped;
  stale = sort_reports r.stale;
  fresh = sort_reports r.fresh;
  restarted = sort_reports r.restarted;
}

-- The report, and the progress map with the states that the loop wrote.
unfoldable pub new_report : Progress → Report × Progress
unfolding categorize_all sort_categories
new_report progress =
    let (r, progress') = categorize_all empty_report progress in (sort_categories r, progress')

-- The closure appendUnique, over the variables that it captures: `all`, and the keys of
-- `presentIDs`.
append_unique :
    List ContainerStatus → List ContainerStatus × List Text → List ContainerStatus × List Text
append_unique [] s = s
append_unique (r ∷ reports) (all, present) = append_unique reports (
    if any (text_eq r.container_id) present
    then (all, present)
    else (all ++ r ∷ [], r.container_id ∷ present))

unfoldable pub all_from_slices : Report → List ContainerStatus
unfolding append_unique
all_from_slices r =
    sort_reports
      (append_unique r.scanned (
        append_unique r.fresh (
          append_unique r.stale (
            append_unique r.skipped (
              append_unique r.failed
                (append_unique r.restarted (append_unique r.updated ([], [])))))))).0
