-- ===== src/Session/Report/Settled.antt =====
-- What NewReport does, said without its loop: each status settles by itself, and each slice is
-- what its final state selects.
use aether_supervisor.Prelude.{
  text_eq, keep, map, Bool, true, false, not, List, [], ◌∷◌, ◌++◌, ◌≡◌, arith, append-nil,
  append_assoc,
}
use aether_supervisor.Session.Status.{ContainerStatus, State}
use aether_supervisor.Session.Progress.{Progress, statuses, mark}
use aether_supervisor.Session.Report.{
  Report, is_skipped, switch_state, categorize_container, categorize_all, sort_categories,
  new_report, empty_report,
}

abbrev pub state_eq : State → State → Bool
state_eq State.unknown State.unknown = true
state_eq State.skipped State.skipped = true
state_eq State.scanned State.scanned = true
state_eq State.updated State.updated = true
state_eq State.failed State.failed = true
state_eq State.fresh State.fresh = true
state_eq State.stale State.stale = true
state_eq State.restarted State.restarted = true
state_eq _ _ = false

-- The state that a status ends in: a skipped or restarted one keeps its state, one whose image is
-- unchanged is fresh, and one that was neither updated nor failed is stale.
unfoldable pub settled_state : State → Bool → State
settled_state State.skipped same_image = State.skipped
settled_state State.restarted same_image = State.restarted
settled_state s true = State.fresh
settled_state State.updated false = State.updated
settled_state State.failed false = State.failed
settled_state s false = State.stale

unfoldable pub settle : ContainerStatus → ContainerStatus
unfolding settled_state
settle u = mark (settled_state u.state (text_eq u.new_image u.old_image)) u

abbrev pub in_state : State → List ContainerStatus → List ContainerStatus
in_state state = keep (λ u. state_eq state u.state)

abbrev pub not_skipped : List ContainerStatus → List ContainerStatus
not_skipped = keep (λ u. not (is_skipped u.state))

-- The report that selects from a list of statuses, which have settled.
unfoldable pub select : List ContainerStatus → Report
select us = record {
  scanned = not_skipped us;
  updated = in_state State.updated us;
  failed = in_state State.failed us;
  skipped = in_state State.skipped us;
  stale = in_state State.stale us;
  fresh = in_state State.fresh us;
  restarted = in_state State.restarted us;
}

-- One report behind another, slice by slice.
join : Report → Report → Report
join r s = record {
  scanned = r.scanned ++ s.scanned;
  updated = r.updated ++ s.updated;
  failed = r.failed ++ s.failed;
  skipped = r.skipped ++ s.skipped;
  stale = r.stale ++ s.stale;
  fresh = r.fresh ++ s.fresh;
  restarted = r.restarted ++ s.restarted;
}

categorize_container_lem :
    (r : Report) (u : ContainerStatus)
    → categorize_container r u ≡ (join r (select (settle u ∷ [])), settle u)
unfolding categorize_container switch_state join select settle settled_state
categorize_container_lem r u = ground (
  arith,
  append-nil r.scanned,
  append-nil r.updated,
  append-nil r.failed,
  append-nil r.skipped,
  append-nil r.stale,
  append-nil r.fresh,
  append-nil r.restarted,
)

join_assoc : (r s t : Report) → join (join r s) t ≡ join r (join s t)
unfolding join
join_assoc r s t = simp append_assoc

join-select_cons :
    (u : ContainerStatus) (us : List ContainerStatus)
    → join (select (u ∷ [])) (select us) ≡ select (u ∷ us)
unfolding join select
join-select_cons u us = ground arith

join_nil : (r : Report) → join r (select []) ≡ r
unfolding join select
join_nil r = simp append-nil

settle_all : Progress → Progress
unfolding settle
settle_all [] = []
settle_all ((k, u) ∷ m) = (k, settle u) ∷ settle_all m

-- The loop puts what `select` selects behind what it starts with, and settles each entry.
categorize_all_lem :
    (r : Report) (m : Progress)
    → categorize_all r m ≡ (join r (select (map settle (statuses m))), settle_all m)
unfolding categorize_all settle_all
categorize_all_lem r [] = rw join_nil
categorize_all_lem r ((k, u) ∷ m) = rw (
  categorize_container_lem r u,
  categorize_all_lem (join r (select (settle u ∷ []))) m,
  join_assoc,
  join-select_cons,
)

-- NewReport selects each slice by the settled state, and sorts it.
pub new_report_lem :
    (m : Progress) → (new_report m).0 ≡ sort_categories (select (map settle (statuses m)))
unfolding new_report join
new_report_lem m = rw (categorize_all_lem empty_report m)
