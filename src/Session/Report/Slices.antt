-- ===== src/Session/Report/Slices.antt =====
-- Which statuses of the progress map each slice of NewReport's report lists.
use aether_supervisor.Prelude.{
  text_eq, keep, map, Bool, true, not, ◌&&◌, List, [], ◌∷◌, ◌≡◌, refl, arith, ap, Bool-cases, inl,
  inr,
}
use aether_supervisor.Session.Status.{ContainerStatus, State}
use aether_supervisor.Session.Progress.{Progress, statuses, is_restarted, mark, restarted}
use aether_supervisor.Session.Report.{is_skipped, sort_reports, sort_categories, new_report}
use aether_supervisor.Session.Report.Settled.{
  state_eq, settle, settled_state, select, in_state, new_report_lem,
}

abbrev pub changed : State → ContainerStatus → Bool
changed state u = state_eq state u.state && not (text_eq u.new_image u.old_image)

settle-changed :
    (u : ContainerStatus)
    → (state_eq State.updated (settle u).state ≡ changed State.updated u)
      × (state_eq State.failed (settle u).state ≡ changed State.failed u)
      × (state_eq State.skipped (settle u).state ≡ is_skipped u.state)
      × (state_eq State.restarted (settle u).state ≡ is_restarted u.state)
unfolding settle settled_state
settle-changed u = ground arith

settled_kept :
    (s : State) (same_image : Bool)
    → ((state_eq State.updated s && not same_image) ≡ true → settled_state s same_image ≡ s)
      × ((state_eq State.failed s && not same_image) ≡ true → settled_state s same_image ≡ s)
      × (is_skipped s ≡ true → settled_state s same_image ≡ s)
      × (is_restarted s ≡ true → settled_state s same_image ≡ s)
unfolding settled_state
settled_kept s same_image = (ground arith, ground arith, ground arith, ground arith)

settle_kept :
    (u : ContainerStatus)
    → settled_state u.state (text_eq u.new_image u.old_image) ≡ u.state
    → settle u ≡ u
unfolding settle
settle_kept u e = ap (λ s. mark s u) e

keep-settle :
    (final : State) (p : ContainerStatus → Bool)
    → ((u : ContainerStatus) → state_eq final (settle u).state ≡ p u)
    → ((u : ContainerStatus) → p u ≡ true → settle u ≡ u)
    → (us : List ContainerStatus) → in_state final (map settle us) ≡ keep p us
keep-settle _ p flag kept [] = refl
keep-settle _ p flag kept (u ∷ us) =
    let rest = keep-settle _ p flag kept us in
    elim (Bool-cases (p u)) [
      | inl e ↦ rw (flag u, e, kept u e, rest) refl
      | inr e ↦ rw (flag u, e) rest
    ]

-- The updated and the failed slice list the statuses that are marked so and whose image changed,
-- the skipped slice those that are marked skipped, and the restarted slice what Restarted returns,
-- each as the map has them, sorted.
pub new_report_slices :
    (m : Progress)
    → let r = (new_report m).0 in
      (r.updated ≡ sort_reports (keep (changed State.updated) (statuses m)))
      × (r.failed ≡ sort_reports (keep (changed State.failed) (statuses m)))
      × (r.skipped ≡ sort_reports (keep (λ u. is_skipped u.state) (statuses m)))
      × (r.restarted ≡ sort_reports (restarted m))
unfolding sort_categories select restarted
new_report_slices m =
    let slice =
      λ (state : State) (p : ContainerStatus → Bool)
          (flag : (u : ContainerStatus) → state_eq state (settle u).state ≡ p u)
          (kept : (u : ContainerStatus) → p u ≡ true → settle u ≡ u).
        ap sort_reports (keep-settle state p flag kept (statuses m)) in
    rw (new_report_lem m) (
      slice State.updated (changed State.updated) (λ u. (settle-changed u).0)
          (λ u h. settle_kept u ((settled_kept u.state _).0 h)),
      slice State.failed (changed State.failed) (λ u. (settle-changed u).1)
          (λ u h. settle_kept u ((settled_kept u.state _).1 h)),
      slice State.skipped (λ u. is_skipped u.state) (λ u. (settle-changed u).2)
          (λ u h. settle_kept u ((settled_kept u.state _).2 h)),
      slice State.restarted (λ u. is_restarted u.state) (λ u. (settle-changed u).3)
          (λ u h. settle_kept u ((settled_kept u.state _).3 h)),
    )
