-- ===== src/Session/Report/Listing.antt =====
-- Report.All of a report that NewReport made.
use mathlib.Core.List.Permᴰ
use mathlib.Core.List.Memᴰ.{append_left, append_right}
use aether_supervisor.Prelude.{
  text_order, Ascending-unique, Distinct, text_eq, sort_by-perm, sort_by-Ascending, keep, mem-keep,
  mem-keep_of, All, All-append, All-mem, All-of_mem, Permᴰ-mem, Memᴰ, map, Bool, true, not,
  Bool-cases, some, List, [], ◌∷◌, inl, inr, ◌≡◌, arith, text_eq_refl,
}
use aether_supervisor.Session.Status.{ContainerStatus, State}
use aether_supervisor.Session.Progress.{Progress, statuses}
use aether_supervisor.Session.Progress.Keyed.{IsKeyed, settled-Distinct}
use aether_supervisor.Session.Report.{
  Report, is_skipped, new_report, sort_reports, sort_categories, all_from_slices,
}
use aether_supervisor.Session.Report.Settled.{settle, select, state_eq, new_report_lem}
use aether_supervisor.Session.Report.All.{
  all_from_slices_lem, by_priority, first_with, mem_of_first_with, first_with_of_mem,
}

module _ (us : List ContainerStatus) where
  slice-mem :
      (p : ContainerStatus → Bool) {u : ContainerStatus}
      → Memᴰ u us
      → p u ≡ true
      → Memᴰ u (sort_reports (keep p us))
  slice-mem p m h =
      Permᴰ-mem (Permᴰ.symm (sort_by-perm text_order (λ u. u.container_id) _)) (mem-keep_of p m h)

  slice-All : (p : ContainerStatus → Bool) → All (λ u. Memᴰ u us) (sort_reports (keep p us))
  slice-All p =
      All-of_mem (λ u. Memᴰ u us) _
        (λ u m. (mem-keep p us (Permᴰ-mem (sort_by-perm text_order (λ u. u.container_id) _) m)).0)

  abbrev sorted : Report
  sorted = sort_categories (select us)

  from_priority : All (λ u. Memᴰ u us) (by_priority sorted)
  unfolding sort_categories select
  from_priority =
      let join =
        λ (xs ys : List ContainerStatus) (hx : All (λ u. Memᴰ u us) xs)
            (hy : All (λ u. Memᴰ u us) ys).
          All-append (λ u. Memᴰ u us) xs ys hx hy in
      join _ _ (slice-All (λ u. state_eq State.updated u.state)) (
        join _ _ (slice-All (λ u. state_eq State.restarted u.state)) (
          join _ _ (slice-All (λ u. state_eq State.failed u.state)) (
            join _ _ (slice-All (λ u. state_eq State.skipped u.state)) (
              join _ _ (slice-All (λ u. state_eq State.stale u.state)) (
                join _ _ (slice-All (λ u. state_eq State.fresh u.state))
                  (slice-All (λ u. not (is_skipped u.state))))))))

  to_priority : {u : ContainerStatus} → Memᴰ u us → Memᴰ u (by_priority sorted)
  unfolding sort_categories select
  to_priority {u} m = elim (Bool-cases (is_skipped u.state)) [
    | inl h ↦
        let r = sorted in
        let here = slice-mem (λ u. state_eq State.skipped u.state) m (ground arith) in
        append_right r.updated
          (append_right r.restarted (append_right r.failed (append_left _ here)))
    | inr h ↦
        let r = sorted in
        let here = slice-mem (λ u. not (is_skipped u.state)) m (ground arith) in
        append_right r.updated (
          append_right r.restarted (
            append_right r.failed
              (append_right r.skipped (append_right r.stale (append_right r.fresh here)))))
  ]

first_with-some :
    (us : List ContainerStatus) {u : ContainerStatus}
    → Memᴰ u us
    → (v : ContainerStatus) × (first_with u.container_id us ≡ some v)
first_with-some [] m = elim m [ ]
first_with-some (v ∷ us) (Memᴰ.head e) = (v, ground (arith, text_eq_refl v.container_id))
first_with-some (v ∷ us) {u} (Memᴰ.tail m) =
    elim (Bool-cases (text_eq u.container_id v.container_id)) [
      | inl same ↦ (v, rw same)
      | inr other ↦ let (w, e) = first_with-some us m in (w, rw other e)
    ]

-- The status that stands first under the ID of a given one is that one.
first_with_priority :
    (us : List ContainerStatus) {u : ContainerStatus}
    → Distinct (λ u. u.container_id) us
    → Memᴰ u us
    → first_with u.container_id (by_priority (sorted us)) ≡ some u
first_with_priority us {u} d m =
    let (v, e) = first_with-some (by_priority (sorted us)) (to_priority us m) in
    let (found, same) = mem_of_first_with u.container_id _ e in
    let m' = All-mem (λ u. Memᴰ u us) found (from_priority us) in
    let e' : first_with u.container_id us ≡ some v = rw (← same) (first_with_of_mem us d m') in
    cc (first_with_of_mem us d m)

-- The list of all containers of a report holds each settled status of the progress map once, in
-- the order of the IDs, if the map is keyed by the IDs of its statuses.
pub all_from_slices-new_report :
    (m : Progress)
    → IsKeyed m
    → all_from_slices (new_report m).0 ≡ sort_reports (map settle (statuses m))
all_from_slices-new_report m h =
    let us = map settle (statuses m) in
    let d = settled-Distinct m h in
    let (ascending, listed) = all_from_slices_lem (sorted us) in
    let p = sort_by-perm text_order (λ u. u.container_id) us in
    rw (new_report_lem m) (
      Ascending-unique text_order (λ u. u.container_id) _ _ ascending
        (sort_by-Ascending text_order (λ u. u.container_id) us d)
        (λ u n.
          let (found, _) = mem_of_first_with u.container_id _ ((listed u).0 n) in
          Permᴰ-mem (Permᴰ.symm p) (All-mem (λ u. Memᴰ u us) found (from_priority us)))
        (λ u n. (listed u).1 (first_with_priority us d (Permᴰ-mem p n))))
