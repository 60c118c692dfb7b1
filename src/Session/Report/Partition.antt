-- ===== src/Session/Report/Partition.antt =====
-- How the slices of a report share the containers out.
use mathlib.Core.List.Permᴰ
use aether_supervisor.Prelude.{
  text_eq, text_order, sort_by-perm, All, map, Permᴰ, Bool, true, false, List, [], ◌∷◌, ◌++◌, ◌≡◌,
  refl, arith,
}
use aether_supervisor.Session.Status.{ContainerStatus, State}
use aether_supervisor.Session.Progress.{Progress, statuses}
use aether_supervisor.Session.Report.{Report, new_report, sort_reports, sort_categories}
use aether_supervisor.Session.Report.Settled.{
  settle, settled_state, select, not_skipped, in_state, new_report_lem,
}

-- The slices that a container which is not skipped can go to.
abbrev pub outcomes : Report → List ContainerStatus
outcomes r = r.updated ++ (r.failed ++ (r.stale ++ (r.fresh ++ r.restarted)))

under {ℓ} :
    {A : Type ℓ} (a : A) (xs : List A) {ys zs : List A}
    → Permᴰ (a ∷ ys) zs
    → Permᴰ (a ∷ (xs ++ ys)) (xs ++ zs)
under a xs h = Permᴰ.trans (Permᴰ.symm (Permᴰ.middle a xs _)) (Permᴰ.append_left xs h)

abbrev IsSettled : State → Type 0
IsSettled State.unknown = ⊥
IsSettled State.scanned = ⊥
IsSettled _ = Unit

settled_state-IsSettled : (s : State) (same_image : Bool) → IsSettled (settled_state s same_image)
unfolding settled_state
settled_state-IsSettled s true = ground arith
settled_state-IsSettled s false = ground arith

settle-IsSettled : (us : List ContainerStatus) → All (λ u. IsSettled u.state) (map settle us)
unfolding settle
settle-IsSettled [] = tt
settle-IsSettled (u ∷ us) =
    (settled_state-IsSettled u.state (text_eq u.new_image u.old_image), settle-IsSettled us)

abbrev Parts : List ContainerStatus → Type 0
Parts us =
    Permᴰ (not_skipped us) (outcomes (select us))
    × Permᴰ (not_skipped us ++ in_state State.skipped us) us

Parts-cons :
    (u : ContainerStatus) (us : List ContainerStatus) (s : State)
    → u.state ≡ s
    → IsSettled s
    → Parts us
    → Parts (u ∷ us)
unfolding select
Parts-cons u us State.unknown e i h = absurd i
Parts-cons u us State.scanned e i h = absurd i
Parts-cons u us State.skipped e i h =
    simp e (h.0, Permᴰ.trans (Permᴰ.middle u (not_skipped us) _) (Permᴰ.cons refl h.1))
Parts-cons u us State.updated e i h = simp e (Permᴰ.cons refl h.0, Permᴰ.cons refl h.1)
Parts-cons u us State.failed e i h =
    let r = select us in
    simp e
      (Permᴰ.trans (Permᴰ.cons refl h.0) (under u r.updated (Permᴰ.refl _)), Permᴰ.cons refl h.1)
Parts-cons u us State.stale e i h =
    let r = select us in
    simp e (
      Permᴰ.trans (Permᴰ.cons refl h.0) (under u r.updated (under u r.failed (Permᴰ.refl _))),
      Permᴰ.cons refl h.1,
    )
Parts-cons u us State.fresh e i h =
    let r = select us in
    simp e (
      Permᴰ.trans (Permᴰ.cons refl h.0)
          (under u r.updated (under u r.failed (under u r.stale (Permᴰ.refl _)))),
      Permᴰ.cons refl h.1,
    )
Parts-cons u us State.restarted e i h =
    let r = select us in
    simp e (
      Permᴰ.trans (Permᴰ.cons refl h.0)
          (under u r.updated (under u r.failed (under u r.stale (under u r.fresh (Permᴰ.refl _))))),
      Permᴰ.cons refl h.1,
    )

Parts-of_settled : (us : List ContainerStatus) → All (λ u. IsSettled u.state) us → Parts us
unfolding select
Parts-of_settled [] h = (Permᴰ.nil, Permᴰ.nil)
Parts-of_settled (u ∷ us) h = Parts-cons u us u.state refl h.0 (Parts-of_settled us h.1)

-- Sorting each of two lists, or a list and the parts of an append, keeps a permutation.
sorted_perm : {us vs : List ContainerStatus} → Permᴰ us vs → Permᴰ (sort_reports us) vs
sorted_perm h = Permᴰ.trans (sort_by-perm text_order (λ u. u.container_id) _) h

sort_append :
    (us : List ContainerStatus) {vs ws : List ContainerStatus}
    → Permᴰ vs ws
    → Permᴰ (us ++ vs) (sort_reports us ++ ws)
sort_append us {vs} h =
    Permᴰ.trans (Permᴰ.append_right vs (Permᴰ.symm (sorted_perm (Permᴰ.refl us))))
      (Permᴰ.append_left (sort_reports us) h)

-- In a report of any progress map the scanned slice holds the containers of the updated, failed,
-- stale, fresh and restarted slices, each once, and with the skipped slice it holds the settled
-- statuses of the map.
pub new_report_partition :
    (m : Progress)
    → Permᴰ (new_report m).0.scanned (outcomes (new_report m).0)
      × Permᴰ ((new_report m).0.scanned ++ (new_report m).0.skipped) (map settle (statuses m))
unfolding sort_categories select
new_report_partition m =
    let us = map settle (statuses m) in
    let r = select us in
    let (parts, all) = Parts-of_settled us (settle-IsSettled (statuses m)) in
    let last = Permᴰ.symm (sorted_perm (Permᴰ.refl r.restarted)) in
    let sorted_parts =
      sort_append r.updated
        (sort_append r.failed (sort_append r.stale (sort_append r.fresh last))) in
    let skipped = sorted_perm (Permᴰ.refl r.skipped) in
    let both =
      Permᴰ.trans (Permᴰ.append_left (sort_reports r.scanned) skipped)
        (Permᴰ.append_right r.skipped (sorted_perm (Permᴰ.refl r.scanned))) in
    rw new_report_lem (sorted_perm (Permᴰ.trans parts sorted_parts), Permᴰ.trans both all)
