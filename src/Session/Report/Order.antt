-- ===== src/Session/Report/Order.antt =====
-- Go leaves the order open in which NewReport's loop visits the map.
use mathlib.Core.List.Permᴰ
use aether_supervisor.Prelude.{
  Text, text_order, Distinct, sort_by-perm_eq, Distinct-keep, keep, keep-perm, Permᴰ, Bool, List,
  not, ◌≡◌, ap,
}
use aether_supervisor.Session.Status.{ContainerStatus, State}
use aether_supervisor.Session.Progress.{Progress, statuses}
use aether_supervisor.Session.Progress.Keyed.{IsKeyed, settled-Distinct}
use aether_supervisor.Session.Report.{is_skipped, new_report, sort_reports, sort_categories}
use aether_supervisor.Session.Report.Settled.{settle, select, state_eq, new_report_lem}

statuses-perm : {m n : Progress} → Permᴰ m n → Permᴰ (statuses m) (statuses n)
statuses-perm Permᴰ.nil = Permᴰ.nil
statuses-perm (Permᴰ.cons e h) =
    Permᴰ.cons (ap (λ (x : Text × ContainerStatus). x.1) e) (statuses-perm h)
statuses-perm (Permᴰ.swap e f) =
    Permᴰ.swap (ap (λ (x : Text × ContainerStatus). x.1) e)
      (ap (λ (x : Text × ContainerStatus). x.1) f)
statuses-perm (Permᴰ.trans h k) = Permᴰ.trans (statuses-perm h) (statuses-perm k)

module _ {us vs : List ContainerStatus} (same : Permᴰ us vs)
    (distinct : Distinct (λ u. u.container_id) us) where
  slice_eq : (p : ContainerStatus → Bool) → sort_reports (keep p us) ≡ sort_reports (keep p vs)
  slice_eq p =
      sort_by-perm_eq text_order (λ u. u.container_id) (keep-perm p same)
        (Distinct-keep (λ u. u.container_id) p us distinct)

  sorted_select_eq : sort_categories (select us) ≡ sort_categories (select vs)
  unfolding sort_categories select
  sorted_select_eq = λ i. record {
    scanned = slice_eq (λ u. not (is_skipped u.state)) i;
    updated = slice_eq (λ u. state_eq State.updated u.state) i;
    failed = slice_eq (λ u. state_eq State.failed u.state) i;
    skipped = slice_eq (λ u. state_eq State.skipped u.state) i;
    stale = slice_eq (λ u. state_eq State.stale u.state) i;
    fresh = slice_eq (λ u. state_eq State.fresh u.state) i;
    restarted = slice_eq (λ u. state_eq State.restarted u.state) i;
  }

-- Two progress maps with the same entries give the same report, whatever order their entries are
-- visited in, if the map is keyed by the IDs of its statuses.
pub new_report_order :
    (m n : Progress) → Permᴰ m n → IsKeyed m → (new_report m).0 ≡ (new_report n).0
new_report_order m n p h =
    rw (new_report_lem m, new_report_lem n)
      (sorted_select_eq (Permᴰ.map settle (statuses-perm p)) (settled-Distinct m h))
