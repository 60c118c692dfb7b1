-- ===== src/Metrics/Scan.antt =====
-- The counts of one scan.
use aether_supervisor.Prelude.{
  List, ◌++◌, Permᴰ, suc, ◌+◌, ◌≡◌, refl, ap, ◌∙◌, arith, length, length-append,
}
use aether_supervisor.Session.Progress.{Progress}
use aether_supervisor.Session.Report.{Report, new_report}
use aether_supervisor.Session.Report.Partition.{outcomes, new_report_partition}
use aether_supervisor.Metrics.{new_metric}

length-perm {ℓ} : {A : Type ℓ} {xs ys : List A} → Permᴰ xs ys → length xs ≡ length ys
length-perm Permᴰ.nil = refl
length-perm (Permᴰ.cons e p) = ap suc (length-perm p)
length-perm (Permᴰ.swap e f) = refl
length-perm (Permᴰ.trans p q) = length-perm p ∙ length-perm q

length-outcomes :
    (r : Report)
    → length (outcomes r)
      ≡ length r.updated + length r.failed + length r.stale + length r.fresh + length r.restarted
length-outcomes r = omega (
  arith,
  length-append r.updated (r.failed ++ (r.stale ++ (r.fresh ++ r.restarted))),
  length-append r.failed (r.stale ++ (r.fresh ++ r.restarted)),
  length-append r.stale (r.fresh ++ r.restarted),
  length-append r.fresh r.restarted,
)

-- In the metric of a report of any progress map, the containers that were updated, failed or
-- restarted and those whose image is stale or fresh are together those that were scanned.
pub new_metric-new_report :
    (progress : Progress)
    → let r = (new_report progress).0 in
      let metric = new_metric r in
      metric.scanned
      ≡ metric.updated + metric.failed + length r.stale + length r.fresh + metric.restarted
unfolding new_metric
new_metric-new_report progress =
    length-perm (new_report_partition progress).0 ∙ length-outcomes (new_report progress).0
