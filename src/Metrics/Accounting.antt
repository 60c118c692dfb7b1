-- ===== src/Metrics/Accounting.antt =====
-- Where the registered metrics are, in every state that can be reached.
use aether_supervisor.Prelude.{
  Option, none, some, List, [], ◌∷◌, ◌++◌, ltb, ℕ, ◌+◌, ◌≤◌, ◌≡◌, refl, ap, arith, length,
  length-append, Bool-cases, inl, inr,
}
use aether_supervisor.Metrics.{Metric, Metrics, Reached, capacity, register, handle_change}

-- The restarts that the metrics of a list report.
abbrev pub restarts : List (Option Metric) → ℕ
restarts [] = 0
restarts (none ∷ metrics) = restarts metrics
restarts (some metric ∷ metrics) = metric.restarted + restarts metrics

restarts-append : (xs ys : List (Option Metric)) → restarts (xs ++ ys) ≡ restarts xs + restarts ys
restarts-append [] ys = omega arith
restarts-append (none ∷ xs) ys = restarts-append xs ys
restarts-append (some x ∷ xs) ys = omega (arith, restarts-append xs ys)

-- Every registration is handled, queued or dropped; the queue keeps within its room; and the
-- restarts counted and queued are no more than those registered, and exactly those if nothing
-- has been dropped.
pub record IsAccounted (registrations : List (Option Metric)) (m : Metrics) : Type 0 where
  pub counted : m.total + length m.channel + m.dropped ≡ length registrations
  pub bounded : length m.channel ≤ capacity
  pub skips : m.skipped ≤ m.total
  pub restarted : m.restarted_total + restarts m.channel ≤ restarts registrations
  pub exact : m.dropped ≡ 0 → m.restarted_total + restarts m.channel ≡ restarts registrations

register-IsAccounted :
    (registrations : List (Option Metric)) (m : Metrics) (metric : Option Metric)
    → IsAccounted registrations m
    → IsAccounted (registrations ++ metric ∷ []) (register metric m)
unfolding register
register-IsAccounted xs m metric h =
    let longer = length-append xs (metric ∷ []) in
    let queued = length-append m.channel (metric ∷ []) in
    let more = restarts-append xs (metric ∷ []) in
    let waiting = restarts-append m.channel (metric ∷ []) in
    elim (Bool-cases (ltb (length m.channel) capacity)) [
      | inl room ↦ rw room (record {
        counted = omega (arith, longer, queued, h.counted);
        bounded = ground (arith, queued);
        skips = h.skips;
        restarted = omega (arith, more, waiting, h.restarted);
        exact = λ e. omega (arith, more, waiting, h.exact e);
      })
      | inr full ↦ rw full (record {
        counted = omega (arith, longer, h.counted);
        bounded = h.bounded;
        skips = h.skips;
        restarted = omega (arith, more, h.restarted);
        exact = λ e. absurd (omega arith);
      })
    ]

handle_change-IsAccounted :
    (registrations : List (Option Metric)) (m : Metrics) (change : Option Metric)
    (rest : List (Option Metric))
    → m.channel ≡ change ∷ rest
    → IsAccounted registrations m
    → IsAccounted registrations (handle_change change (record m { channel = rest }))
unfolding handle_change
handle_change-IsAccounted xs m none rest e h =
    let shorter = ap length e in
    let same = ap restarts e in
    record {
      counted = omega (arith, shorter, h.counted);
      bounded = omega (arith, shorter, h.bounded);
      skips = omega (arith, h.skips);
      restarted = omega (arith, same, h.restarted);
      exact = λ z. omega (arith, same, h.exact z);
    }
handle_change-IsAccounted xs m (some change) rest e h =
    let shorter = ap length e in
    let same = ap restarts e in
    record {
      counted = omega (arith, shorter, h.counted);
      bounded = omega (arith, shorter, h.bounded);
      skips = omega (arith, h.skips);
      restarted = omega (arith, same, h.restarted);
      exact = λ z. omega (arith, same, h.exact z);
    }

-- In every state that registering and handling can reach, in any interleaving, every registration
-- is handled, queued or dropped; the queue keeps within its room; and the restarts counted and
-- queued are at most those registered, and exactly those if nothing has been dropped.
pub Reached-IsAccounted :
    (registrations : List (Option Metric)) (m : Metrics)
    → Reached registrations m
    → IsAccounted registrations m
Reached-IsAccounted _ _ Reached.started = record {
  counted = refl;
  bounded = omega arith;
  skips = omega arith;
  restarted = omega arith;
  exact = λ _. refl;
}
Reached-IsAccounted _ _ (Reached.registered {registrations = xs} {m} metric r) =
    register-IsAccounted xs m metric (Reached-IsAccounted xs m r)
Reached-IsAccounted _ _ (Reached.handled {registrations = xs} {m} change rest e r) =
    handle_change-IsAccounted xs m change rest e (Reached-IsAccounted xs m r)
