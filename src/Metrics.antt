-- ===== src/Metrics.antt =====
-- pkg/metrics/metrics.go: the queue of scan metrics and the values that are exposed. Prometheus's
-- gauges and counters are natural numbers here: only whole numbers are set and added. A nil metric
-- stands for a scan that was skipped, and is `none`.
pub mod Accounting
pub mod Scan
mod Tests
use aether_supervisor.Prelude.{
  Option, none, some, List, [], ◌∷◌, ◌++◌, if◌then◌else◌, ltb, ◌==◌, Bool, ℕ, suc, ◌+◌, ◌≡◌, length,
}
use aether_supervisor.Session.Report.{Report}

pub record Metric : Type 0 where
  pub scanned : ℕ
  pub updated : ℕ
  pub failed : ℕ
  pub restarted : ℕ

unfoldable pub new_metric : Report → Metric
new_metric report = record {
  scanned = length report.scanned;
  updated = length report.updated;
  failed = length report.failed;
  restarted = length report.restarted;
}

pub record Metrics : Type 0 where
  pub channel : List (Option Metric)
  pub last : Metric
  pub restarted_total : ℕ
  pub total : ℕ
  pub skipped : ℕ
  pub dropped : ℕ

abbrev pub no_containers : Metric
no_containers = record { scanned = 0; updated = 0; failed = 0; restarted = 0 }

abbrev pub new_metrics : Metrics
new_metrics = record {
  channel = [];
  last = no_containers;
  restarted_total = 0;
  total = 0;
  skipped = 0;
  dropped = 0;
}

-- The room in the channel.
abbrev pub capacity : ℕ
capacity = 10

unfoldable pub queue_is_empty : Metrics → Bool
queue_is_empty m = length m.channel == 0

unfoldable pub register : Option Metric → Metrics → Metrics
register metric m =
    if ltb (length m.channel) capacity
    then record m { channel = m.channel ++ metric ∷ [] }
    else record m { dropped = suc m.dropped }

-- What HandleUpdate does with a metric that it has received.
unfoldable pub handle_change : Option Metric → Metrics → Metrics
handle_change none m = record m {
  total = suc m.total;
  skipped = suc m.skipped;
  last = no_containers;
}
handle_change (some change) m = record m {
  total = suc m.total;
  last = change;
  restarted_total = m.restarted_total + change.restarted;
}

-- The states that the registering goroutines and the goroutine of HandleUpdate can reach together,
-- with the metrics that have been registered, in any interleaving of their steps.
pub data Reached : List (Option Metric) → Metrics → Type 0 where
  started : Reached [] new_metrics
  registered :
      {registrations : List (Option Metric)} {m : Metrics} (metric : Option Metric)
      → Reached registrations m
      → Reached (registrations ++ metric ∷ []) (register metric m)
  handled :
      {registrations : List (Option Metric)} {m : Metrics} (change : Option Metric)
      (rest : List (Option Metric))
      → m.channel ≡ change ∷ rest
      → Reached registrations m
      → Reached registrations (handle_change change (record m { channel = rest }))
