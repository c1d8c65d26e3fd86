-- ===== src/Apps/Counts.antt =====
-- The counts of pkg/models/apps/deploy.go against the workloads, and the entries of a device.
use edge_q.Prelude.{ℕ, suc, ◌+◌, ◌≡◌, List, [], ◌∷◌, arith, length}
use edge_q.Apps.{
  WorkloadStats, WorkloadStatus, failed, succeeded, processing, Condition, status_of, counted,
  count_workloads,
}

abbrev pub total : WorkloadStats → ℕ
total s = s.failed + s.succeeded + s.processing

total-counted : (w : WorkloadStatus) (s : WorkloadStats) → total (counted w s) ≡ suc (total s)
unfolding counted
total-counted failed s = omega arith
total-counted succeeded s = omega arith
total-counted processing s = omega arith

-- Every workload is counted once, whatever its conditions are.
pub total-count_workloads :
    (stats : WorkloadStats) (workloads : List (List Condition))
    → total (count_workloads stats workloads) ≡ total stats + length workloads
unfolding count_workloads
total-count_workloads stats [] = omega arith
total-count_workloads stats (c ∷ workloads) = omega (
  arith,
  total-count_workloads (counted (status_of processing c) stats) workloads,
  total-counted (status_of processing c) stats,
)
