-- ===== src/Sched/Cfs/Tests.antt =====
-- Runs of kernel/src/sched/cfs.rs.
use theory_os.Base.{◌≡◌, refl, ◌≤◌, arith}
use theory_os.Sched.Cfs.{up, down, weight_for_nice, update_vruntime, max_u64}
use theory_os.Sched.Cfs.Fairness.{update_vruntime_lem}

default_weight : weight_for_nice (up 0) ≡ 1024
unfolding weight_for_nice
default_weight = refl

clamped : weight_for_nice (down 128) ≡ 88761
unfolding weight_for_nice
clamped = refl

-- A tick of a millisecond for nice 0 and for nice -20.
update_vruntime_lem_example :
    (5000 ≤ update_vruntime 5000 1000000 88761)
    × (update_vruntime 5000 1000000 88761 ≤ update_vruntime 5000 1000000 1024)
    × (update_vruntime 5000 1000000 1024 ≤ max_u64)
update_vruntime_lem_example =
    update_vruntime_lem 5000 1000000 1024 88761 (omega arith) (omega arith) (omega arith)
      (omega arith)
