-- ===== src/Signal/Types/Tests.antt =====
-- Runs of kernel/src/signal/types.rs.
use theory_os.Base.{ℕ, ◌<◌, ◌⊎◌, not, ◌&&◌, ◌==◌, ◌≡◌, refl, none, some, true, false}
use theory_os.Signal.Types.Pending.{ready, take_pending_lem}
use theory_os.Signal.Types.{new, SignalState, deliver, take_pending, contains}

-- Signals 15 and 10 are delivered, and 10 is blocked.
abbrev two_pending : SignalState
two_pending = deliver (deliver (record new { blocked = 1024 }) 15) 10

taken : (take_pending two_pending).0 ≡ some 15
unfolding deliver take_pending
taken = refl

still_pending : contains (take_pending two_pending).1.pending 10 ≡ true
unfolding deliver take_pending
still_pending = refl

take_pending_lem_example :
    ((take_pending two_pending ≡ (none, two_pending)) × ((k : ℕ) → ready two_pending k ≡ false))
    ⊎ ((k : ℕ) × (s' : SignalState) × (take_pending two_pending ≡ (some k, s'))
        × (ready two_pending k ≡ true)
        × ((j : ℕ) → j < k → ready two_pending j ≡ false)
        × ((j : ℕ) → contains s'.pending j ≡ (not (k == j) && contains two_pending.pending j))
        × (s'.blocked ≡ two_pending.blocked)
        × (s'.actions ≡ two_pending.actions))
take_pending_lem_example = take_pending_lem two_pending
