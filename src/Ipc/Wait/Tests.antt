-- ===== src/Ipc/Wait/Tests.antt =====
-- Runs of the wait queue, and its theorems at concrete queues.
use theory_os.Base.{◌≡◌, refl, false, [], ◌∷◌, arith, replicate}
use theory_os.Ipc.Wait.{WaitQueue, push, pop, wake_all}
use theory_os.Ipc.Wait.Stack.{IsValid, sleepers, wake_all_lem}

abbrev two_asleep : WaitQueue
two_asleep = record { threads = 7 ∷ 9 ∷ replicate 30 0; len = 2 }

abbrev full : WaitQueue
full = record { threads = replicate 32 5; len = 32 }

newest_first : (wake_all two_asleep).0 ≡ 9 ∷ 7 ∷ []
unfolding wake_all pop
newest_first = refl

refused : (push full 3).0 ≡ false
unfolding push
refused = refl

wake_all_lem_example :
    ((wake_all two_asleep).0 ≡ sleepers two_asleep)
    × (sleepers (wake_all two_asleep).1 ≡ [])
    × IsValid (wake_all two_asleep).1
wake_all_lem_example = wake_all_lem two_asleep (omega arith)
