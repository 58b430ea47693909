-- ===== src/Sync/Mutex/Tests.antt =====
-- Two threads at a mutex, and the theorem there.
use theory_os.Base.{ℕ, ◌≡◌, refl, true, false, List, [], ◌∷◌}
use theory_os.Ipc.Wait
use theory_os.Sync.Mutex.{asleep, elsewhere, run, initial}
use theory_os.Sync.Mutex.Exclusion.{run-exclusive}

-- Thread 1 takes the lock.
abbrev taken : List ℕ
taken = 1 ∷ 1 ∷ 1 ∷ []

run-exclusive_example : (◌≡◌ {A = ℕ} 1 1) × ((run taken initial).locked ≡ true)
unfolding run Wait.new
run-exclusive_example = run-exclusive taken 1 1 refl refl

-- Thread 2 finds the mutex locked; thread 1 frees it and finds nobody to wake; thread 2 goes to
-- sleep at a free mutex.
abbrev lost : List ℕ
lost = 1 ∷ 1 ∷ 1 ∷ 2 ∷ 2 ∷ 1 ∷ 1 ∷ 1 ∷ 2 ∷ []

lost_wake_up :
    ((run lost initial).places 2 ≡ asleep)
    × ((run lost initial).places 1 ≡ elsewhere)
    × ((run lost initial).locked ≡ false)
unfolding run Wait.new Wait.pop Wait.push
lost_wake_up = (refl, refl, refl)
