-- ===== src/Sync/Mutex.antt =====
-- kernel/src/sync/mutex.rs: the mutex with priority inheritance, as the atomic steps that threads
-- take in turn. The queue of waiting threads is the same as that of kernel/src/ipc/wait.rs; the
-- boost of the owner's priority is the scheduler's.
pub mod Exclusion
mod Tests
use theory_os.Base.{
  ℕ, zero, suc, Bool, true, false, not, Option, none, some, List, [], ◌∷◌, ◌==◌, if◌then◌else◌,
}
use theory_os.Ipc.Wait.{WaitQueue, push, pop}
use theory_os.Ipc.Wait

-- Where a thread is: about to try, behind a successful exchange, with the lock, behind the store of
-- `owner` in `unlock`, behind that of `locked`, behind a failed exchange, or blocked.
pub data Place : Type 0 where
  elsewhere : Place
  trying : Place
  entering : Place
  holding : Place
  leaving : Place
  waking : Place
  contended : Place
  asleep : Place

pub record PiMutex : Type 0 where
  pub locked : Bool
  pub owner : ℕ
  pub waiters : WaitQueue
  pub places : ℕ → Place

abbrev pub no_owner : ℕ
no_owner = 0xffff_ffff

abbrev pub initial : PiMutex
initial = record { locked = false; owner = no_owner; waiters = Wait.new; places = λ t. elsewhere }

abbrev pub move : ℕ → Place → (ℕ → Place) → ℕ → Place
move tid place places = λ t. if t == tid then place else places t

-- `wake_thread`.
abbrev pub awake : Place → Place
awake asleep = trying
awake place = place

abbrev pub wake : Option ℕ → (ℕ → Place) → ℕ → Place
wake none places = places
wake (some next) places = λ t. if t == next then awake (places t) else places t

-- The next step of a thread at this place.
abbrev pub step_at : ℕ → PiMutex → Place → PiMutex
step_at tid m elsewhere = record m { places = move tid trying m.places }
step_at tid m trying =
    if m.locked
    then record m { places = move tid contended m.places }
    else record m { locked = true; places = move tid entering m.places }
step_at tid m entering = record m { owner = tid; places = move tid holding m.places }
step_at tid m holding = record m { owner = no_owner; places = move tid leaving m.places }
step_at tid m leaving = record m { locked = false; places = move tid waking m.places }
step_at tid m waking = record m {
  waiters = (pop m.waiters).1;
  places = wake (pop m.waiters).0 (move tid elsewhere m.places);
}
step_at tid m contended = record m {
  waiters = (push m.waiters tid).1;
  places = move tid asleep m.places;
}
step_at tid m asleep = m

unfoldable pub step : ℕ → PiMutex → PiMutex
unfolding push pop
step tid m = step_at tid m (m.places tid)

-- The threads take steps in this order.
unfoldable pub run : List ℕ → PiMutex → PiMutex
unfolding step
run [] m = m
run (tid ∷ tids) m = run tids (step tid m)
