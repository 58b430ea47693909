-- ===== src/Signal/Types.antt =====
-- kernel/src/signal/types.rs: sets of signals as 64-bit masks, and a process's signal state.
pub mod Sets
pub mod Pending
pub mod Tests
use theory_os.Base.{
  ℕ, zero, suc, ◌+◌, ◌-◌, ◌^◌, Bool, true, false, not, ◌&&◌, ◌||◌, List, Option, none, some, get_or,
  set, replicate, ltb, leb, ◌==◌, if◌then◌else◌,
}
use theory_os.Base.Bits.{complement}
use Prim.Native.Nat.{bit_and, bit_or}

abbrev pub nsig : ℕ
nsig = 64

abbrev pub sig_dfl : ℕ
sig_dfl = 0

abbrev pub sig_ign : ℕ
sig_ign = 1

-- The mask of a `SigSet`.
abbrev pub SigSet : Type 0
SigSet = ℕ

-- `sig > 0 && sig < 64`.
abbrev pub in_range : ℕ → Bool
in_range sig = ltb 0 sig && ltb sig 64

unfoldable pub add : SigSet → ℕ → SigSet
add s sig = if in_range sig then bit_or s (2 ^ sig) else s

unfoldable pub del : SigSet → ℕ → SigSet
del s sig = if in_range sig then bit_and s (complement 64 (2 ^ sig)) else s

unfoldable pub contains : SigSet → ℕ → Bool
contains s sig = in_range sig && not (bit_and s (2 ^ sig) == 0)

abbrev pub is_empty : SigSet → Bool
is_empty s = s == 0

pub record SigAction : Type 0 where
  pub handler : ℕ
  pub flags : ℕ
  pub restorer : ℕ
  pub mask : SigSet

abbrev pub default_action : SigAction
default_action = record { handler = sig_dfl; flags = 0; restorer = 0; mask = 0 }

pub record SignalState : Type 0 where
  pub pending : SigSet
  pub blocked : SigSet
  pub actions : List SigAction
  pub handling : Bool

abbrev pub new : SignalState
new = record { pending = 0; blocked = 0; actions = replicate nsig default_action; handling = false }

-- `actions[sig]`, for a signal below `nsig`.
abbrev pub action : SignalState → ℕ → SigAction
action s sig = get_or s.actions sig default_action

unfoldable pub deliver : SignalState → ℕ → SignalState
unfolding add
deliver s sig =
    if (sig == 0) || leb nsig sig
    then s
    else if (action s sig).handler == sig_ign
    then s
    else record s { pending = add s.pending sig }

-- The loop of `take_pending`, for the `n` signals from `sig` on.
unfoldable pub take_from : ℕ → ℕ → SignalState → Option ℕ × SignalState
unfolding contains del
take_from zero sig s = (none, s)
take_from (suc n) sig s =
    let rest = take_from n (suc sig) s in
    if contains s.pending sig && not (contains s.blocked sig)
    then (some sig, record s { pending = del s.pending sig })
    else rest

unfoldable pub take_pending : SignalState → Option ℕ × SignalState
unfolding take_from
take_pending s = take_from 63 1 s
