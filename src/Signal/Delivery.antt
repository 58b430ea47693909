-- ===== src/Signal/Delivery.antt =====
-- kernel/src/signal/delivery.rs: signals handed to a process on its way back to user space, and the
-- return from a handler. User memory is a function from addresses to signal frames, which the code
-- reads and writes whole.
pub mod Return
pub mod Mask
pub mod Tests
use theory_os.Base.{
  ℕ, ◌+◌, ◌-◌, ◌%◌, ◌^◌, Bool, true, false, not, ◌&&◌, ◌||◌, ◌⊎◌, inl, inr, Option, none, some, set,
  ltb, leb, ◌==◌, if◌then◌else◌,
}
use theory_os.Signal.Types.{
  SigSet, SigAction, SignalState, nsig, sig_dfl, sig_ign, action, deliver, take_pending,
}
use theory_os.Base.Bits.{complement}
use Prim.Native.Nat.{bit_and}

abbrev pub sa_siginfo : ℕ
sa_siginfo = 4

-- `size_of::<SignalFrame>()` and the offsets of `info` and `ucontext`, under `repr(C)`.
abbrev pub frame_size : ℕ
frame_size = 368

abbrev pub info_offset : ℕ
info_offset = 16

abbrev pub ucontext_offset : ℕ
ucontext_offset = 40

-- The registers of `SyscallFrame` that delivery reads or writes.
pub record SyscallFrame : Type 0 where
  pub user_rip : ℕ
  pub user_rsp : ℕ
  pub user_rflags : ℕ
  pub rax : ℕ
  pub rdi : ℕ
  pub rsi : ℕ
  pub rdx : ℕ

-- The fields of `SignalFrame`; of the machine context, the three registers that are filled in.
pub record SignalFrame : Type 0 where
  pub restorer : ℕ
  pub sig : ℕ
  pub signo : ℕ
  pub pid : ℕ
  pub uid : ℕ
  pub greg_rip : ℕ
  pub greg_rsp : ℕ
  pub greg_rflags : ℕ
  pub uc_sigmask : SigSet
  pub saved_rip : ℕ
  pub saved_rsp : ℕ
  pub saved_rflags : ℕ

-- The parts of the current process that delivery uses.
pub record Process : Type 0 where
  pub pid : ℕ
  pub uid : ℕ
  pub dead : Bool
  pub signals : SignalState

-- `Pid::KERNEL`.
abbrev pub kernel_pid : ℕ
kernel_pid = 0

abbrev pub Memory : Type 0
Memory = ℕ → SignalFrame

-- `kill`, on the target that its number finds: none where there is no such process, and the error.
pub data KillError : Type 0 where
  einval esrch : KillError

unfoldable pub kill : Option Process → Bool → ℕ → KillError ⊎ Process
unfolding deliver
kill target pid_is_valid sig =
    if leb nsig sig then inl einval else if not pid_is_valid then inl esrch else elim target [
      | none ↦ inl esrch
      | some p ↦ inr (record p { signals = deliver p.signals sig })
    ]

-- `set_action`: the old action, or none for an error.
unfoldable pub set_action : Process → ℕ → SigAction → Option (SigAction × Process)
set_action p sig new_action =
    if (sig == 0) || leb nsig sig
    then none
    else some (
      action p.signals sig,
      record p { signals = record p.signals { actions = set p.signals.actions sig new_action } },
    )

unfoldable pub set_blocked : Process → SigSet → SigSet × Process
set_blocked p mask = (p.signals.blocked, record p { signals = record p.signals { blocked = mask } })

-- The signals whose default action the code carries out.
abbrev pub kills : ℕ → Bool
kills sig = (sig == 9) || (sig == 11) || (sig == 6)

-- The closure of `deliver_pending`: the signal and the action to run, if any.
unfoldable pub select : Process → Option (ℕ × SigAction) × Process
select p =
    let (found, signals) = take_pending p.signals in
    elim found [
      | none ↦ (none, record p { signals = signals })
      | some sig ↦
          if (action signals sig).handler == sig_dfl
          then (none, record p { signals = signals; dead = kills sig || p.dead })
          else if (action signals sig).handler == sig_ign
          then (none, record p { signals = signals })
          else (
            some (sig, action signals sig),
            record p { signals = record signals { handling = true } },
          )
    ]

-- The frame that `deliver_pending` writes below the stack pointer.
abbrev pub signal_frame : SyscallFrame → Process → ℕ → SigAction → SignalFrame
signal_frame frame p sig act = record {
  restorer = act.restorer;
  sig = sig;
  signo = sig;
  pid = p.pid;
  uid = p.uid;
  greg_rip = frame.user_rip;
  greg_rsp = frame.user_rsp;
  greg_rflags = frame.user_rflags;
  uc_sigmask = p.signals.blocked;
  saved_rip = frame.user_rip;
  saved_rsp = frame.user_rsp;
  saved_rflags = frame.user_rflags;
}

-- The registers with which the handler starts.
abbrev pub handler_frame : SyscallFrame → ℕ → SigAction → SyscallFrame
handler_frame frame sig act =
    let new_rsp = frame.user_rsp - frame_size in
    let with_info = not (bit_and act.flags sa_siginfo == 0) in
    record {
      user_rip = act.handler;
      user_rsp = new_rsp;
      user_rflags = frame.user_rflags;
      rax = 0;
      rdi = sig;
      rsi = if with_info then new_rsp + info_offset else 0;
      rdx = if with_info then new_rsp + ucontext_offset else 0;
    }

-- `deliver_pending`: whether a handler is to run, the registers, the memory and the process. A stack
-- pointer below the size of a frame and 128 bytes is refused, after the signal has been taken.
unfoldable pub deliver_pending :
    SyscallFrame → Memory → Process → Bool × SyscallFrame × Memory × Process
unfolding select
deliver_pending frame memory p =
    if p.pid == kernel_pid
    then (false, frame, memory, p)
    else let (chosen, p') = select p in
      elim chosen [
        | none ↦ (false, frame, memory, p')
        | some (sig, act) ↦
            if ltb frame.user_rsp (frame_size + 128) then (false, frame, memory, p') else (
              true,
              handler_frame frame sig act,
              (λ addr.
                  if addr == frame.user_rsp - frame_size
                  then signal_frame frame p' sig act
                  else memory addr),
              p',
            )
      ]

-- `sigreturn`; none is its error.
unfoldable pub sigreturn : SyscallFrame → Memory → Process → Option (SyscallFrame × Process)
sigreturn frame memory p =
    if frame.user_rsp == 0
    then none
    else let saved = memory frame.user_rsp in
      some (
        record frame {
          user_rip = saved.saved_rip;
          user_rsp = saved.saved_rsp;
          user_rflags = saved.saved_rflags;
        },
        record p { signals = record p.signals { handling = false; blocked = saved.uc_sigmask } },
      )

abbrev pub has_pending : Process → Bool
has_pending p = not (p.signals.pending == 0)

unfoldable pub fork_state : SignalState → SignalState
fork_state parent = record {
  pending = 0;
  blocked = parent.blocked;
  actions = parent.actions;
  handling = false;
}

-- The change of the blocked set in `sys_rt_sigprocmask` of kernel/src/syscall/handlers/signal.rs, for
-- a `how` and the mask at `set_ptr`, if one was given: the old set and the process.
unfoldable pub sigprocmask : Process → ℕ → Option SigSet → SigSet × Process
sigprocmask p how none = (p.signals.blocked, p)
sigprocmask p how (some m) = (
  p.signals.blocked,
  record p {
    signals = record p.signals {
      blocked =
          if how == 0
          then m
          else if how == 1
          then bit_and p.signals.blocked (complement 64 m)
          else if how == 2
          then m
          else p.signals.blocked;
    };
  },
)
