-- ===== src/Signal/Delivery/Tests.antt =====
-- Runs of kernel/src/signal/delivery.rs.
use theory_os.Base.{ℕ, ◌-◌, ◌≢◌, ◌≡◌, refl, true, false, some, replicate, set, arith}
use theory_os.Signal.Types.{SignalState, new, default_action, contains, take_pending, SigAction}
use theory_os.Signal.Delivery.{
  Process, SyscallFrame, SignalFrame, Memory, deliver_pending, sigreturn,
}
use theory_os.Signal.Delivery.Return.{sigreturn-deliver_pending}

abbrev handler : SigAction
handler = record default_action { handler = 0x40_0000; flags = 4 }

abbrev registers : SyscallFrame
registers = record {
  user_rip = 7;
  user_rsp = 8000;
  user_rflags = 2;
  rax = 0;
  rdi = 0;
  rsi = 0;
  rdx = 0;
}

abbrev blank : SignalFrame
blank = record {
  restorer = 0;
  sig = 0;
  signo = 0;
  pid = 0;
  uid = 0;
  greg_rip = 0;
  greg_rsp = 0;
  greg_rflags = 0;
  uc_sigmask = 0;
  saved_rip = 0;
  saved_rsp = 0;
  saved_rflags = 0;
}

-- Signal 10 is pending, with a handler.
abbrev waiting : Process
waiting = record {
  pid = 5;
  uid = 1000;
  dead = false;
  signals = record new {
    pending = 1024;
    blocked = 4;
    actions = set (replicate 64 default_action) 10 handler;
  };
}

abbrev quiet : SignalState
quiet = record waiting.signals { pending = 0 }

takes : take_pending waiting.signals ≡ (some 10, quiet)
unfolding take_pending
takes = refl

sigreturn-deliver_pending_example :
    (entered : SyscallFrame) × (memory' : Memory) × (deliver_pending registers (λ _. blank) waiting
      ≡ (true, entered, memory', record waiting { signals = record quiet { handling = true } }))
    × (entered.user_rip ≡ 0x40_0000)
    × (entered.rdi ≡ 10)
    × (entered.user_rsp ≡ 8000 - 368)
    × ((addr : ℕ) → addr ≢ entered.user_rsp → memory' addr ≡ blank)
    × ((left : SyscallFrame) (memory'' : Memory) (q : Process)
        → left.user_rsp ≡ entered.user_rsp
        → memory'' entered.user_rsp ≡ memory' entered.user_rsp
        → sigreturn left memory'' q
          ≡ some (
            record left { user_rip = 7; user_rsp = 8000; user_rflags = 2 },
            record q { signals = record q.signals { handling = false; blocked = 4 } },
          ))
sigreturn-deliver_pending_example =
    sigreturn-deliver_pending registers (λ _. blank) waiting 10 quiet (omega arith) takes
      (omega arith) (omega arith) (omega arith)

-- Signal 2 was blocked, and to block signal 10 as well unblocks it.

unblocked : contains 4 2 ≡ true
unfolding contains
unblocked = refl
