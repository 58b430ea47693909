-- ===== src/Signal/Delivery/Return.antt =====
-- The way into a handler and back, in kernel/src/signal/delivery.rs.
use theory_os.Base.{
  ℕ, zero, suc, not, ◌&&◌, ◌+◌, ◌-◌, ◌≤◌, true, false, Option, some, sym, ◌∙◌, Bool-cases, inl, inr,
  ltb, ◌==◌, if◌then◌else◌, ◌≡◌, ◌≢◌, refl, ap, arith,
}
use theory_os.Signal.Types.{
  SignalState, SigAction, action, take_pending, take_from, contains, sig_dfl, sig_ign,
}
use theory_os.Signal.Delivery.{
  Process, SyscallFrame, Memory, handler_frame, signal_frame, select, deliver_pending, sigreturn,
  kernel_pid, frame_size, SignalFrame,
}

blocked-take_from : (n sig : ℕ) (s : SignalState) → (take_from n sig s).1.blocked ≡ s.blocked
unfolding take_from
blocked-take_from zero sig s = refl
blocked-take_from (suc n) sig s =
    elim (Bool-cases (contains s.pending sig && not (contains s.blocked sig))) [
      | inl ready ↦ rw ready refl
      | inr waits ↦ rw waits (blocked-take_from n (suc sig) s)
    ]

blocked-take_pending : (s : SignalState) → (take_pending s).1.blocked ≡ s.blocked
unfolding take_pending
blocked-take_pending s = blocked-take_from 63 1 s

select_lem :
    (p : Process) (sig : ℕ) (taken : SignalState)
    → take_pending p.signals ≡ (some sig, taken)
    → (action taken sig).handler ≢ sig_dfl
    → (action taken sig).handler ≢ sig_ign
    → select p
      ≡ (some (sig, action taken sig), record p { signals = record taken { handling = true } })
unfolding select
select_lem p sig taken some_signal not_dfl not_ign =
    let act = action taken sig in
    let b1 : (act.handler == sig_dfl) ≡ false = ground arith in
    let b2 : (act.handler == sig_ign) ≡ false = ground arith in
    let e0 : (take_pending p.signals).0 ≡ some sig =
      ap (λ (r : Option ℕ × SignalState). r.0) some_signal in
    let e1 : (take_pending p.signals).1 ≡ taken =
      ap (λ (r : Option ℕ × SignalState). r.1) some_signal in
    rw (e0, select) (rw e1 (rw b1 (rw b2 refl)))

-- A process other than the kernel's, with a signal to take whose action is a handler, and with room
-- on its stack: delivery enters the handler with the signal as its argument, below the old stack
-- pointer by the size of a frame, writes nothing but the frame there, and leaves the process as it
-- is after the signal is taken, with the handling begun. Whatever the handler does to the registers
-- other than the stack pointer, to memory outside of that frame and to the process, a `sigreturn`
-- then restores the instruction pointer, the stack pointer, the flags and the set of blocked
-- signals from before, and ends the handling.
pub sigreturn-deliver_pending :
    (frame : SyscallFrame) (memory : Memory) (p : Process) (sig : ℕ) (taken : SignalState)
    → p.pid ≢ kernel_pid
    → take_pending p.signals ≡ (some sig, taken)
    → (action taken sig).handler ≢ sig_dfl
    → (action taken sig).handler ≢ sig_ign
    → frame_size + 128 ≤ frame.user_rsp
    → (entered : SyscallFrame) × (memory' : Memory) × (deliver_pending frame memory p
        ≡ (true, entered, memory', record p { signals = record taken { handling = true } }))
      × (entered.user_rip ≡ (action taken sig).handler)
      × (entered.rdi ≡ sig)
      × (entered.user_rsp ≡ frame.user_rsp - 368)
      × ((addr : ℕ) → addr ≢ entered.user_rsp → memory' addr ≡ memory addr)
      × ((left : SyscallFrame) (memory'' : Memory) (q : Process)
          → left.user_rsp ≡ entered.user_rsp
          → memory'' entered.user_rsp ≡ memory' entered.user_rsp
          → sigreturn left memory'' q
            ≡ some (
              record left {
                user_rip = frame.user_rip;
                user_rsp = frame.user_rsp;
                user_rflags = frame.user_rflags;
              },
              record q {
                signals = record q.signals { handling = false; blocked = p.signals.blocked };
              },
            ))
unfolding deliver_pending sigreturn
sigreturn-deliver_pending frame memory p sig taken user some_signal not_dfl not_ign room =
    let not_kernel : (p.pid == kernel_pid) ≡ false = ground arith in
    let b3 : ltb frame.user_rsp (frame_size + 128) ≡ false = ground arith in
    let chosen = select_lem p sig taken some_signal not_dfl not_ign in
    let e0 : (select p).0 ≡ some (sig, action taken sig) =
      ap (λ (r : Option (ℕ × SigAction) × Process). r.0) chosen in
    let e1 : (select p).1 ≡ during = ap (λ (r : Option (ℕ × SigAction) × Process). r.1) chosen in
    let kept : taken.blocked ≡ p.signals.blocked =
      sym (ap (λ (r : Option ℕ × SignalState). r.1.blocked) some_signal)
      ∙ blocked-take_pending p.signals in
    (
      handler_frame frame sig (action taken sig),
      memory',
      rw not_kernel (rw e0 (rw b3 (rw e1 refl))),
      refl,
      refl,
      refl,
      (λ addr ne. ground (arith, ne)),
      λ left memory'' q same_rsp same.
          let away : (left.user_rsp == 0) ≡ false = ground (arith, same_rsp, room) in
          let saved : memory'' left.user_rsp ≡ written = ap memory'' same_rsp ∙ same ∙ here in
          rw away (rw saved (rw kept refl)),
    )
  where
    during : Process
    during = record p { signals = record taken { handling = true } }

    written : SignalFrame
    written = signal_frame frame during sig (action taken sig)

    memory' : Memory
    memory' = λ addr. if addr == frame.user_rsp - frame_size then written else memory addr

    here : memory' (frame.user_rsp - frame_size) ≡ written
    here = ground arith
