-- ===== src/Signal/Delivery/Mask.antt =====
-- The signal mask of a process, as `sys_rt_sigprocmask` changes it.
use theory_os.Base.{ℕ, ◌^◌, ◌<◌, not, ◌&&◌, some, Bool-cases, ◌≡◌, refl, inl, inr, arith}
use theory_os.Base.Bits.{
  complement, testbit_le, testbit-bit_and, testbit-complement, bit_and-pow_test,
}
use theory_os.Signal.Types.{in_range, contains}
use theory_os.Signal.Delivery.{Process, sigprocmask}
use Prim.Native.Nat.{bit_and}

contains-unblock :
    (s m sig : ℕ)
    → m < 2 ^ 64
    → contains (bit_and s (complement 64 m)) sig ≡ (not (contains m sig) && contains s sig)
unfolding contains
contains-unblock s m sig bound = elim (Bool-cases (in_range sig)) [
  | inr outside ↦ rw outside refl
  | inl inside ↦ rw inside (
      ground (
        arith,
        bit_and-pow_test sig (bit_and s (complement 64 m)),
        bit_and-pow_test sig s,
        bit_and-pow_test sig m,
        testbit-bit_and s (complement 64 m) sig,
        testbit-complement 64 sig m bound (ground arith),
        testbit_le s sig,
        testbit_le m sig,
      ))
]

-- For a mask of 64 bits: under `SIG_BLOCK` (0) and `SIG_SETMASK` (2) the blocked signals are exactly
-- those of the mask, also under `SIG_BLOCK` with no regard to those that were blocked; under
-- `SIG_UNBLOCK` (1) they are those that were blocked and are not in the mask.
pub sigprocmask_lem :
    (p : Process) (m sig : ℕ)
    → m < 2 ^ 64
    → (contains (sigprocmask p 0 (some m)).1.signals.blocked sig ≡ contains m sig)
      × (contains (sigprocmask p 1 (some m)).1.signals.blocked sig
          ≡ (not (contains m sig) && contains p.signals.blocked sig))
      × (contains (sigprocmask p 2 (some m)).1.signals.blocked sig ≡ contains m sig)
unfolding sigprocmask
sigprocmask_lem p m sig bound = (refl, contains-unblock p.signals.blocked m sig bound, refl)
