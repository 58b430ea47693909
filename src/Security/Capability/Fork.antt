-- ===== src/Security/Capability/Fork.antt =====
-- What a fork leaves of the capabilities in kernel/src/security/capability.rs.
use theory_os.Base.{ℕ, ◌^◌, ◌&&◌, ◌||◌, ◌==◌, Bool-cases, ◌≡◌, refl, ◌∙◌, inl, inr, arith}
use theory_os.Base.Bits.{testbit, testbit_le, testbit-bit_and, bit_and-pow}
use theory_os.Security.Capability.{Credentials, contains, capable, fork}
use Prim.Native.Nat.{bit_and}
use native.Mathlib.Nat.{one-le-pow}

-- A single capability is contained where its bit is set.
contains-pow : (s i : ℕ) → contains s (2 ^ i) ≡ (testbit s i == 1)
contains-pow s i = elim (Bool-cases (testbit s i == 1)) [
  | inl on ↦
      let e : testbit s i ≡ 1 = ground arith in
      let whole : bit_and s (2 ^ i) ≡ 2 ^ i = bit_and-pow i s ∙ rw e (omega arith) in
      rw whole (ground (arith, on))
  | inr off ↦
      let e : testbit s i ≡ 0 = ground (arith, testbit_le s i) in
      let nothing : bit_and s (2 ^ i) ≡ 0 = bit_and-pow i s ∙ rw e (omega arith) in
      rw nothing (ground (arith, off, one-le-pow i 2))
]

-- A forked process has the capability of bit `i` if it is privileged, or if the parent's inheritable
-- and permitted sets both have it; and a fork of the fork has the same.
pub capable-fork :
    (c : Credentials) (i : ℕ)
    → (capable (fork c) (2 ^ i)
        ≡ ((c.euid == 0) || (contains c.inheritable (2 ^ i) && contains c.permitted (2 ^ i))))
      × (fork (fork c) ≡ fork c)
unfolding capable fork
capable-fork c i = (
  elim (Bool-cases (c.euid == 0)) [
    | inl privileged ↦ rw privileged refl
    | inr plain ↦ rw plain (
        rw (contains-pow (bit_and c.inheritable c.permitted) i) (
          rw (contains-pow c.inheritable i) (
            rw (contains-pow c.permitted i) (
              ground (
                arith,
                testbit-bit_and c.inheritable c.permitted i,
                testbit_le c.inheritable i,
                testbit_le c.permitted i,
              )))))
  ],
  refl,
)
