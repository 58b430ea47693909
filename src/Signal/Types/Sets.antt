-- ===== src/Signal/Types/Sets.antt =====
-- What `add` and `del` of kernel/src/signal/types.rs do to membership.
use theory_os.Base.{ℕ, ◌^◌, Bool, not, ◌&&◌, ◌||◌, ◌==◌, Bool-cases, ◌≡◌, inl, inr, ◌∙◌, arith}
use theory_os.Base.Bits.{
  complement, testbit, testbit_le, testbit-bit_or, testbit-bit_and, testbit-pow, testbit-complement,
  pow-lt-pow, bit_and-pow_test,
}
use theory_os.Signal.Types.{SigSet, in_range, add, del, contains}

-- Membership, by the bit.
member : SigSet → ℕ → Bool
member s sig = in_range sig && (testbit s sig == 1)

contains_lem : (s : SigSet) (sig : ℕ) → contains s sig ≡ member s sig
unfolding contains member
contains_lem s sig = ground (arith, bit_and-pow_test sig s, testbit_le s sig)

member-add : (s : SigSet) (a b : ℕ) → member (add s a) b ≡ (((a == b) && in_range a) || member s b)
unfolding member add
member-add s a b = elim (Bool-cases (in_range a)) [
  | inl valid ↦
      rw valid (ground (arith, testbit-bit_or s (2 ^ a) b, testbit-pow a b, testbit_le s b, valid))
  | inr invalid ↦ rw invalid (ground (arith, invalid))
]

member-del : (s : SigSet) (a b : ℕ) → member (del s a) b ≡ (not (a == b) && member s b)
unfolding member del
member-del s a b = elim (Bool-cases (in_range a)) [
  | inl valid ↦ rw valid (elim (Bool-cases (in_range b)) [
    | inl small ↦ rw small (
        ground (
          arith,
          testbit-bit_and s (complement 64 (2 ^ a)) b,
          testbit-complement 64 b (2 ^ a) (pow-lt-pow a 64 (ground arith)) (ground arith),
          testbit-pow a b,
          testbit_le s b,
        ))
    | inr large ↦ rw large (ground arith)
  ])
  | inr invalid ↦ rw invalid (ground (arith, invalid))
]

-- After `add`, a set has the signal added, where it is one of 1 to 63, and what it had; after `del`
-- it has what it had but the signal deleted.
pub contains-add-del :
    (s : SigSet) (a b : ℕ)
    → (contains (add s a) b ≡ (((a == b) && in_range a) || contains s b))
      × (contains (del s a) b ≡ (not (a == b) && contains s b))
contains-add-del s a b = (
  contains_lem (add s a) b ∙ rw (contains_lem s b) (member-add s a b),
  contains_lem (del s a) b ∙ rw (contains_lem s b) (member-del s a b),
)
