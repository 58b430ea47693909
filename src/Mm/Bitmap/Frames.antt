-- ===== src/Mm/Bitmap/Frames.antt =====
-- The frames of kernel/src/mm/phys/bitmap.rs as a function: which are taken, and what an operation
-- changes.
use theory_os.Base.{
  ℕ, zero, suc, ◌*◌, ◌/◌, ◌%◌, ◌^◌, ◌≤◌, ◌<◌, Bool, true, false, not, Option, some, length,
  get_elem?, get_or, set, length-set, get_or-set_self, get_or-set_ne, ◌==◌, if◌then◌else◌,
  Bool-cases, ◌≡◌, ◌≢◌, inl, inr, refl, sym, ap, ◌∙◌, arith, List, [], ◌∷◌, leb,
}
use theory_os.Base.Bits.{
  complement, testbit, testbit_le, testbit-bit_or, testbit-bit_and, testbit-pow, testbit-complement,
  shift-testbit, pow-lt-pow,
}
use theory_os.Mm.Checked.{◌>>=◌}
use theory_os.Mm.Bitmap.{FrameBitmap, test, set_bit, is_free}
use Prim.Native.Nat.{bit_and, bit_or}

-- The words reach as far as the count of frames.
abbrev pub IsSized : FrameBitmap → Type 0
IsSized b = b.frame_count ≤ 64 * length b.bits

-- Whether a frame is taken.
unfoldable pub taken : FrameBitmap → ℕ → Bool
taken b frame = testbit (get_or b.bits (frame / 64) 0) (frame % 64) == 1

pub get_elem_some : (xs : List ℕ) (i : ℕ) → i < length xs → get_elem? xs i ≡ some (get_or xs i 0)
get_elem_some [] i h = absurd (omega arith)
get_elem_some (x ∷ xs) zero h = refl
get_elem_some (x ∷ xs) (suc i) h = get_elem_some xs i (omega arith)

pub test_lem : (b : FrameBitmap) (f : ℕ) → f / 64 < length b.bits → test b f ≡ some (taken b f)
unfolding test taken
test_lem b f h =
    rw (get_elem_some b.bits (f / 64) h)
      (ap (λ (n : ℕ). some (n == 1)) (shift-testbit (f % 64) (get_or b.bits (f / 64) 0)))

-- `is_free`, by what is taken.
unfoldable pub free_now : FrameBitmap → ℕ → Bool
free_now b f = if leb b.frame_count f then false else not (taken b f)

pub is_free_sized : (b : FrameBitmap) (f : ℕ) → IsSized b → is_free b f ≡ some (free_now b f)
unfolding is_free free_now
is_free_sized b f sized = elim (Bool-cases (leb b.frame_count f)) [
  | inl beyond ↦ rw beyond refl
  | inr within ↦
      let inside : f / 64 < length b.bits = ground arith in
      rw within (
        ap (λ (o : Option Bool). ◌>>=◌ {B = Bool} o (λ used. some (not used)))
          (test_lem b f inside))
]

-- The word that `set` writes.
abbrev pub written : ℕ → ℕ → Bool → ℕ
written word i used = if used then bit_or word (2 ^ i) else bit_and word (complement 64 (2 ^ i))

written-testbit :
    (word i j : ℕ) (used : Bool)
    → i < 64
    → j < 64
    → (testbit (written word i used) j == 1) ≡ (if j == i then used else testbit word j == 1)
written-testbit word i j true hi hj =
    ground (arith, testbit-bit_or word (2 ^ i) j, testbit-pow i j, testbit_le word j)
written-testbit word i j false hi hj = ground (
  arith,
  testbit-bit_and word (complement 64 (2 ^ i)) j,
  testbit-complement 64 j (2 ^ i) (pow-lt-pow i 64 hi) hj,
  testbit-pow i j,
  testbit_le word j,
)

-- What the bitmap is after `set`, in bounds.
abbrev pub changed : FrameBitmap → ℕ → Bool → FrameBitmap
changed b f used = record b {
  bits = set b.bits (f / 64) (written (get_or b.bits (f / 64) 0) (f % 64) used);
}

pub set_bit-some :
    (b : FrameBitmap) (f : ℕ) (used : Bool)
    → f / 64 < length b.bits
    → set_bit b f used ≡ some (changed b f used)
unfolding set_bit
set_bit-some b f used h = rw (get_elem_some b.bits (f / 64) h) refl

pub taken-changed :
    (b : FrameBitmap) (f g : ℕ) (used : Bool)
    → f / 64 < length b.bits
    → taken (changed b f used) g ≡ (if g == f then used else taken b g)
unfolding taken
taken-changed b f g used h =
    let word = get_or b.bits (f / 64) 0 in
    elim (Bool-cases (f / 64 == g / 64)) [
      | inl same ↦
          let e : f / 64 ≡ g / 64 = ground arith in
          let at : get_or (changed b f used).bits (g / 64) 0 ≡ written word (f % 64) used =
            rw⁻¹ e (get_or-set_self b.bits (f / 64) (written word (f % 64) used) 0 h) in
          let bit = written-testbit word (f % 64) (g % 64) used (omega arith) (omega arith) in
          let place : (g % 64 == f % 64) ≡ (g == f) = ground (arith, e) in
          let old : word ≡ get_or b.bits (g / 64) 0 = ap (λ (n : ℕ). get_or b.bits n 0) e in
          ap (λ (w : ℕ). testbit w (g % 64) == 1) at
          ∙ bit
          ∙ ap (λ (c : Bool). if c then used else testbit word (g % 64) == 1) place
          ∙ ap (λ (w : ℕ). if g == f then used else testbit w (g % 64) == 1) old
      | inr other ↦
          let ne : f / 64 ≢ g / 64 = ground arith in
          let at : get_or (changed b f used).bits (g / 64) 0 ≡ get_or b.bits (g / 64) 0 =
            get_or-set_ne b.bits (f / 64) (g / 64) (written word (f % 64) used) 0 ne in
          let far : (g == f) ≡ false = ground arith in rw at (rw far refl)
    ]

-- On a bitmap whose words reach every frame, `set_used` and `set_free` succeed on each frame below
-- the count: that frame is then taken or free, as `is_free` reads it, every other frame is as
-- before, the words still reach every frame, and the count is the same.
pub set_bit_lem :
    (b : FrameBitmap) (f : ℕ) (used : Bool)
    → IsSized b
    → f < b.frame_count
    → (b' : FrameBitmap) × (set_bit b f used ≡ some b')
      × (is_free b' f ≡ some (not used))
      × ((g : ℕ) → g ≢ f → is_free b' g ≡ is_free b g)
      × IsSized b'
      × (b'.frame_count ≡ b.frame_count)
unfolding free_now
set_bit_lem b f used sized lt =
    let inside : f / 64 < length b.bits = omega arith in
    let b' = changed b f used in
    let same_length : length b'.bits ≡ length b.bits = length-set b.bits (f / 64) _ in
    let sized' : IsSized b' = rw same_length sized in
    let at : (g : ℕ) → taken b' g ≡ (if g == f then used else taken b g) =
      λ g. taken-changed b f g used inside in
    let own : free_now b' f ≡ not used = ground (arith, at f) in
    let others : (g : ℕ) → g ≢ f → free_now b' g ≡ free_now b g = λ g ne. ground (arith, at g) in
    (
      b',
      set_bit-some b f used inside,
      is_free_sized b' f sized' ∙ ap some own,
      λ g ne. is_free_sized b' g sized' ∙ ap some (others g ne) ∙ sym (is_free_sized b g sized),
      sized',
      refl,
    )
