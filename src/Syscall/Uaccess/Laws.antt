-- ===== src/Syscall/Uaccess/Laws.antt =====
-- What the checks let through, and what a string read from user memory is.
use theory_os.Base.{
  ℕ, zero, suc, ◌+◌, ◌-◌, ◌≤◌, ◌<◌, ◌≡◌, ◌≢◌, ◌↔◌, ◌⊎◌, sym, ap, ◌∙◌, arith, true, false, ◌&&◌,
  ◌||◌, List, ltb, leb, ◌==◌, length, length-set, set, get_or, get_or-set_self, get_or-set_ne, min,
  Bool-cases, inl, inr,
}
use mathlib.Core.Path.{subst}
use theory_os.Syscall.Uaccess.{
  is_user_address, access_ok, efault, einval, Result, ok, err, Memory, str_loop, str_from_user,
}

access_ok_range :
    (addr len : ℕ)
    → 0 < len
    → access_ok addr len ≡ (leb 0x10000 addr && leb (addr + (len - 1)) 0x7fff_ffff_ffff)
unfolding access_ok is_user_address
access_ok_range addr len some_bytes = ground arith

-- A range that is not empty passes the check exactly if every address in it is a user address.
pub access_ok_lem :
    (addr len : ℕ)
    → 0 < len
    → (access_ok addr len ≡ true) ↔ ((i : ℕ) → i < len → is_user_address (addr + i) ≡ true)
unfolding is_user_address
access_ok_lem addr len some_bytes = (
  λ h i lt. ground (arith, h, access_ok_range addr len some_bytes, lt),
  λ each.
      ground (
        arith,
        access_ok_range addr len some_bytes,
        each 0 some_bytes,
        each (len - 1) (omega arith),
      ),
)

-- What `str_from_user` gives from byte `i` on.
abbrev pub IsString : Memory → ℕ → ℕ → ℕ → List ℕ → Type 0
IsString mem src i n buf =
    (i ≤ n)
    × (mem (src + n) ≡ 0)
    × ((j : ℕ) → i ≤ j → j < n → mem (src + j) ≢ 0)
    × ((j : ℕ)
        → i ≤ j
        → j ≤ n
        → (is_user_address (src + j) ≡ true) × (get_or buf j 0 ≡ mem (src + j)))

one_byte : (addr : ℕ) → access_ok addr 1 ≡ true → is_user_address addr ≡ true
unfolding access_ok
one_byte addr h = ground (arith, h)

le-cases : (i j : ℕ) → i ≤ j → (i ≡ j) ⊎ (i + 1 ≤ j)
le-cases i j h = elim (Bool-cases (ltb i j)) [
  | inl less ↦ inr (ground (arith, less))
  | inr same ↦ inl (ground (arith, same))
]

-- The byte at `i` was read from a user address and is in the buffer.
first_byte :
    (mem : Memory) (src i j : ℕ) (buf buf' : List ℕ)
    → access_ok (src + i) 1 ≡ true
    → get_or buf' i 0 ≡ mem (src + i)
    → i ≡ j
    → (is_user_address (src + j) ≡ true) × (get_or buf' j 0 ≡ mem (src + j))
first_byte mem src i j buf buf' good stored e =
    subst (λ a. (is_user_address (src + a) ≡ true) × (get_or buf' a 0 ≡ mem (src + a))) e
      (one_byte (src + i) good, stored)

str_loop_lem :
    (mem : Memory) (src n i k : ℕ) (buf : List ℕ)
    → i + n ≤ length buf
    → (str_loop mem src n i buf).0 ≡ ok k
    → IsString mem src i k (str_loop mem src n i buf).1
      × (k < i + n)
      × ((j : ℕ) → j < i → get_or (str_loop mem src n i buf).1 j 0 ≡ get_or buf j 0)
unfolding str_loop
str_loop_lem mem src zero i k buf room h = absurd (cc)
str_loop_lem mem src (suc n) i k buf room h = elim (Bool-cases (access_ok (src + i) 1)) [
  | inr bad ↦ let whole : ◌≡◌ {A = Result ℕ} (err efault) (ok k) = rw bad at h in absurd (cc)
  | inl good ↦ elim (Bool-cases (mem (src + i) == 0)) [
    | inl nul ↦
        let whole : ok i ≡ ok k = rw (good, nul) at h in
        let it : i ≡ k = cc in
        rw (good, nul)
          (
            (
              omega (arith, it),
              ap (λ a. mem (src + a)) (sym it) ∙ ground (arith, nul),
              (λ j lo hi. absurd (omega (arith, it))),
              λ j lo hi.
                  first_byte mem src i j buf (set buf i (mem (src + i))) good
                    (get_or-set_self buf i _ 0 (omega arith)) (omega (arith, it)),
            ),
            omega (arith, it),
            λ j lt. get_or-set_ne buf i j (mem (src + i)) 0 (omega arith),
          )
    | inr more ↦
        let h' : (str_loop mem src n (i + 1) (set buf i (mem (src + i)))).0 ≡ ok k =
          rw (good, more) at h in
        let ((le, nul, before, read), below, kept) =
          str_loop_lem mem src n (i + 1) k (set buf i (mem (src + i)))
            (omega (arith, length-set buf i (mem (src + i)))) h' in
        rw (good, more)
          (
            (
              omega (arith, le),
              nul,
              (λ j lo hi. elim (le-cases i j lo) [
                | inl e ↦ subst (λ a. mem (src + a) ≢ 0) e (λ z. ground (arith, more, z))
                | inr above ↦ before j above hi
              ]),
              λ j lo hi. elim (le-cases i j lo) [
                | inl e ↦
                    first_byte mem src i j buf _ good
                      (kept i (omega arith) ∙ get_or-set_self buf i _ 0 (omega arith)) e
                | inr above ↦ read j above hi
              ],
            ),
            omega (arith, below),
            λ j lt. kept j (omega arith) ∙ get_or-set_ne buf i j (mem (src + i)) 0 (omega arith),
          )
  ]
]

access_one : (addr : ℕ) → is_user_address addr ≡ true → access_ok addr 1 ≡ true
unfolding access_ok is_user_address
access_one addr h = ground (arith, h)

str_loop-ok :
    (mem : Memory) (src n i k : ℕ) (buf : List ℕ)
    → ((j : ℕ) → j ≤ k → is_user_address (src + j) ≡ true)
    → ((j : ℕ) → j < k → mem (src + j) ≢ 0)
    → mem (src + k) ≡ 0
    → i ≤ k
    → k < i + n
    → (str_loop mem src n i buf).0 ≡ ok k
unfolding str_loop
str_loop-ok mem src zero i k buf user more nul lo hi = absurd (omega arith)
str_loop-ok mem src (suc n) i k buf user more nul lo hi =
    let good : access_ok (src + i) 1 ≡ true = access_one (src + i) (user i lo) in
    elim (le-cases i k lo) [
      | inl e ↦
          let nul' : (mem (src + i) == 0) ≡ true = ground (arith, ap (λ a. mem (src + a)) e, nul) in
          rw (good, nul') (ap ok e)
      | inr above ↦
          let more' : (mem (src + i) == 0) ≡ false = ground (arith, more i (omega arith)) in
          rw (good, more')
            (str_loop-ok mem src n (i + 1) k (set buf i (mem (src + i))) user more nul above
              (omega arith))
    ]

-- The string that `str_from_user` looks for.
abbrev IsThere : Memory → ℕ → ℕ → ℕ → Type 0
IsThere mem src limit k =
    (k < limit)
    × ((j : ℕ) → j ≤ k → is_user_address (src + j) ≡ true)
    × ((j : ℕ) → j < k → mem (src + j) ≢ 0)
    × (mem (src + k) ≡ 0)

-- `str_from_user` gives a length exactly if the memory has a string of that length, shorter than
-- the buffer and the maximum, at user addresses up to its end; the buffer then has its bytes and
-- the zero behind them.
pub str_from_user_lem :
    (mem : Memory) (buf : List ℕ) (src max_len k : ℕ)
    → (((str_from_user mem buf src max_len).0 ≡ ok k) ↔ (
        (k < min max_len (length buf))
        × ((j : ℕ) → j ≤ k → is_user_address (src + j) ≡ true)
        × ((j : ℕ) → j < k → mem (src + j) ≢ 0)
        × (mem (src + k) ≡ 0)))
      × ((str_from_user mem buf src max_len).0 ≡ ok k
          → (j : ℕ) → j ≤ k
          → get_or (str_from_user mem buf src max_len).1 j 0 ≡ mem (src + j))
unfolding str_from_user
str_from_user_lem mem buf src max_len k = ((λ h. (there h).0, back), λ h. (there h).1)
  where
    limit : ℕ
    limit = min max_len (length buf)

    there :
        (str_from_user mem buf src max_len).0 ≡ ok k
        → IsThere mem src limit k
          × ((j : ℕ) → j ≤ k → get_or (str_from_user mem buf src max_len).1 j 0 ≡ mem (src + j))
    there h = elim (Bool-cases ((max_len == 0) || (length buf == 0))) [
      | inl empty ↦
          let whole : ◌≡◌ {A = Result ℕ} (err einval) (ok k) = rw empty at h in absurd (cc)
      | inr room ↦ elim (Bool-cases (access_ok src 1)) [
        | inr bad ↦
            let whole : ◌≡◌ {A = Result ℕ} (err efault) (ok k) = rw (room, bad) at h in absurd (cc)
        | inl good ↦
            let h' : (str_loop mem src limit 0 buf).0 ≡ ok k = rw (room, good) at h in
            let ((_, nul, before, read), below, _) =
              str_loop_lem mem src limit 0 k buf (omega arith) h' in
            rw (room, good)
              (
                (
                  omega (arith, below),
                  (λ j hi. (read j (omega arith) hi).0),
                  (λ j hi. before j (omega arith) hi),
                  nul,
                ),
                λ j hi. (read j (omega arith) hi).1,
              )
      ]
    ]

    back : IsThere mem src limit k → (str_from_user mem buf src max_len).0 ≡ ok k
    back (hi, user, more, nul) =
        let room : ((max_len == 0) || (length buf == 0)) ≡ false = ground (arith, hi) in
        let same : src + 0 ≡ src = omega arith in
        let start : access_ok src 1 ≡ true =
          access_one src (subst (λ a. is_user_address a ≡ true) same (user 0 (omega arith))) in
        rw (room, start)
          (str_loop-ok mem src limit 0 k buf user more nul (omega arith) (omega arith))
