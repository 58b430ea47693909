-- ===== src/Syscall/Uaccess.antt =====
-- kernel/src/syscall/uaccess.rs: checks of user pointers and copies. User memory gives the byte at
-- every address; the switches of the page table and of SMAP around a copy are left out.
pub mod Laws
mod Tests
use theory_os.Base.{
  ℕ, zero, suc, ◌+◌, ◌-◌, ◌^◌, Bool, true, false, not, ◌&&◌, ◌||◌, Option, none, some, List, [],
  ◌∷◌, ltb, leb, ◌==◌, if◌then◌else◌, length, set, min,
}

-- kernel/src/mm/layout.rs.
abbrev pub user_addr_min : ℕ
user_addr_min = 0x0000_0000_0001_0000

abbrev pub user_addr_max : ℕ
user_addr_max = 0x0000_7fff_ffff_ffff

unfoldable pub is_user_address : ℕ → Bool
is_user_address addr = leb user_addr_min addr && leb addr user_addr_max

-- The last address of the range, if it fits in 64 bits.
abbrev pub last_address : ℕ → ℕ → Option ℕ
last_address addr len = if ltb (addr + (len - 1)) (2 ^ 64) then some (addr + (len - 1)) else none

unfoldable pub access_ok : ℕ → ℕ → Bool
unfolding is_user_address
access_ok addr len =
    if len == 0
    then (addr == 0) || is_user_address addr
    else if (addr == 0) || ltb addr user_addr_min
    then false
    else if not (is_user_address addr)
    then false
    else elim (last_address addr len) [
      | none ↦ false
      | some end ↦ is_user_address end && leb end user_addr_max
    ]

pub data Errno : Type 0 where
  efault : Errno
  einval : Errno

pub data Result (A : Type 0) : Type 0 where
  ok : A → Result A
  err : Errno → Result A

abbrev pub Memory : Type 0
Memory = ℕ → ℕ

-- `n` bytes from `addr` on.
abbrev pub bytes_at : Memory → ℕ → ℕ → List ℕ
bytes_at mem addr zero = []
bytes_at mem addr (suc n) = mem addr ∷ bytes_at mem (addr + 1) n

-- The bytes that fill a buffer of `len` bytes.
unfoldable pub copy_from_user : Memory → ℕ → ℕ → Result (List ℕ)
unfolding access_ok
copy_from_user mem len user_src =
    if not (access_ok user_src len) then err efault else ok (bytes_at mem user_src len)

-- Memory with the bytes from `addr` on.
abbrev pub store : Memory → ℕ → List ℕ → Memory
store mem addr [] = mem
store mem addr (b ∷ bytes) = λ a. if a == addr then b else store mem (addr + 1) bytes a

unfoldable pub copy_to_user : ℕ → List ℕ → Memory → Result ℕ × Memory
unfolding access_ok
copy_to_user user_dst src mem =
    if not (access_ok user_dst (length src))
    then (err efault, mem)
    else (ok (length src), store mem user_dst src)

-- The loop from byte `i` on, for `n` more bytes.
unfoldable pub str_loop : Memory → ℕ → ℕ → ℕ → List ℕ → Result ℕ × List ℕ
unfolding access_ok
str_loop mem user_src zero i buf = (err einval, buf)
str_loop mem user_src (suc n) i buf =
    let rest = str_loop mem user_src n (i + 1) (set buf i (mem (user_src + i))) in
    if not (access_ok (user_src + i) 1)
    then (err efault, buf)
    else if mem (user_src + i) == 0
    then (ok i, set buf i (mem (user_src + i)))
    else rest

unfoldable pub str_from_user : Memory → List ℕ → ℕ → ℕ → Result ℕ × List ℕ
unfolding access_ok str_loop
str_from_user mem buf user_src max_len =
    if (max_len == 0) || (length buf == 0)
    then (err einval, buf)
    else if not (access_ok user_src 1)
    then (err efault, buf)
    else str_loop mem user_src (min max_len (length buf)) 0 buf

unfoldable pub user_slice_ok : ℕ → ℕ → Result Unit
unfolding access_ok
user_slice_ok addr len = if access_ok addr len then ok tt else err efault
