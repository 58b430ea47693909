-- ===== src/Fs/Vfs/Dentry.antt =====
-- kernel/src/fs/vfs/dentry.rs: the cache of directory entries.
pub mod Laws
use theory_os.Base.{
  ℕ, zero, suc, ◌+◌, ◌*◌, ◌%◌, ◌^◌, Bool, true, false, ◌&&◌, Option, none, some, List, [], ◌∷◌,
  ◌==◌, if◌then◌else◌, length, take, replicate,
}
use Prim.Native.Nat.{bit_xor}
use theory_os.Base.Slots.{is_free, holds}
use theory_os.Fs.Vfs.{InodeId, same_inode}

-- `name` is the array up to `name_len`.
pub record Dentry : Type 0 where
  pub parent : InodeId
  pub name_hash : ℕ
  pub name : List ℕ
  pub inode : InodeId
  pub generation : ℕ

abbrev pub Cache : Type 0
Cache = List (Option Dentry)

abbrev pub new : Cache
new = replicate 512 none

-- The loop over the bytes of the name.
unfoldable pub hash_loop : ℕ → List ℕ → ℕ
hash_loop h [] = h
hash_loop h (b ∷ name) = hash_loop ((h * 0x100000001b3 % 2 ^ 64 + b) % 2 ^ 64) name

unfoldable pub hash : InodeId → List ℕ → ℕ
unfolding hash_loop
hash parent name = hash_loop (bit_xor parent.mount (parent.ino * 0x9e3779b9 % 2 ^ 64)) name

unfoldable pub same_bytes : List ℕ → List ℕ → Bool
same_bytes [] [] = true
same_bytes (a ∷ as_) (b ∷ bs) = (a == b) && same_bytes as_ bs
same_bytes _ _ = false

-- The test of `get` on an entry.
abbrev pub is_for : InodeId → List ℕ → Dentry → Bool
is_for parent name e =
    same_inode e.parent parent
    && (e.name_hash == hash parent name)
    && (length e.name == length name)
    && same_bytes e.name name

unfoldable pub get : InodeId → List ℕ → Cache → Option Dentry
unfolding hash same_bytes same_inode
get parent name [] = none
get parent name (none ∷ entries) = get parent name entries
get parent name (some e ∷ entries) =
    let rest = get parent name entries in if is_for parent name e then some e else rest

-- The new entry takes the place of this one.
abbrev pub is_replaced : Dentry → Dentry → Bool
is_replaced dentry e = same_inode e.parent dentry.parent && (e.name_hash == dentry.name_hash)

unfoldable pub insert : Dentry → Cache → Cache
unfolding same_inode
insert dentry [] = []
insert dentry (none ∷ entries) = some dentry ∷ entries
insert dentry (some e ∷ entries) =
    let rest = insert dentry entries in
    if is_replaced dentry e then some dentry ∷ entries else some e ∷ rest

unfoldable pub invalidate_inode : InodeId → Cache → Cache
unfolding same_inode
invalidate_inode inode [] = []
invalidate_inode inode (none ∷ entries) = none ∷ invalidate_inode inode entries
invalidate_inode inode (some e ∷ entries) =
    (if same_inode e.inode inode then none else some e) ∷ invalidate_inode inode entries
