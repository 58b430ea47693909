-- ===== src/Fs/Vfs.antt =====
-- kernel/src/fs/vfs/inode.rs and superblock.rs: what path resolution knows of a file system.
pub mod Mount
pub mod Dentry
pub mod Path
use theory_os.Base.{ℕ, Bool, true, false, ◌&&◌, List, ◌==◌, if◌then◌else◌, ◌≡◌, refl, arith}

pub record InodeId : Type 0 where
  pub mount : ℕ
  pub ino : ℕ

-- `InodeId::INVALID`.
abbrev pub invalid : InodeId
invalid = record { mount = 0xffff_ffff; ino = 0 }

-- The derived `==`.
unfoldable pub same_inode : InodeId → InodeId → Bool
same_inode x y = (x.mount == y.mount) && (x.ino == y.ino)

pub data FileType : Type 0 where
  regular : FileType
  directory : FileType
  symlink : FileType
  char_dev : FileType
  block_dev : FileType
  fifo : FileType
  socket : FileType

abbrev pub is_directory : FileType → Bool
is_directory directory = true
is_directory _ = false

abbrev pub is_symlink : FileType → Bool
is_symlink symlink = true
is_symlink _ = false

pub record InodeAttr : Type 0 where
  pub ino : ℕ
  pub mode : ℕ
  pub file_type : FileType
  pub size : ℕ
  pub nlink : ℕ
  pub generation : ℕ
  pub rdev : ℕ

pub data FsError : Type 0 where
  not_found : FsError
  exists : FsError
  not_dir : FsError
  is_dir : FsError
  not_file : FsError
  not_symlink : FsError
  invalid_argument : FsError
  io : FsError
  no_space : FsError
  not_supported : FsError
  too_many_links : FsError
  access_denied : FsError

pub data Result (A : Type 0) : Type 0 where
  ok : A → Result A
  err : FsError → Result A

-- The `?` of the code.
infixl 5 ◌>>=◌
abbrev pub ◌>>=◌ : {A B : Type 0} → Result A → (A → Result B) → Result B
ok a >>= f = f a
err e >>= f = err e

-- The methods of the trait that read the tree. `readlink` gives the bytes written to its buffer.
pub record FileSystem : Type 0 where
  pub root : InodeId
  pub getattr : InodeId → Result InodeAttr
  pub lookup : InodeId → List ℕ → Result InodeId
  pub readlink : InodeId → Result (List ℕ)

pub same_inode_sound : (x y : InodeId) → same_inode x y ≡ true → x ≡ y
unfolding same_inode
same_inode_sound x y h i = record { mount = first h i; ino = second h i }
  where
    first : same_inode x y ≡ true → x.mount ≡ y.mount
    first h = ground (arith, h)

    second : same_inode x y ≡ true → x.ino ≡ y.ino
    second h = ground (arith, h)

pub same_inode_self : (x : InodeId) → same_inode x x ≡ true
unfolding same_inode
same_inode_self x = ground arith
