-- ===== src/Fs/Vfs/Mount.antt =====
-- kernel/src/fs/vfs/mount.rs: the table of mounted file systems.
pub mod Laws
use theory_os.Base.{
  ℕ, zero, suc, ◌+◌, ◌-◌, Bool, true, false, not, ◌&&◌, ◌||◌, Option, none, some, List, [], ◌∷◌,
  ltb, leb, ◌==◌, if◌then◌else◌, length, get_or, take, min, set, replicate,
}
use theory_os.Base.Slots.{entry}
use theory_os.Fs.Vfs.{FileSystem, InodeId}

abbrev pub max_mounts : ℕ
max_mounts = 16

-- `path` is the array up to `path_len`.
pub record MountPoint : Type 0 where
  pub id : ℕ
  pub path : List ℕ
  pub fs : FileSystem
  pub root : InodeId

abbrev pub path_len : MountPoint → ℕ
path_len mp = length mp.path

pub record MountTable : Type 0 where
  pub mounts : List (Option MountPoint)
  pub root_mount : ℕ
  pub count : ℕ

abbrev pub initial : MountTable
initial = record { mounts = replicate max_mounts none; root_mount = 0; count = 0 }

-- None is `Err(())`; a path is cut to 255 bytes.
unfoldable pub register : List ℕ → FileSystem → MountTable → Option ℕ × MountTable
register path fs t = if leb max_mounts t.count then (none, t) else (
  some t.count,
  record {
    mounts = set t.mounts t.count (
        some (record {
          id = t.count;
          path = take (min (length path) 255) path;
          fs = fs;
          root = record { mount = t.count; ino = fs.root.ino };
        }));
    root_mount = if t.count == 0 then 0 else t.root_mount;
    count = t.count + 1;
  },
)

-- `path.starts_with(front)`.
unfoldable pub starts_with : List ℕ → List ℕ → Bool
starts_with path [] = true
starts_with [] (x ∷ front) = false
starts_with (y ∷ path) (x ∷ front) = (y == x) && starts_with path front

-- `b'/'`.
abbrev pub slash : ℕ
slash = 0x2f

-- The path goes on with a slash behind its first `n` bytes, or ends there.
abbrev pub ends_name : List ℕ → ℕ → Bool
ends_name path n = not (ltb n (length path)) || (get_or path n 0 == slash)

-- The mount point lies on the path.
abbrev pub covers : List ℕ → MountPoint → Bool
covers path mp =
    leb (path_len mp) (length path) && starts_with path mp.path && ends_name path (path_len mp)

-- One round of the loop, on the best mount so far and the length of its path.
abbrev pub better : List ℕ → MountPoint → ℕ × ℕ → ℕ × ℕ
better path mp best =
    if path_len mp == 0
    then (if (length path == 0) || (get_or path 0 0 == slash) then (mp.id, 0) else best)
    else if covers path mp && leb best.1 (path_len mp)
    then (mp.id, path_len mp)
    else best

unfoldable pub find_loop : List ℕ → List (Option MountPoint) → ℕ × ℕ → ℕ × ℕ
unfolding starts_with
find_loop path [] best = best
find_loop path (none ∷ mounts) best = find_loop path mounts best
find_loop path (some mp ∷ mounts) best = find_loop path mounts (better path mp best)

unfoldable pub find_mount_for_path : List ℕ → MountTable → ℕ × ℕ
unfolding find_loop
find_mount_for_path path t = find_loop path t.mounts (0, 0)

unfoldable pub fs_of : ℕ → MountTable → Option FileSystem
fs_of id t = elim (entry t.mounts id) [ none ↦ none | some mp ↦ some mp.fs ]
