-- ===== src/Fs/Vfs/Path/Plain.antt =====
-- Resolution of a path without a cache, as the file systems have it.
use theory_os.Base.{
  ℕ, zero, suc, Bool, true, false, not, ◌&&◌, ◌||◌, Option, none, some, List, [], ◌∷◌,
  if◌then◌else◌, drop,
}
use theory_os.Fs.Vfs.{
  InodeId, FileSystem, Result, ok, err, not_found, not_dir, is_directory, is_symlink,
}
use theory_os.Fs.Vfs.Mount.{MountTable, find_mount_for_path, fs_of}
use theory_os.Fs.Vfs.Dentry.{same_bytes}
use theory_os.Fs.Vfs.Path.{ResolvedInode, components, is_empty, is_root, look_up, mount_root}

-- What a resolution without a cache gives; none as before.
abbrev pub Answer : Type 0
Answer = Option (Result ResolvedInode)

abbrev pub plain_target : (List ℕ → Answer) → Result (List ℕ) → Answer
plain_target nested (err e) = some (err e)
plain_target nested (ok target) = nested target

abbrev pub plain_link : (List ℕ → Answer) → FileSystem → InodeId → Answer
plain_link nested fs link = plain_target nested (fs.readlink link)

-- The components of a path, each by `lookup`.
unfoldable pub plain_walk :
    (List ℕ → Answer) → FileSystem → Bool → ResolvedInode → List (List ℕ) → Answer
plain_walk nested fs follow_final at [] = some (ok at)
plain_walk nested fs follow_final at (name ∷ rest) =
    elim (is_symlink at.attr.file_type && (follow_final || not (is_empty rest))) [
      | true ↦ plain_link nested fs at.inode
      | false ↦ elim (is_directory at.attr.file_type) [
        | false ↦ some (err not_dir)
        | true ↦ elim (look_up fs at.inode name) [
          | err e ↦ some (err e)
          | ok next ↦ plain_walk nested fs follow_final next rest
        ]
      ]
    ]

abbrev pub plain_enter : (List ℕ → Answer) → FileSystem → Bool → ResolvedInode → List ℕ → Answer
plain_enter nested fs follow_final root rel =
    if is_root rel then some (ok root) else plain_walk nested fs follow_final root (components rel)

module _ (table : MountTable) (follow_final : Bool) where
  unfoldable pub plain_resolve : ℕ → List ℕ → Answer
  unfolding plain_walk components find_mount_for_path fs_of same_bytes
  plain_resolve zero path = none
  plain_resolve (suc fuel) path =
      let (mount_id, skip) = find_mount_for_path path table in
      elim (fs_of mount_id table) [
        | none ↦ some (err not_found)
        | some fs ↦ elim (fs.getattr (mount_root fs mount_id)) [
          | err e ↦ some (err e)
          | ok attr ↦
              plain_enter (plain_resolve fuel) fs follow_final
                (record { inode = mount_root fs mount_id; attr = attr }) (drop skip path)
        ]
      ]
