-- ===== src/Fs/Vfs/Path.antt =====
-- kernel/src/fs/vfs/path.rs: from a path to an inode. A resolution that is nested deeper than its
-- fuel gives none; every nesting is the target of a symbolic link.
pub mod Plain
pub mod Current
pub mod Cached
pub mod Links
pub mod Parent
mod Tests
use theory_os.Base.{
  ℕ, zero, suc, ◌+◌, ◌-◌, ◌≤◌, Bool, true, false, not, ◌&&◌, ◌||◌, Option, none, some, List, [],
  ◌∷◌, ltb, leb, ◌==◌, if◌then◌else◌, length, take, drop, min,
}
use theory_os.Fs.Vfs.{
  InodeId, InodeAttr, FileSystem, Result, ok, err, not_found, not_dir, invalid_argument,
  is_directory, is_symlink, ◌>>=◌,
}
use theory_os.Fs.Vfs.Mount.{MountTable, find_mount_for_path, fs_of, slash}
use theory_os.Fs.Vfs.Dentry.{Dentry, Cache, hash, get, insert, invalidate_inode, same_bytes}

abbrev pub max_path : ℕ
max_path = 4096

pub record ResolvedInode : Type 0 where
  pub inode : InodeId
  pub attr : InodeAttr

abbrev pub is_empty {ℓ} : {A : Type ℓ} → List A → Bool
is_empty [] = true
is_empty (x ∷ xs) = false

abbrev pub onto_first : ℕ → List (List ℕ) → List (List ℕ)
onto_first b [] = (b ∷ []) ∷ []
onto_first b (part ∷ parts) = (b ∷ part) ∷ parts

-- `split` at the slashes.
unfoldable pub split : List ℕ → List (List ℕ)
split [] = [] ∷ []
split (b ∷ path) = let rest = split path in if b == slash then [] ∷ rest else onto_first b rest

unfoldable pub non_empty : List (List ℕ) → List (List ℕ)
non_empty [] = []
non_empty ([] ∷ parts) = non_empty parts
non_empty ((b ∷ part) ∷ parts) = (b ∷ part) ∷ non_empty parts

unfoldable pub components : List ℕ → List (List ℕ)
unfolding split non_empty
components path = non_empty (split path)

abbrev pub Outcome : Type 0
Outcome = Option (Result ResolvedInode × Cache)

-- `lookup` and then `getattr`.
abbrev pub look_up : FileSystem → InodeId → List ℕ → Result ResolvedInode
look_up fs dir name = fs.lookup dir name >>= λ child.
    fs.getattr child >>= λ attr. ok (record { inode = child; attr = attr })

abbrev pub dentry_for : InodeId → List ℕ → ResolvedInode → Dentry
dentry_for dir name found = record {
  parent = dir;
  name_hash = hash dir name;
  name = take (min (length name) 64) name;
  inode = found.inode;
  generation = found.attr.generation;
}

-- An entry of the cache, whose inode has these attributes: after a change of the generation the
-- name is looked up again, below the inode of the entry.
abbrev pub from_entry :
    FileSystem → List ℕ → Dentry → Cache → Result InodeAttr → Result ResolvedInode × Cache
from_entry fs name d cache (err e) = (err e, cache)
from_entry fs name d cache (ok attr) =
    if attr.generation == d.generation
    then (ok (record { inode = d.inode; attr = attr }), cache)
    else (look_up fs d.inode name, invalidate_inode d.inode cache)

-- No entry: what is found is put into the cache.
abbrev pub from_lookup :
    InodeId → List ℕ → Cache → Result ResolvedInode → Result ResolvedInode × Cache
from_lookup dir name cache (err e) = (err e, cache)
from_lookup dir name cache (ok found) = (ok found, insert (dentry_for dir name found) cache)

-- One component below a directory.
unfoldable pub step : FileSystem → InodeId → List ℕ → Cache → Result ResolvedInode × Cache
unfolding get insert invalidate_inode hash
step fs dir name cache = elim (get dir name cache) [
  | none ↦ from_lookup dir name cache (look_up fs dir name)
  | some d ↦ from_entry fs name d cache (fs.getattr d.inode)
]

-- A symbolic link on the way: `nested` resolves its target, without what is left of the path. The
-- count of links starts anew in every nesting, so that its test never fails.
abbrev pub follow_link : (List ℕ → Cache → Outcome) → FileSystem → InodeId → Cache → Outcome
follow_link nested fs link cache = elim (fs.readlink link) [
  | err e ↦ some (err e, cache)
  | ok target ↦ nested target cache
]

-- The loop over the components.
unfoldable pub walk :
    (List ℕ → Cache → Outcome) → FileSystem → Bool → ResolvedInode → List (List ℕ) → Cache → Outcome
unfolding step
walk nested fs follow_final at [] cache = some (ok at, cache)
walk nested fs follow_final at (name ∷ rest) cache =
    elim (is_symlink at.attr.file_type && (follow_final || not (is_empty rest))) [
      | true ↦ follow_link nested fs at.inode cache
      | false ↦ elim (is_directory at.attr.file_type) [
        | false ↦ some (err not_dir, cache)
        | true ↦
            let (found, cache') = step fs at.inode name cache in
            elim found [
              | err e ↦ some (err e, cache')
              | ok next ↦ walk nested fs follow_final next rest cache'
            ]
      ]
    ]

-- `rel` is empty or a single slash.
abbrev pub is_root : List ℕ → Bool
is_root rel = same_bytes rel [] || same_bytes rel (slash ∷ [])

-- From the root of a mounted file system on.
abbrev pub enter :
    (List ℕ → Cache → Outcome) → FileSystem → Bool → ResolvedInode → List ℕ → Cache → Outcome
enter nested fs follow_final root rel cache =
    if is_root rel
    then some (ok root, cache)
    else walk nested fs follow_final root (components rel) cache

abbrev pub mount_root : FileSystem → ℕ → InodeId
mount_root fs mount_id = record { mount = mount_id; ino = fs.root.ino }

module _ (table : MountTable) (follow_final : Bool) where
  unfoldable pub resolve_at : ℕ → List ℕ → Cache → Outcome
  unfolding walk components find_mount_for_path fs_of same_bytes
  resolve_at zero path cache = none
  resolve_at (suc fuel) path cache =
      let (mount_id, skip) = find_mount_for_path path table in
      elim (fs_of mount_id table) [
        | none ↦ some (err not_found, cache)
        | some fs ↦ elim (fs.getattr (mount_root fs mount_id)) [
          | err e ↦ some (err e, cache)
          | ok attr ↦
              enter (resolve_at fuel) fs follow_final
                (record { inode = mount_root fs mount_id; attr = attr }) (drop skip path) cache
        ]
      ]

  -- `resolve_path_at`, with the test of `from_kernel_path`.
  unfoldable pub resolve_path_at : ℕ → List ℕ → Cache → Outcome
  unfolding resolve_at
  resolve_path_at fuel path cache =
      if (length path == 0) || leb max_path (length path)
      then some (err invalid_argument, cache)
      else resolve_at fuel path cache

unfoldable pub revalidate : MountTable → ResolvedInode → Result Unit
unfolding fs_of
revalidate table resolved = elim (fs_of resolved.inode.mount table) [
  | none ↦ err not_found
  | some fs ↦ fs.getattr resolved.inode >>= λ attr.
      if attr.generation == resolved.attr.generation then ok tt else err invalid_argument
]
