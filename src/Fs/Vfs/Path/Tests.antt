-- ===== src/Fs/Vfs/Path/Tests.antt =====
-- A file system with one file and one link to itself, and the theorems there.
use theory_os.Base.{
  ℕ, zero, suc, ◌≤◌, ◌<◌, ◌≡◌, ◌≢◌, ◌⊎◌, refl, sym, ap, ◌∙◌, arith, true, false, none, some, List,
  [], ◌∷◌, ◌==◌, if◌then◌else◌, length, Bool-cases, inl, inr,
}
use mathlib.Core.Path.{subst}
use theory_os.Base.Slots.{entry}
use theory_os.Fs.Vfs.{
  InodeId, InodeAttr, FileSystem, Result, ok, err, not_found, not_dir, regular, directory, symlink,
  FileType, is_symlink,
}
use theory_os.Fs.Vfs.Mount.{MountTable, MountPoint, find_mount_for_path, fs_of, path_len, slash}
use theory_os.Fs.Vfs.Mount.Laws.{Holds, LiesOn, find_mount_for_path_lem}
use theory_os.Fs.Vfs.Dentry.{Dentry, Cache, hash, get, insert, same_bytes, is_for}
use theory_os.Fs.Vfs.Dentry.Laws.{get-insert, shares_hash}
use theory_os.Fs.Vfs.Path.{resolve_at, components, step}
use theory_os.Fs.Vfs.Path.Plain.{plain_resolve}
use theory_os.Fs.Vfs.Path.Current.{IsMounted, same_bytes_sound}
use theory_os.Fs.Vfs.Path.Cached.{Agrees, resolve_at-plain_resolve}
use theory_os.Fs.Vfs.Path.Links.{resolve_at-some, resolve_at-none, NoLinks}

abbrev a_name : List ℕ
a_name = 0x61 ∷ []

-- "/a" and "/a/b".
abbrev a_path : List ℕ
a_path = slash ∷ a_name

abbrev loop_path : List ℕ
loop_path = slash ∷ 0x61 ∷ slash ∷ 0x62 ∷ []

abbrev attr_of : FileType → InodeAttr
attr_of t = record {
  ino = 1;
  mode = 0;
  file_type = t;
  size = 0;
  nlink = 1;
  generation = 1;
  rdev = 0;
}

abbrev child : InodeId
child = record { mount = 0; ino = 2 }

-- The root, and below it "a", of the given type, which as a link names "/a/b".
abbrev tree : FileType → FileSystem
tree t = record {
  root = record { mount = 0; ino = 1 };
  getattr = λ i. if i.ino == 1 then ok (attr_of directory) else ok (attr_of t);
  lookup = λ dir name.
      if dir.ino == 1
      then (if same_bytes name a_name then ok child else err not_found)
      else err not_dir;
  readlink = λ i. ok loop_path;
}

abbrev table : FileType → MountTable
table t = record {
  mounts =
      some (record { id = 0; path = []; fs = tree t; root = record { mount = 0; ino = 1 } })
      ∷ none
      ∷ [];
  root_mount = 0;
  count = 1;
}

lookup-tree :
    (t : FileType) (dir found : InodeId) (name : List ℕ)
    → (tree t).lookup dir name ≡ ok found
    → (found.mount ≡ 0) × (length name ≤ 64)
lookup-tree t dir found name h = elim (Bool-cases (dir.ino == 1)) [
  | inl root ↦ elim (Bool-cases (same_bytes name a_name)) [
    | inl same ↦
        let whole : ok child ≡ ok found = rw (root, same) at h in
        let it : child ≡ found = cc in
        (ap (λ i. i.mount) (sym it), omega (arith, ap length (same_bytes_sound name a_name same)))
    | inr differ ↦
        let bad : ◌≡◌ {A = Result InodeId} (err not_found) (ok found) = rw (root, differ) at h in
        absurd (cc)
  ]
  | inr other ↦
      let bad : ◌≡◌ {A = Result InodeId} (err not_dir) (ok found) = rw other at h in absurd (cc)
]

fs_of-table :
    (t : FileType) (id : ℕ) (fs : FileSystem)
    → fs_of id (table t) ≡ some fs
    → (id ≡ 0) × (tree t ≡ fs)
unfolding fs_of
fs_of-table t zero fs h = (refl, cc)
fs_of-table t (suc zero) fs h = absurd (cc)
fs_of-table t (suc (suc id)) fs h = absurd (cc)

table-IsMounted : (t : FileType) → IsMounted (table t)
table-IsMounted t = record {
  own = λ id fs dir found name here h.
      let (zero_id, same) = fs_of-table t id fs here in
      (lookup-tree t dir found name (subst (λ f. f.lookup dir name ≡ ok found) (sym same) h)).0
      ∙ sym zero_id;
  short = λ id fs dir found name here h.
      let (_, same) = fs_of-table t id fs here in
      (lookup-tree t dir found name (subst (λ f. f.lookup dir name ≡ ok found) (sym same) h)).1;
}

abbrev empty_cache : Cache
empty_cache = none ∷ none ∷ []

resolve_at-plain_resolve_example :
    Agrees
      (table regular)
      (table-IsMounted regular)
      (resolve_at (table regular) true 2 a_path empty_cache)
      (plain_resolve (table regular) true 2 a_path)
resolve_at-plain_resolve_example =
    resolve_at-plain_resolve (table regular) (table-IsMounted regular) true 2 a_path empty_cache tt

no_links : (id : ℕ) (fs : FileSystem) → fs_of id (table regular) ≡ some fs → NoLinks fs
no_links id fs here inode attr h =
    let same : fs ≡ tree regular = sym (fs_of-table regular id fs here).1 in
    let given : (tree regular).getattr inode ≡ ok attr =
      subst (λ f. f.getattr inode ≡ ok attr) same h in
    elim (Bool-cases (inode.ino == 1)) [
      | inl root ↦
          let whole : ok (attr_of directory) ≡ ok attr = rw root at given in
          let it : attr_of directory ≡ attr = cc in ap (λ a. is_symlink a.file_type) (sym it)
      | inr other ↦
          let whole : ok (attr_of regular) ≡ ok attr = rw other at given in
          let it : attr_of regular ≡ attr = cc in ap (λ a. is_symlink a.file_type) (sym it)
    ]

resolve_at-some_example : resolve_at (table regular) true 1 a_path empty_cache ≢ none
resolve_at-some_example = resolve_at-some (table regular) true 0 a_path empty_cache no_links

resolve_at-none_example : resolve_at (table symlink) true 5 loop_path empty_cache ≡ none
unfolding fs_of find_mount_for_path components same_bytes
resolve_at-none_example =
    resolve_at-none (table symlink) loop_path (tree symlink) (attr_of directory)
      (record { inode = child; attr = attr_of symlink }) a_name (0x62 ∷ []) []
      (table-IsMounted symlink) empty_cache tt refl refl refl refl refl refl refl 5

-- An entry that was made before a write to the file.
abbrev stale : Dentry
stale = record {
  parent = record { mount = 0; ino = 1 };
  name_hash = hash (record { mount = 0; ino = 1 }) a_name;
  name = a_name;
  inode = child;
  generation = 0;
}

-- The name is looked up again below the file itself, which is no directory.
stale_run :
    (step (tree regular) (record { mount = 0; ino = 1 }) a_name (some stale ∷ [])).0 ≡ err not_dir
unfolding step
stale_run = refl

get-insert_example :
    ((parent : InodeId) (name : List ℕ)
      → is_for parent name stale ≡ true
      → get parent name (insert stale empty_cache) ≡ some stale)
    × ((parent : InodeId) (name : List ℕ)
        → shares_hash stale parent name ≡ false
        → get parent name (insert stale empty_cache) ≡ get parent name empty_cache)
get-insert_example = get-insert stale empty_cache refl

-- The root and "/a".
abbrev root_mount : MountPoint
root_mount = record { id = 0; path = []; fs = tree regular; root = record { mount = 0; ino = 1 } }

abbrev a_mount : MountPoint
a_mount = record { id = 1; path = a_path; fs = tree regular; root = record { mount = 1; ino = 1 } }

abbrev mounts : MountTable
mounts = record { mounts = some root_mount ∷ some a_mount ∷ []; root_mount = 0; count = 2 }

named : (i : ℕ) (mp : MountPoint) → entry (some a_mount ∷ []) i ≡ some mp → 0 < path_len mp
named zero mp e = let it : a_mount ≡ mp = cc in omega (arith, ap path_len it)
named (suc i) mp e = absurd (cc)

find_mount_for_path_lem_example :
    ((mp : MountPoint)
      → Holds (some a_mount ∷ []) mp
      → LiesOn loop_path mp
      → path_len mp ≤ (find_mount_for_path loop_path mounts).1)
    × ((find_mount_for_path loop_path mounts ≡ (0, 0))
        ⊎ ((mp : MountPoint) × Holds (some a_mount ∷ []) mp
            × LiesOn loop_path mp
            × (find_mount_for_path loop_path mounts ≡ (mp.id, path_len mp))))
find_mount_for_path_lem_example =
    find_mount_for_path_lem loop_path mounts root_mount (some a_mount ∷ []) refl refl named
      (inr refl)
