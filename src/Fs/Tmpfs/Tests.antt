-- ===== src/Fs/Tmpfs/Tests.antt =====
-- A file system with the file "a" below its root, and the theorems there.
use theory_os.Base.{
  inl, inr, Bool-cases, ap, ◌∙◌, ◌==◌, false, ℕ, ◌+◌, ◌≤◌, ◌<◌, ◌≡◌, ◌≢◌, ◌⊎◌, refl, arith, true,
  false, Option, none, some, List, [], ◌∷◌, length, get_or, max,
}
use theory_os.Fs.Vfs.{InodeId, Result, ok, err, exists, not_dir, regular, directory}
use theory_os.Fs.Vfs.Mount.{MountTable, slash}
use theory_os.Fs.Vfs.Dentry.{Cache, same_bytes}
use theory_os.Fs.Vfs.Path.{ResolvedInode, resolve_at, Outcome}
use theory_os.Fs.Tmpfs.Utf8.{from_utf8}
use theory_os.Fs.Tmpfs.Names.{find_child}
use theory_os.Fs.Tmpfs.{
  TmpFs, TmpInode, create, lookup, getattr, node_at, read, write, empty_inode, put, default_dir,
  file_system,
}
use theory_os.Fs.Tmpfs.Data.{read-write}
use theory_os.Fs.Tmpfs.Tree.{IsDirectory, IsNumbered, lookup-create}

abbrev a_name : List ℕ
a_name = 0x61 ∷ []

abbrev root : InodeId
root = record { mount = 0; ino = 1 }

abbrev file : InodeId
file = record { mount = 0; ino = 2 }

abbrev root_node : TmpInode
root_node = record (empty_inode 1 directory default_dir 2) { children = (a_name, 2) ∷ [] }

abbrev file_node : TmpInode
file_node = record (empty_inode 2 regular 0o644 1) { contents = 1 ∷ 2 ∷ 3 ∷ [] }

abbrev tree : TmpFs
tree = record {
  next_ino = 3;
  inodes = put 1 (some root_node) (put 2 (some file_node) (λ i. none));
  mount_id = 0;
}

-- Two bytes behind the end, with a gap before them.
gap :
    (s : TmpFs) × (write file 4 (8 ∷ 9 ∷ []) tree ≡ some (ok 2, s))
    × (read s file 0 9 ≡ ok (1 ∷ 2 ∷ 3 ∷ 0 ∷ 8 ∷ 9 ∷ []))
unfolding write read
gap = (_, refl, refl)

read-write_example :
    (s' : TmpFs) × (node' : TmpInode) × (write file 4 (8 ∷ 9 ∷ []) tree ≡ some (ok 2, s'))
    × (read s' file 4 2 ≡ ok (8 ∷ 9 ∷ []))
    × (node_at s' file ≡ ok node')
    × ((j : ℕ)
        → (j < 4) ⊎ (4 + 2 ≤ j)
        → get_or node'.contents j 0 ≡ get_or {A = ℕ} (1 ∷ 2 ∷ 3 ∷ []) j 0)
    × (length node'.contents ≡ max (4 + 2) 3)
    × (node'.attr.size ≡ length node'.contents)
    × (node'.attr.generation ≡ 1 + 1)
    × ((i : ℕ) → i ≢ 2 → s'.inodes i ≡ tree.inodes i)
unfolding node_at
read-write_example = read-write tree file 4 (8 ∷ 9 ∷ []) file_node refl refl (omega arith)

root-IsDirectory : IsDirectory tree root root_node
root-IsDirectory = record { mounted = refl; there = refl; kind = refl }

tree-nodes :
    (i : ℕ) (node : TmpInode)
    → tree.inodes i ≡ some node
    → ((i ≡ 1) × (root_node ≡ node)) ⊎ ((i ≡ 2) × (file_node ≡ node))
tree-nodes i node h = elim (Bool-cases (i == 1)) [
  | inl first ↦
      let it : some root_node ≡ some node = rw first at h in inl (ground (arith, first), cc)
  | inr more ↦ elim (Bool-cases (i == 2)) [
    | inl second ↦
        let it : some file_node ≡ some node = rw (more, second) at h in
        inr (ground (arith, second), cc)
    | inr none_ ↦ let it : none ≡ some node = rw (more, none_) at h in absurd (cc)
  ]
]

found_in_root : (name : List ℕ) (ino : ℕ) → find_child name root_node.children ≡ some ino → 2 ≡ ino
unfolding find_child
found_in_root name ino h = elim (Bool-cases (same_bytes a_name name)) [
  | inl same ↦ let it : some 2 ≡ some ino = rw same at h in cc
  | inr differ ↦ let it : none ≡ some ino = rw differ at h in absurd (cc)
]

found_in_file : (name : List ℕ) (ino : ℕ) → find_child name file_node.children ≢ some ino
unfolding find_child
found_in_file name ino h = absurd (cc)

tree-IsNumbered : IsNumbered tree
tree-IsNumbered = record {
  used = λ i node h. elim (tree-nodes i node h) [
    | inl (e, _) ↦ omega (arith, e)
    | inr (e, _) ↦ omega (arith, e)
  ];
  linked = λ i node name ino h e. elim (tree-nodes i node h) [
    | inl (_, is) ↦
        omega (arith, found_in_root name ino (ap (λ n. find_child name n.children) is ∙ e))
    | inr (_, is) ↦ absurd (found_in_file name ino (ap (λ n. find_child name n.children) is ∙ e))
  ];
}

-- The name "a" is there, so the call fails and uses a number up.
lookup-create_example :
    (find_child a_name root_node.children ≡ none
      → (s' : TmpFs) × (create root a_name regular 0o644 tree
          ≡ (ok (record { mount = 0; ino = 3 }), s'))
        × (tree.inodes 3 ≡ none)
        × (lookup s' root a_name ≡ ok (record { mount = 0; ino = 3 }))
        × (getattr s' (record { mount = 0; ino = 3 })
            ≡ ok (record {
              ino = 3;
              mode = 0o644;
              file_type = regular;
              size = 0;
              nlink = 1;
              generation = 1;
              rdev = 0;
            }))
        × ((other : List ℕ)
            → same_bytes a_name other ≡ false
            → from_utf8 other ≡ true
            → lookup s' root other ≡ lookup tree root other)
        × (s'.next_ino ≡ 3 + 1)
        × IsNumbered s')
    × ((ino : ℕ)
        → find_child a_name root_node.children ≡ some ino
        → (s' : TmpFs) × (made : TmpInode) × (create root a_name regular 0o644 tree
            ≡ (err exists, s'))
          × (s'.inodes 3 ≡ some made)
          × ((i : ℕ) → i ≢ 3 → s'.inodes i ≡ tree.inodes i)
          × ((i : ℕ) (holder : TmpInode) (other : List ℕ)
              → s'.inodes i ≡ some holder
              → find_child other holder.children ≢ some 3)
          × (s'.next_ino ≡ 3 + 1)
          × IsNumbered s')
unfolding from_utf8
lookup-create_example =
    lookup-create tree root root_node a_name regular 0o644 tree-IsNumbered root-IsDirectory refl
      (omega arith)

-- The file system as the root mount.
abbrev mounted : TmpFs → MountTable
mounted s = record {
  mounts = some (record { id = 0; path = []; fs = file_system s; root = root }) ∷ [];
  root_mount = 0;
  count = 1;
}

-- "/a" resolved, and resolved again with the cache of the first time after a write to the file.
twice : Option (Result ResolvedInode × Cache) → Outcome
twice none = none
twice (some (_, cache)) = elim (write file 0 (7 ∷ []) tree) [
  | none ↦ none
  | some (_, s) ↦ resolve_at (mounted s) true 1 (slash ∷ a_name) cache
]

first_time :
    (cache : Cache) × (resolve_at (mounted tree) true 1 (slash ∷ a_name) (none ∷ [])
      ≡ some (ok (record { inode = file; attr = file_node.attr }), cache))
unfolding resolve_at getattr lookup from_utf8 find_child
first_time = (_, refl)

after_write :
    (cache : Cache) × (twice (resolve_at (mounted tree) true 1 (slash ∷ a_name) (none ∷ []))
      ≡ some (err not_dir, cache))
unfolding twice resolve_at write getattr lookup from_utf8 find_child
after_write = (_, refl)
