-- ===== src/Fs/Tmpfs/Tree.antt =====
-- What the directory tree has after a file is made.
use theory_os.Base.{
  ℕ, ◌+◌, ◌<◌, ◌≡◌, ◌≢◌, ◌⊎◌, inl, inr, [], Bool-cases, Option-cases, refl, sym, ap, ◌∙◌, arith,
  true, false, none, some, List, ◌==◌, length,
}
use theory_os.Fs.Vfs.{InodeId, FileType, ok, err, exists, is_directory}
use theory_os.Fs.Vfs.Dentry.{same_bytes}
use theory_os.Fs.Tmpfs.Utf8.{from_utf8}
use theory_os.Fs.Vfs.Path.Current.{same_bytes_sound}
use theory_os.Fs.Tmpfs.Names.{
  Children, find_child, insert_child, find_child-insert_child_self, find_child-insert_child_ne,
}
use theory_os.Fs.Tmpfs.{
  TmpFs, TmpInode, node_at, found_inode, found_child, lookup, getattr, create, alloc_inode,
  add_entry, link_in, id_of, empty_inode, bumped,
}

-- A directory of the file system.
pub record IsDirectory (s : TmpFs) (dir : InodeId) (node : TmpInode) : Type 0 where
  pub mounted : dir.mount ≡ s.mount_id
  pub there : s.inodes dir.ino ≡ some node
  pub kind : is_directory node.attr.file_type ≡ true

-- Numbers are given out in order, and no directory has one that is not given out yet.
pub record IsNumbered (s : TmpFs) : Type 0 where
  pub used : (i : ℕ) (node : TmpInode) → s.inodes i ≡ some node → i < s.next_ino
  pub linked :
      (i : ℕ) (node : TmpInode) (name : List ℕ) (ino : ℕ)
      → s.inodes i ≡ some node
      → find_child name node.children ≡ some ino
      → ino < s.next_ino

node_at-some :
    (s : TmpFs) (inode : InodeId) (node : TmpInode)
    → inode.mount ≡ s.mount_id
    → s.inodes inode.ino ≡ some node
    → node_at s inode ≡ ok node
unfolding node_at
node_at-some s inode node m h =
    let same : (inode.mount == s.mount_id) ≡ true = ground (arith, m) in rw same (ap found_inode h)

-- What `lookup` gives in a directory.
lookup-directory :
    (s : TmpFs) (dir : InodeId) (node : TmpInode) (name : List ℕ)
    → dir.mount ≡ s.mount_id
    → s.inodes dir.ino ≡ some node
    → is_directory node.attr.file_type ≡ true
    → from_utf8 name ≡ true
    → lookup s dir name ≡ found_child s (find_child name node.children)
unfolding lookup
lookup-directory s dir node name m h kind valid =
    let same : (dir.mount == s.mount_id) ≡ true = ground (arith, m) in
    rw (same, valid, h, kind) refl

-- `create` in a directory, up to the entry.
create-directory :
    (s : TmpFs) (dir : InodeId) (node : TmpInode) (name : List ℕ) (t : FileType) (mode : ℕ)
    → IsDirectory s dir node
    → dir.ino ≢ s.next_ino
    → from_utf8 name ≡ true
    → 0 < length name
    → create dir name t mode s ≡ add_entry dir.ino name s.next_ino (alloc_inode t mode s) (ok node)
unfolding create alloc_inode
create-directory s dir node name t mode d old valid some_byte =
    let same : (dir.mount == s.mount_id) ≡ true = ground (arith, d.mounted) in
    let bytes : (length name == 0) ≡ false = ground (arith, some_byte) in
    let other : (dir.ino == s.next_ino) ≡ false = ground (arith, old) in
    rw (same, valid, bytes, other, d.there, d.kind) refl

next_ino-alloc_inode :
    (s : TmpFs) (t : FileType) (mode : ℕ) → (alloc_inode t mode s).next_ino ≡ s.next_ino + 1
unfolding alloc_inode
next_ino-alloc_inode s t mode = refl

inodes-alloc_inode :
    (s : TmpFs) (t : FileType) (mode : ℕ)
    → (alloc_inode t mode s).inodes s.next_ino ≡ some (empty_inode s.next_ino t mode 1)
unfolding alloc_inode
inodes-alloc_inode s t mode = ground arith

inodes-alloc_inode_ne :
    (s : TmpFs) (t : FileType) (mode i : ℕ)
    → i ≢ s.next_ino
    → (alloc_inode t mode s).inodes i ≡ s.inodes i
unfolding alloc_inode
inodes-alloc_inode_ne s t mode i ne = ground (arith, ne)

find_child-nil : (name : List ℕ) (ino : ℕ) → find_child name [] ≢ some ino
unfolding find_child
find_child-nil name ino h = absurd (cc)

-- The new inode is the only change of the map.
alloc_inode_lem :
    (s : TmpFs) (t : FileType) (mode i : ℕ) (node : TmpInode)
    → (alloc_inode t mode s).inodes i ≡ some node
    → ((i ≡ s.next_ino) × (node.children ≡ [])) ⊎ (s.inodes i ≡ some node)
unfolding alloc_inode
alloc_inode_lem s t mode i node h = elim (Bool-cases (i == s.next_ino)) [
  | inl new_one ↦
      let made : some (empty_inode s.next_ino t mode 1) ≡ some node = rw new_one at h in
      let it : empty_inode s.next_ino t mode 1 ≡ node = cc in
      inl (ground (arith, new_one), ap (λ n. n.children) (sym it))
  | inr old_one ↦ inr (rw old_one at h)
]

alloc_inode-IsNumbered :
    (s : TmpFs) (t : FileType) (mode : ℕ) → IsNumbered s → IsNumbered (alloc_inode t mode s)
alloc_inode-IsNumbered s t mode n = record {
  used = λ i node h. elim (alloc_inode_lem s t mode i node h) [
    | inl (new_one, _) ↦ omega (arith, new_one, next_ino-alloc_inode s t mode)
    | inr old_one ↦ omega (arith, n.used i node old_one, next_ino-alloc_inode s t mode)
  ];
  linked = λ i node name ino h found. elim (alloc_inode_lem s t mode i node h) [
    | inl (_, no_children) ↦
        let nothing : find_child name [] ≡ some ino =
          ap (find_child name) (sym no_children) ∙ found in
        absurd (find_child-nil name ino nothing)
    | inr old_one ↦
        omega (arith, n.linked i node name ino old_one found, next_ino-alloc_inode s t mode)
  ];
}

-- What is found behind an insertion is the new number or was found before.
insert_child-cases :
    (name wanted : List ℕ) (new_ino ino : ℕ) (children : Children)
    → find_child name children ≡ none
    → find_child wanted (insert_child name new_ino children) ≡ some ino
    → (ino ≡ new_ino) ⊎ (find_child wanted children ≡ some ino)
insert_child-cases name wanted new_ino ino children absent h =
    elim (Bool-cases (same_bytes name wanted)) [
      | inl same ↦
          let e : name ≡ wanted = same_bytes_sound name wanted same in
          let here : some new_ino ≡ some ino =
            sym (find_child-insert_child_self name new_ino children)
            ∙ ap (λ x. find_child x (insert_child name new_ino children)) e
            ∙ h in
          inl (cc)
      | inr differ ↦
          inr (sym (find_child-insert_child_ne name wanted new_ino children differ absent) ∙ h)
    ]

link_in-IsNumbered :
    (s : TmpFs) (dir : ℕ) (node : TmpInode) (name : List ℕ) (ino : ℕ)
    → IsNumbered s
    → s.inodes dir ≡ some node
    → find_child name node.children ≡ none
    → ino < s.next_ino
    → IsNumbered (link_in dir name ino node s)
link_in-IsNumbered s dir node name ino n there absent given = record {
  used = λ i other h. elim (Bool-cases (i == dir)) [
    | inl same ↦ let at : i ≡ dir = ground (arith, same) in omega (arith, n.used dir node there, at)
    | inr differ ↦ n.used i other (rw differ at h)
  ];
  linked = λ i other wanted found h e. elim (Bool-cases (i == dir)) [
    | inl same ↦
        let it : some linked ≡ some other = rw same at h in
        let whole : linked ≡ other = cc in
        let inside : find_child wanted (insert_child name ino node.children) ≡ some found =
          ap (λ x. find_child wanted x.children) whole ∙ e in
        elim (insert_child-cases name wanted ino found node.children absent inside) [
          | inl new_one ↦ omega (arith, new_one, given)
          | inr old_one ↦ n.linked dir node wanted found there old_one
        ]
    | inr differ ↦ n.linked i other wanted found (rw differ at h) e
  ];
}
  where
    linked : TmpInode
    linked = bumped (record node { children = insert_child name ino node.children })

-- In a file system whose numbers are given out in order, for a valid name that is not empty. Where
-- the directory does not have the name, the file made has the next number, which no inode had; the
-- name is found with that number, the type and the mode; every other name of the directory is found
-- as before. Where the directory has the name, the call fails, but the next number is used up for
-- an inode that no directory has, and nothing else changes. Both ways the next number goes up by
-- one, and the numbers stay in order.
pub lookup-create :
    (s : TmpFs) (dir : InodeId) (node : TmpInode) (name : List ℕ) (t : FileType) (mode : ℕ)
    → IsNumbered s
    → IsDirectory s dir node
    → from_utf8 name ≡ true
    → 0 < length name
    → (find_child name node.children ≡ none
        → (s' : TmpFs) × (create dir name t mode s
            ≡ (ok (record { mount = s.mount_id; ino = s.next_ino }), s'))
          × (s.inodes s.next_ino ≡ none)
          × (lookup s' dir name ≡ ok (record { mount = s.mount_id; ino = s.next_ino }))
          × (getattr s' (record { mount = s.mount_id; ino = s.next_ino })
              ≡ ok (record {
                ino = s.next_ino;
                mode = mode;
                file_type = t;
                size = 0;
                nlink = 1;
                generation = 1;
                rdev = 0;
              }))
          × ((other : List ℕ)
              → same_bytes name other ≡ false
              → from_utf8 other ≡ true
              → lookup s' dir other ≡ lookup s dir other)
          × (s'.next_ino ≡ s.next_ino + 1)
          × IsNumbered s')
      × ((ino : ℕ)
          → find_child name node.children ≡ some ino
          → (s' : TmpFs) × (made : TmpInode) × (create dir name t mode s ≡ (err exists, s'))
            × (s'.inodes s.next_ino ≡ some made)
            × ((i : ℕ) → i ≢ s.next_ino → s'.inodes i ≡ s.inodes i)
            × ((i : ℕ) (holder : TmpInode) (other : List ℕ)
                → s'.inodes i ≡ some holder
                → find_child other holder.children ≢ some s.next_ino)
            × (s'.next_ino ≡ s.next_ino + 1)
            × IsNumbered s')
unfolding getattr alloc_inode
lookup-create s dir node name t mode n d valid some_byte = (
  λ absent. (
    s',
    create-directory s dir node name t mode d old valid some_byte ∙ rw (absent, add_entry) refl,
    unused,
    lookup-directory s' dir linked name d.mounted here d.kind valid
        ∙ ap (found_child s') (find_child-insert_child_self name s.next_ino node.children),
    rw (node_at-some s' (id_of s.next_ino s) made refl fresh, getattr) refl,
    (λ other ne valid'.
        lookup-directory s' dir linked other d.mounted here d.kind valid'
        ∙ ap (found_child s')
            (find_child-insert_child_ne name other s.next_ino node.children ne absent)
        ∙ sym (lookup-directory s dir node other d.mounted d.there d.kind valid')),
    next_ino-alloc_inode s t mode,
    link_in-IsNumbered (alloc_inode t mode s) dir.ino node name s.next_ino
        (alloc_inode-IsNumbered s t mode n) (kept dir.ino old ∙ d.there) absent
        (omega (arith, next_ino-alloc_inode s t mode)),
  ),
  λ ino present. (
    alloc_inode t mode s,
    made,
    create-directory s dir node name t mode d old valid some_byte ∙ rw (present, add_entry) refl,
    inodes-alloc_inode s t mode,
    kept,
    (λ i holder other h e. elim (alloc_inode_lem s t mode i holder h) [
      | inl (_, no_children) ↦
          find_child-nil other s.next_ino (ap (find_child other) (sym no_children) ∙ e)
      | inr old_one ↦ absurd (omega (arith, n.linked i holder other s.next_ino old_one e))
    ]),
    next_ino-alloc_inode s t mode,
    alloc_inode-IsNumbered s t mode n,
  ),
)
  where
    old : dir.ino ≢ s.next_ino
    old e = absurd (omega (arith, e, n.used dir.ino node d.there))

    unused : s.inodes s.next_ino ≡ none
    unused = elim (Option-cases (s.inodes s.next_ino)) [
      | inl free ↦ free
      | inr (taken, h) ↦ absurd (omega (arith, n.used s.next_ino taken h))
    ]

    linked : TmpInode
    linked = bumped (record node { children = insert_child name s.next_ino node.children })

    made : TmpInode
    made = empty_inode s.next_ino t mode 1

    s' : TmpFs
    s' = link_in dir.ino name s.next_ino node (alloc_inode t mode s)

    here : s'.inodes dir.ino ≡ some linked
    here = ground arith

    kept : (i : ℕ) → i ≢ s.next_ino → (alloc_inode t mode s).inodes i ≡ s.inodes i
    kept i ne = inodes-alloc_inode_ne s t mode i ne

    fresh : s'.inodes s.next_ino ≡ some made
    fresh =
        let b : (s.next_ino == dir.ino) ≡ false = ground (arith, old) in
        rw b (inodes-alloc_inode s t mode)
