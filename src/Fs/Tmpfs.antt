-- ===== src/Fs/Tmpfs.antt =====
-- kernel/src/fs/tmpfs/mod.rs: the file system in memory. The map of inodes is a function, and the
-- map of a directory's children the list of its entries in order. Memory is taken to suffice; a
-- vector of more than 2^63 - 1 bytes panics. The numbers of inodes and generations do not reach 2^64.
pub mod Utf8
pub mod Names
pub mod Data
pub mod Tree
mod Tests
use theory_os.Base.{
  ℕ, zero, suc, ◌+◌, ◌-◌, ◌*◌, ◌^◌, Bool, true, false, not, ◌&&◌, ◌||◌, Option, none, some, List,
  [], ◌∷◌, ◌++◌, ltb, leb, ◌==◌, if◌then◌else◌, length, take, drop, replicate, min,
}
use theory_os.Base.Bytes.{slice}
use theory_os.Fs.Vfs.{
  InodeId, InodeAttr, FileType, regular, directory, symlink, is_directory, is_symlink, Result, ok,
  err, ◌>>=◌, FileSystem, not_found, exists, not_dir, not_file, not_symlink, invalid_argument,
  not_supported,
}
use theory_os.Fs.Tmpfs.Utf8.{from_utf8}
use theory_os.Fs.Tmpfs.Names.{Children, find_child, insert_child, remove_child}

abbrev pub root_ino : ℕ
root_ino = 1

-- `InodeMode::default_dir()`.
abbrev pub default_dir : ℕ
default_dir = 0o755

-- `contents` is `data`.
pub record TmpInode : Type 0 where
  pub attr : InodeAttr
  pub contents : List ℕ
  pub children : Children
  pub link_target : List ℕ

pub record TmpFs : Type 0 where
  pub next_ino : ℕ
  pub inodes : ℕ → Option TmpInode
  pub mount_id : ℕ

abbrev pub put : ℕ → Option TmpInode → (ℕ → Option TmpInode) → ℕ → Option TmpInode
put ino node inodes = λ i. if i == ino then node else inodes i

abbrev pub empty_inode : ℕ → FileType → ℕ → ℕ → TmpInode
empty_inode ino file_type mode nlink = record {
  attr = record {
    ino = ino;
    mode = mode;
    file_type = file_type;
    size = 0;
    nlink = nlink;
    generation = 1;
    rdev = 0;
  };
  contents = [];
  children = [];
  link_target = [];
}

unfoldable pub new : ℕ → TmpFs
new mount_id = record {
  next_ino = root_ino + 1;
  inodes = put root_ino (some (empty_inode root_ino directory default_dir 2)) (λ i. none);
  mount_id = mount_id;
}

abbrev pub id_of : ℕ → TmpFs → InodeId
id_of ino s = record { mount = s.mount_id; ino = ino }

abbrev pub found_inode : Option TmpInode → Result TmpInode
found_inode none = err not_found
found_inode (some node) = ok node

-- `id`, and the inode with that number.
unfoldable pub node_at : TmpFs → InodeId → Result TmpInode
node_at s inode =
    if not (inode.mount == s.mount_id) then err not_found else found_inode (s.inodes inode.ino)

abbrev pub only_directory : TmpInode → Result TmpInode
only_directory node = if is_directory node.attr.file_type then ok node else err not_dir

abbrev pub is_regular : FileType → Bool
is_regular regular = true
is_regular _ = false

abbrev pub bumped : TmpInode → TmpInode
bumped node = record node { attr = record (node.attr) { generation = node.attr.generation + 1 } }

unfoldable pub getattr : TmpFs → InodeId → Result InodeAttr
unfolding node_at
getattr s inode = node_at s inode >>= λ node. ok node.attr

abbrev pub found_child : TmpFs → Option ℕ → Result InodeId
found_child s none = err not_found
found_child s (some ino) = ok (id_of ino s)

abbrev pub valid_name : List ℕ → Result (List ℕ)
valid_name name = if from_utf8 name then ok name else err invalid_argument

unfoldable pub lookup : TmpFs → InodeId → List ℕ → Result InodeId
unfolding node_at
lookup s dir name =
    if not (dir.mount == s.mount_id)
    then err not_found
    else valid_name name >>= λ n.
        node_at s dir >>= only_directory >>= λ node. found_child s (find_child n node.children)

-- `alloc_inode`: the new inode's number is the old `next_ino`.
unfoldable pub alloc_inode : FileType → ℕ → TmpFs → TmpFs
alloc_inode file_type mode s = record s {
  next_ino = s.next_ino + 1;
  inodes = put s.next_ino (some (empty_inode s.next_ino file_type mode 1)) s.inodes;
}

abbrev pub link_in : ℕ → List ℕ → ℕ → TmpInode → TmpFs → TmpFs
link_in dir name ino node s = record s {
  inodes =
      put dir (some (bumped (record node { children = insert_child name ino node.children })))
        s.inodes;
}

-- After the new inode: its entry, if the directory has none of the name.
abbrev pub add_entry : ℕ → List ℕ → ℕ → TmpFs → Result TmpInode → Result InodeId × TmpFs
add_entry dir name ino s (err e) = (err e, s)
add_entry dir name ino s (ok node) = elim (find_child name node.children) [
  | some other ↦ (err exists, s)
  | none ↦ (ok (id_of ino s), link_in dir name ino node s)
]

unfoldable pub create : InodeId → List ℕ → FileType → ℕ → TmpFs → Result InodeId × TmpFs
unfolding alloc_inode node_at
create dir name file_type mode s =
    if not (dir.mount == s.mount_id)
    then (err not_found, s)
    else if not (from_utf8 name) || (length name == 0)
    then (err invalid_argument, s)
    else add_entry dir.ino name s.next_ino (alloc_inode file_type mode s)
        (node_at (alloc_inode file_type mode s) dir >>= only_directory)

unfoldable pub mkdir : InodeId → List ℕ → ℕ → TmpFs → Result InodeId × TmpFs
unfolding create
mkdir dir name mode s = create dir name directory mode s

-- The child is removed, unless it is a directory with entries.
abbrev pub unlink_child : ℕ → List ℕ → TmpInode → TmpFs → Option ℕ → Result Unit × TmpFs
unlink_child dir name node s none = (err not_found, s)
unlink_child dir name node s (some ino) = elim (s.inodes ino) [
  | none ↦ (err not_found, s)
  | some child ↦
      if is_directory child.attr.file_type && not (length child.children == 0)
      then (err not_supported, s)
      else (
        ok tt,
        record s {
          inodes = λ i.
              if i == ino
              then none
              else if i == dir
              then some (bumped (record node { children = remove_child name node.children }))
              else s.inodes i;
        },
      )
]

unfoldable pub unlink : InodeId → List ℕ → TmpFs → Result Unit × TmpFs
unfolding node_at
unlink dir name s =
    if not (dir.mount == s.mount_id)
    then (err not_found, s)
    else elim (valid_name name >>= λ n. node_at s dir >>= only_directory) [
      | err e ↦ (err e, s)
      | ok node ↦ unlink_child dir.ino name node s (find_child name node.children)
    ]

-- What a read of at most `len` bytes sees.
abbrev pub readable : TmpInode → Result (List ℕ)
readable node =
    if is_symlink node.attr.file_type
    then ok node.link_target
    else if is_regular node.attr.file_type
    then ok node.contents
    else err not_file

abbrev pub read_from : ℕ → ℕ → List ℕ → List ℕ
read_from offset len bytes =
    if leb (length bytes) offset then [] else slice bytes offset (min (offset + len) (length bytes))

-- The bytes that `read` puts into a buffer of `len` bytes.
unfoldable pub read : TmpFs → InodeId → ℕ → ℕ → Result (List ℕ)
unfolding node_at
read s inode offset len = node_at s inode >>= readable >>= λ bytes. ok (read_from offset len bytes)

-- `Vec::resize` with 0.
abbrev pub resize : ℕ → List ℕ → List ℕ
resize n bytes = take n bytes ++ replicate (n - length bytes) 0

-- The contents after bytes were written at an offset.
abbrev pub written : ℕ → List ℕ → List ℕ → List ℕ
written start buf bytes =
    let longer =
      if ltb (length bytes) (start + length buf)
      then resize (start + length buf) bytes
      else bytes in
    take start longer ++ (buf ++ drop (start + length buf) longer)

abbrev pub with_contents : List ℕ → ℕ → TmpInode → TmpInode
with_contents bytes size node =
    bumped (record node { attr = record (node.attr) { size = size }; contents = bytes })

abbrev pub only_regular : TmpInode → Result TmpInode
only_regular node = if is_regular node.attr.file_type then ok node else err not_file

abbrev pub put_node : ℕ → TmpInode → TmpFs → TmpFs
put_node ino node s = record s { inodes = put ino (some node) s.inodes }

-- none is the panic.
unfoldable pub write : InodeId → ℕ → List ℕ → TmpFs → Option (Result ℕ × TmpFs)
unfolding node_at
write inode offset buf s = elim (node_at s inode >>= only_regular) [
  | err e ↦ some (err e, s)
  | ok node ↦
      if leb (2 ^ 63) (offset + length buf)
      then none
      else some (
        ok (length buf),
        put_node inode.ino
            (with_contents (written offset buf node.contents)
              (length (written offset buf node.contents)) node)
            s,
      )
]

unfoldable pub readlink : TmpFs → InodeId → ℕ → Result (List ℕ)
unfolding node_at
readlink s inode len = node_at s inode >>= λ node.
    if is_symlink node.attr.file_type
    then ok (take (min len (length node.link_target)) node.link_target)
    else err not_symlink

abbrev pub set_target : List ℕ → Result InodeId × TmpFs → Option (Result InodeId × TmpFs)
set_target target (err e, s) = some (err e, s)
set_target target (ok id, s) = elim (s.inodes id.ino) [
  | none ↦ none
  | some node ↦ some (
    ok id,
    put_node id.ino
        (record node { link_target = target; attr = record (node.attr) { size = length target } })
        s,
  )
]

unfoldable pub make_symlink :
    InodeId → List ℕ → List ℕ → ℕ → TmpFs → Option (Result InodeId × TmpFs)
unfolding create
make_symlink dir name target mode s = set_target target (create dir name symlink mode s)

unfoldable pub truncate : InodeId → ℕ → TmpFs → Option (Result Unit × TmpFs)
unfolding node_at
truncate inode size s = elim (node_at s inode >>= only_regular) [
  | err e ↦ some (err e, s)
  | ok node ↦
      if leb (2 ^ 63) size
      then none
      else some (ok tt, put_node inode.ino (with_contents (resize size node.contents) size node) s)
]

unfoldable pub bump_generation : ℕ → TmpFs → TmpFs
bump_generation ino s = elim (s.inodes ino) [ none ↦ s | some node ↦ put_node ino (bumped node) s ]

unfoldable pub with_root_dirs : List (List ℕ) → TmpFs → TmpFs
unfolding mkdir
with_root_dirs [] s = s
with_root_dirs (name ∷ dirs) s = with_root_dirs dirs (mkdir (id_of root_ino s) name default_dir s).1

pub record DirEntry : Type 0 where
  pub name : List ℕ
  pub inode : InodeId
  pub file_type : FileType

abbrev pub type_of : Option TmpInode → FileType
type_of none = regular
type_of (some node) = node.attr.file_type

abbrev pub nth_child : ℕ → Children → Option (List ℕ × ℕ)
nth_child i [] = none
nth_child zero (child ∷ children) = some child
nth_child (suc i) (child ∷ children) = nth_child i children

abbrev pub dir_entry : TmpFs → Option (List ℕ × ℕ) → Option DirEntry
dir_entry s none = none
dir_entry s (some (name, ino)) = some (record {
  name = take (min (length name) 256) name;
  inode = id_of ino s;
  file_type = type_of (s.inodes ino);
})

-- none is the end of the directory.
unfoldable pub readdir : TmpFs → InodeId → ℕ → Result (Option DirEntry)
unfolding node_at
readdir s dir index = node_at s dir >>= only_directory >>= λ node.
    if index == 0
    then ok (some (record { name = 0x2e ∷ []; inode = dir; file_type = directory }))
    else if index == 1
    then ok (some (record { name = 0x2e ∷ 0x2e ∷ []; inode = dir; file_type = directory }))
    else ok (dir_entry s (nth_child (index - 2) node.children))

-- The file system as path resolution sees it, with its buffer of 4096 bytes for a link.
abbrev pub file_system : TmpFs → FileSystem
file_system s = record {
  root = id_of root_ino s;
  getattr = getattr s;
  lookup = lookup s;
  readlink = λ inode. readlink s inode 4096;
}
