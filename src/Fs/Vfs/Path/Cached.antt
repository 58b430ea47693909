-- ===== src/Fs/Vfs/Path/Cached.antt =====
-- Resolution with a cache that says nothing wrong is resolution without a cache.
use theory_os.Base.{
  ℕ, zero, suc, ◌≡◌, refl, ap, ◌∙◌, Bool, not, ◌&&◌, ◌||◌, none, some, List, [], ◌∷◌, drop,
  Bool-cases, Option-cases, inl, inr,
}
use theory_os.Fs.Vfs.{InodeId, FileSystem, Result, ok, err, is_directory, is_symlink}
use theory_os.Fs.Vfs.Mount.{MountTable, find_mount_for_path, fs_of}
use theory_os.Fs.Vfs.Dentry.{Cache}
use theory_os.Fs.Vfs.Path.{
  ResolvedInode, Outcome, components, is_empty, is_root, look_up, step, follow_link, walk,
  mount_root, resolve_at,
}
use theory_os.Fs.Vfs.Path.Plain.{Answer, plain_link, plain_target, plain_walk, plain_resolve}
use theory_os.Fs.Vfs.Path.Current.{IsMounted, AllCurrent, Result-cases, look_up-ok, step_lem}

module _ (table : MountTable) (mounted : IsMounted table) where
  -- The cached resolution has the plain one's answer and leaves only current entries.
  abbrev pub Agrees : Outcome → Answer → Type 0
  Agrees none a = a ≡ none
  Agrees (some (r, cache)) a = (a ≡ some r) × AllCurrent table mounted cache

  link_lem :
      (nested : List ℕ → Cache → Outcome) (plain : List ℕ → Answer) (fs : FileSystem)
      (link : InodeId) (cache : Cache)
      → ((path : List ℕ) (c : Cache)
          → AllCurrent table mounted c
          → Agrees (nested path c) (plain path))
      → AllCurrent table mounted cache
      → Agrees (follow_link nested fs link cache) (plain_link plain fs link)
  link_lem nested plain fs link cache deeper all = go (fs.readlink link)
    where
      go :
          (r : Result (List ℕ))
          → Agrees
              (elim r [ err e ↦ some (err e, cache) | ok target ↦ nested target cache ])
              (plain_target plain r)
      go (err e) = (refl, all)
      go (ok target) = deeper target cache all

  walk_lem :
      (nested : List ℕ → Cache → Outcome) (plain : List ℕ → Answer) (fs : FileSystem)
      (follow_final : Bool) (at : ResolvedInode) (names : List (List ℕ)) (cache : Cache)
      → ((path : List ℕ) (c : Cache)
          → AllCurrent table mounted c
          → Agrees (nested path c) (plain path))
      → fs_of at.inode.mount table ≡ some fs
      → AllCurrent table mounted cache
      → Agrees
          (walk nested fs follow_final at names cache)
          (plain_walk plain fs follow_final at names)
  unfolding walk plain_walk
  walk_lem nested plain fs follow_final at [] cache deeper here all = (refl, all)
  walk_lem nested plain fs follow_final at (name ∷ rest) cache deeper here all =
      elim (Bool-cases (is_symlink at.attr.file_type && (follow_final || not (is_empty rest)))) [
        | inl link ↦
            rw (link, walk, plain_walk) (link_lem nested plain fs at.inode cache deeper all)
        | inr no_link ↦ elim (Bool-cases (is_directory at.attr.file_type)) [
          | inl dir ↦
              let (same, all') = step_lem table mounted fs at.inode name cache here all in
              elim (Result-cases (look_up fs at.inode name)) [
                | inl (e, bad) ↦ rw (no_link, dir, same, bad, walk, plain_walk) (refl, all')
                | inr (next, good) ↦
                    let (child, _) = look_up-ok fs at.inode name next good in
                    rw (no_link, dir, same, good, walk, plain_walk)
                      (walk_lem nested plain fs follow_final next rest
                        (step fs at.inode name cache).1 deeper
                        (ap (λ i. fs_of i table)
                            (mounted.own at.inode.mount fs at.inode next.inode name here child)
                          ∙ here)
                        all')
              ]
          | inr other ↦ rw (no_link, other, walk, plain_walk) (refl, all)
        ]
      ]

  -- With a table of file systems that give inodes under their own mounts and have names of at most 64
  -- bytes, and a cache whose entries are current, a resolution to any depth of nested links has the
  -- answer of the resolution without a cache, and the entries stay current.
  pub resolve_at-plain_resolve :
      (follow_final : Bool) (fuel : ℕ) (path : List ℕ) (cache : Cache)
      → AllCurrent table mounted cache
      → Agrees
          (resolve_at table follow_final fuel path cache)
          (plain_resolve table follow_final fuel path)
  unfolding resolve_at plain_resolve
  resolve_at-plain_resolve follow_final zero path cache all = refl
  resolve_at-plain_resolve follow_final (suc fuel) path cache all =
      let id : ℕ = (find_mount_for_path path table).0 in
      let rel : List ℕ = drop (find_mount_for_path path table).1 path in
      elim (Option-cases (fs_of id table)) [
        | inl absent ↦ rw (absent, resolve_at, plain_resolve) (refl, all)
        | inr (fs, here) ↦ elim (Result-cases (fs.getattr (mount_root fs id))) [
          | inl (e, bad) ↦ rw (here, bad, resolve_at, plain_resolve) (refl, all)
          | inr (attr, good) ↦ elim (Bool-cases (is_root rel)) [
            | inl root ↦ rw (here, good, root, resolve_at, plain_resolve) (refl, all)
            | inr below ↦
                rw (here, good, below, resolve_at, plain_resolve)
                  (walk_lem (resolve_at table follow_final fuel)
                    (plain_resolve table follow_final fuel) fs follow_final
                    (record { inode = mount_root fs id; attr = attr }) (components rel) cache
                    (resolve_at-plain_resolve follow_final fuel) here all)
          ]
        ]
      ]
