-- ===== src/Fs/Vfs/Path/Links.antt =====
-- Symbolic links: without one on the way a resolution ends, and through a loop of them it does not.
use theory_os.Base.{
  ℕ, zero, suc, ◌≡◌, ◌≢◌, refl, sym, ap, ◌∙◌, arith, Bool, true, false, not, ◌&&◌, ◌||◌, none, some,
  List, [], ◌∷◌, ◌==◌, drop, Bool-cases, Option-cases, inl, inr,
}
use mathlib.Core.Path.{subst}
use theory_os.Fs.Vfs.{
  InodeId, InodeAttr, FileSystem, Result, ok, err, directory, symlink, is_directory, is_symlink,
}
use theory_os.Fs.Vfs.Mount.{MountTable, find_mount_for_path, fs_of, slash}
use theory_os.Fs.Vfs.Dentry.{Dentry, Cache, get, same_bytes}
use theory_os.Fs.Vfs.Path.{
  ResolvedInode, Outcome, components, is_empty, is_root, look_up, from_entry, from_lookup, step,
  walk, mount_root, resolve_at,
}
use theory_os.Fs.Vfs.Path.Current.{IsMounted, AllCurrent}
use theory_os.Fs.Vfs.Path.Cached.{Agrees, resolve_at-plain_resolve}
use theory_os.Fs.Vfs.Path.Plain.{Answer, plain_link, plain_target, plain_walk, plain_resolve}
use theory_os.Fs.Vfs.Path.Current.{Result-cases, look_up-ok}

-- The file system has no symbolic link.
abbrev pub NoLinks : FileSystem → Type 0
NoLinks fs =
    (inode : InodeId) (attr : InodeAttr)
    → fs.getattr inode ≡ ok attr
    → is_symlink attr.file_type ≡ false

from_lookup_answer :
    (dir : InodeId) (name : List ℕ) (cache : Cache) (r : Result ResolvedInode)
    → (from_lookup dir name cache r).0 ≡ r
from_lookup_answer dir name cache (err e) = refl
from_lookup_answer dir name cache (ok found) = refl

from_entry-attr :
    (fs : FileSystem) (name : List ℕ) (d : Dentry) (cache : Cache) (r : Result InodeAttr)
    (found : ResolvedInode)
    → fs.getattr d.inode ≡ r
    → (from_entry fs name d cache r).0 ≡ ok found
    → fs.getattr found.inode ≡ ok found.attr
from_entry-attr fs name d cache (err e) found has h = absurd (cc)
from_entry-attr fs name d cache (ok attr) found has h =
    elim (Bool-cases (attr.generation == d.generation)) [
      | inl valid ↦
          let whole : ok (record { inode = d.inode; attr = attr }) ≡ ok found = rw valid at h in
          let same : ◌≡◌ {A = ResolvedInode} (record { inode = d.inode; attr = attr }) found = cc in
          subst (λ f. fs.getattr f.inode ≡ ok f.attr) same has
      | inr stale ↦
          let looked : look_up fs d.inode name ≡ ok found = rw stale at h in
          (look_up-ok fs d.inode name found looked).1
    ]

-- What a step finds has the attributes that the file system gives.
step-attr :
    (fs : FileSystem) (dir : InodeId) (name : List ℕ) (cache : Cache) (found : ResolvedInode)
    → (step fs dir name cache).0 ≡ ok found
    → fs.getattr found.inode ≡ ok found.attr
unfolding step
step-attr fs dir name cache found h = elim (Option-cases (get dir name cache)) [
  | inl absent ↦
      let looked : (from_lookup dir name cache (look_up fs dir name)).0 ≡ ok found =
        rw (absent, step) at h in
      (look_up-ok fs dir name found
        (sym (from_lookup_answer dir name cache (look_up fs dir name)) ∙ looked)).1
  | inr (d, held) ↦
      from_entry-attr fs name d cache (fs.getattr d.inode) found refl (rw (held, step) at h)
]

walk-some :
    (nested : List ℕ → Cache → Outcome) (fs : FileSystem) (follow_final : Bool) (at : ResolvedInode)
    (names : List (List ℕ)) (cache : Cache)
    → NoLinks fs
    → fs.getattr at.inode ≡ ok at.attr
    → walk nested fs follow_final at names cache ≢ none
unfolding walk
walk-some nested fs follow_final at [] cache plain has = λ e. cc
walk-some nested fs follow_final at (name ∷ rest) cache plain has =
    let no_link : (is_symlink at.attr.file_type && (follow_final || not (is_empty rest))) ≡ false =
      ground (arith, plain at.inode at.attr has) in
    elim (Bool-cases (is_directory at.attr.file_type)) [
      | inl dir ↦ elim (Result-cases (step fs at.inode name cache).0) [
        | inl (e, bad) ↦ rw (no_link, dir, bad, walk) (λ e. cc)
        | inr (next, good) ↦
            rw (no_link, dir, good, walk)
              (walk-some nested fs follow_final next rest (step fs at.inode name cache).1 plain
                (step-attr fs at.inode name cache next good))
      ]
      | inr other ↦ rw (no_link, other, walk) (λ e. cc)
    ]

-- Where no mounted file system has a symbolic link, every resolution ends, without a nested one.
pub resolve_at-some :
    (table : MountTable) (follow_final : Bool) (fuel : ℕ) (path : List ℕ) (cache : Cache)
    → ((id : ℕ) (fs : FileSystem) → fs_of id table ≡ some fs → NoLinks fs)
    → resolve_at table follow_final (suc fuel) path cache ≢ none
unfolding resolve_at
resolve_at-some table follow_final fuel path cache plain =
    let id : ℕ = (find_mount_for_path path table).0 in
    let rel : List ℕ = drop (find_mount_for_path path table).1 path in
    elim (Option-cases (fs_of id table)) [
      | inl absent ↦ rw (absent, resolve_at) (λ e. cc)
      | inr (fs, here) ↦ elim (Result-cases (fs.getattr (mount_root fs id))) [
        | inl (e, bad) ↦ rw (here, bad, resolve_at) (λ e. cc)
        | inr (attr, good) ↦ elim (Bool-cases (is_root rel)) [
          | inl root ↦ rw (here, good, root, resolve_at) (λ e. cc)
          | inr below ↦
              rw (here, good, below, resolve_at)
                (walk-some (resolve_at table follow_final fuel) fs follow_final
                  (record { inode = mount_root fs id; attr = attr }) (components rel) cache
                  (plain id fs here) good)
        ]
      ]
    ]

is_root-components :
    (rel first : List ℕ) (rest : List (List ℕ))
    → components rel ≡ first ∷ rest
    → is_root rel ≡ false
unfolding components same_bytes
is_root-components [] first rest e = absurd (cc)
is_root-components (b ∷ []) first rest e = elim (Bool-cases (b == slash)) [
  | inl same ↦
      let none_left : ◌≡◌ {A = List (List ℕ)} [] (first ∷ rest) = rw same at e in absurd (cc)
  | inr differ ↦ ground (arith, differ)
]
is_root-components (b ∷ c ∷ rel) first rest e = ground arith

-- A link below a directory, with components behind it.
plain_walk_directory :
    (nested : List ℕ → Answer) (fs : FileSystem) (at link : ResolvedInode) (first second : List ℕ)
    (rest : List (List ℕ))
    → at.attr.file_type ≡ directory
    → look_up fs at.inode first ≡ ok link
    → link.attr.file_type ≡ symlink
    → plain_walk nested fs true at (first ∷ second ∷ rest) ≡ plain_link nested fs link.inode
unfolding plain_walk
plain_walk_directory nested fs at link first second rest dir found is_link =
    let no_link : is_symlink at.attr.file_type ≡ false = ap is_symlink dir in
    let is_dir : is_directory at.attr.file_type ≡ true = ap is_directory dir in
    let is_link' : is_symlink link.attr.file_type ≡ true = ap is_symlink is_link in
    rw (no_link, is_dir, found, plain_walk) (rw (is_link', plain_walk) refl)

-- Without a cache.
plain_resolve-none :
    (table : MountTable) (path : List ℕ) (fs : FileSystem) (root_attr : InodeAttr)
    (link : ResolvedInode) (first second : List ℕ) (rest : List (List ℕ))
    → fs_of (find_mount_for_path path table).0 table ≡ some fs
    → fs.getattr (mount_root fs (find_mount_for_path path table).0) ≡ ok root_attr
    → root_attr.file_type ≡ directory
    → components (drop (find_mount_for_path path table).1 path) ≡ first ∷ second ∷ rest
    → look_up fs (mount_root fs (find_mount_for_path path table).0) first ≡ ok link
    → link.attr.file_type ≡ symlink
    → fs.readlink link.inode ≡ ok path
    → (fuel : ℕ) → plain_resolve table true fuel path ≡ none
unfolding plain_resolve plain_walk
plain_resolve-none table path fs root_attr link first second rest here root dir names found is_link
      target zero =
    refl
plain_resolve-none table path fs root_attr link first second rest here root dir names found is_link
      target (suc fuel) =
    let below : is_root (drop (find_mount_for_path path table).1 path) ≡ false =
      is_root-components (drop (find_mount_for_path path table).1 path) first (second ∷ rest)
        names in
    rw (here, root, below, names, plain_resolve)
      (plain_walk_directory (plain_resolve table true fuel) fs
          (record { inode = mount_root fs (find_mount_for_path path table).0; attr = root_attr })
          link first second rest dir found is_link
        ∙ ap (plain_target (plain_resolve table true fuel)) target
        ∙ plain_resolve-none table path fs root_attr link first second rest here root dir names
            found is_link target fuel)

Agrees-none :
    (table : MountTable) (mounted : IsMounted table) (o : Outcome) (a : Answer)
    → Agrees table mounted o a
    → a ≡ none
    → o ≡ none
Agrees-none table mounted none a h e = refl
Agrees-none table mounted (some (r, cache)) a (h, _) e =
    let both : ◌≡◌ {A = Answer} none (some r) = sym e ∙ h in absurd (cc)

-- Over file systems that find only what is mounted with them, under names of at most 64 bytes, and
-- with a cache of current entries, a path whose first component is a link to the whole path, with
-- components behind it, is resolved by resolving it again: to no depth of nested links is there an
-- answer.
pub resolve_at-none :
    (table : MountTable) (path : List ℕ) (fs : FileSystem) (root_attr : InodeAttr)
    (link : ResolvedInode) (first second : List ℕ) (rest : List (List ℕ))
    (mounted : IsMounted table) (cache : Cache)
    → AllCurrent table mounted cache
    → fs_of (find_mount_for_path path table).0 table ≡ some fs
    → fs.getattr (mount_root fs (find_mount_for_path path table).0) ≡ ok root_attr
    → root_attr.file_type ≡ directory
    → components (drop (find_mount_for_path path table).1 path) ≡ first ∷ second ∷ rest
    → look_up fs (mount_root fs (find_mount_for_path path table).0) first ≡ ok link
    → link.attr.file_type ≡ symlink
    → fs.readlink link.inode ≡ ok path
    → (fuel : ℕ) → resolve_at table true fuel path cache ≡ none
resolve_at-none table path fs root_attr link first second rest mounted cache all here root dir names
      found is_link target fuel =
    Agrees-none table mounted (resolve_at table true fuel path cache)
      (plain_resolve table true fuel path)
      (resolve_at-plain_resolve table mounted true fuel path cache all)
      (plain_resolve-none table path fs root_attr link first second rest here root dir names found
        is_link target fuel)
