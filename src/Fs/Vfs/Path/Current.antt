-- ===== src/Fs/Vfs/Path/Current.antt =====
-- A cache whose entries are those of the file systems, and what it does to a single step.
use theory_os.Base.{
  ℕ, ◌≤◌, ◌≡◌, refl, sym, ap, ◌∙◌, arith, true, ◌⊎◌, some, List, [], ◌∷◌, ◌==◌, if◌then◌else◌,
  length, take, Option-cases, inl, inr, min,
}
use theory_os.Base.Bytes.{take_all}
use mathlib.Core.Path.{subst}
use theory_os.Fs.Vfs.{InodeId, InodeAttr, FileSystem, Result, ok, err, FsError, ◌>>=◌}
use theory_os.Fs.Vfs.Mount.{MountTable, fs_of}
use theory_os.Fs.Vfs.Dentry.{Dentry, Cache, get, invalidate_inode, same_bytes, is_for}
use theory_os.Fs.Vfs.Dentry.Laws.{Every, get-Every, insert-Every, is_for-parts}
use theory_os.Fs.Vfs.Path.{ResolvedInode, look_up, dentry_for, from_entry, from_lookup, step}

-- The entry says what its file system says, with the generation that the inode has.
abbrev pub IsCurrent : MountTable → Dentry → Type 0
IsCurrent table d =
    (fs : FileSystem)
    → fs_of d.parent.mount table ≡ some fs
    → (attr : InodeAttr) × (look_up fs d.parent d.name
        ≡ ok (record { inode = d.inode; attr = attr }))
      × (fs.getattr d.inode ≡ ok attr)
      × (attr.generation ≡ d.generation)

-- Each file system gives inodes under its own mount, and has names of at most 64 bytes.
pub record IsMounted (table : MountTable) : Type 0 where
  pub own :
      (id : ℕ) (fs : FileSystem) (dir child : InodeId) (name : List ℕ)
      → fs_of id table ≡ some fs
      → fs.lookup dir name ≡ ok child
      → child.mount ≡ id
  pub short :
      (id : ℕ) (fs : FileSystem) (dir child : InodeId) (name : List ℕ)
      → fs_of id table ≡ some fs
      → fs.lookup dir name ≡ ok child
      → length name ≤ 64

pub Result-cases :
    {A : Type 0} (r : Result A) → ((e : FsError) × (r ≡ err e)) ⊎ ((a : A) × (r ≡ ok a))
Result-cases (ok a) = inr (a, refl)
Result-cases (err e) = inl (e, refl)

pub same_bytes_sound : (xs ys : List ℕ) → same_bytes xs ys ≡ true → xs ≡ ys
unfolding same_bytes
same_bytes_sound [] [] h = refl
same_bytes_sound [] (y ∷ ys) h = absurd (ground (arith, h))
same_bytes_sound (x ∷ xs) [] h = absurd (ground (arith, h))
same_bytes_sound (x ∷ xs) (y ∷ ys) h =
    let e : x ≡ y = ground (arith, h) in rw (e, same_bytes_sound xs ys (ground (arith, h))) refl

pub look_up-ok :
    (fs : FileSystem) (dir : InodeId) (name : List ℕ) (found : ResolvedInode)
    → look_up fs dir name ≡ ok found
    → (fs.lookup dir name ≡ ok found.inode) × (fs.getattr found.inode ≡ ok found.attr)
look_up-ok fs dir name found h = elim (Result-cases (fs.lookup dir name)) [
  | inl (e, bad) ↦ let whole : err e ≡ ok found = rw bad at h in absurd (cc)
  | inr (child, good) ↦
      let after : (fs.getattr child >>= λ attr. ok (record { inode = child; attr = attr }))
          ≡ ok found =
        rw good at h in
      elim (Result-cases (fs.getattr child)) [
        | inl (e, bad) ↦ let whole : err e ≡ ok found = rw bad at after in absurd (cc)
        | inr (attr, has) ↦
            let whole : ok (record { inode = child; attr = attr }) ≡ ok found = rw has at after in
            let same : ◌≡◌ {A = ResolvedInode} (record { inode = child; attr = attr }) found = cc in
            subst (λ f. (fs.lookup dir name ≡ ok f.inode) × (fs.getattr f.inode ≡ ok f.attr)) same
              (good, has)
      ]
]

module _ (table : MountTable) (mounted : IsMounted table) where
  from_entry-IsCurrent :
      (fs : FileSystem) (dir : InodeId) (name : List ℕ) (d : Dentry) (cache : Cache)
      → fs_of dir.mount table ≡ some fs
      → IsCurrent table d
      → is_for dir name d ≡ true
      → from_entry fs name d cache (fs.getattr d.inode) ≡ (look_up fs dir name, cache)
  from_entry-IsCurrent fs dir name d cache here current found =
      let (p, _, n) = is_for-parts dir name d found in
      let (attr, looked, has, same) = current fs (ap (λ x. fs_of x.mount table) p ∙ here) in
      let looked' : look_up fs dir name ≡ ok (record { inode = d.inode; attr = attr }) =
        ap (λ x. look_up fs x name) (sym p)
        ∙ ap (look_up fs d.parent) (sym (same_bytes_sound d.name name n))
        ∙ looked in
      let valid : (attr.generation == d.generation) ≡ true = ground (arith, same) in
      ap (from_entry fs name d cache) has
      ∙ ap
          (λ b.
            if b
            then (ok (record { inode = d.inode; attr = attr }), cache)
            else (look_up fs d.inode name, invalidate_inode d.inode cache))
          valid
      ∙ ap (λ r. (r, cache)) (sym looked')

  dentry_for-IsCurrent :
      (fs : FileSystem) (dir : InodeId) (name : List ℕ) (found : ResolvedInode)
      → fs_of dir.mount table ≡ some fs
      → look_up fs dir name ≡ ok found
      → IsCurrent table (dentry_for dir name found)
  dentry_for-IsCurrent fs dir name found here looked other there =
      let (child, has) = look_up-ok fs dir name found looked in
      let whole : take (min (length name) 64) name ≡ name =
        take_all _ name
          (omega (arith, mounted.short dir.mount fs dir found.inode name here child)) in
      let whole_some : some fs ≡ some other = sym here ∙ there in
      let same : fs ≡ other = cc in
      subst
        (λ f.
          (attr : InodeAttr) × (look_up f dir (take (min (length name) 64) name)
            ≡ ok (record { inode = found.inode; attr = attr }))
          × (f.getattr found.inode ≡ ok attr)
          × (attr.generation ≡ found.attr.generation))
        same (found.attr, ap (look_up fs dir) whole ∙ looked, has, refl)

  abbrev pub AllCurrent : Cache → Type 0
  AllCurrent = Every (IsCurrent table)

  from_lookup_lem :
      (fs : FileSystem) (dir : InodeId) (name : List ℕ) (cache : Cache) (r : Result ResolvedInode)
      → fs_of dir.mount table ≡ some fs
      → AllCurrent cache
      → look_up fs dir name ≡ r
      → ((from_lookup dir name cache r).0 ≡ r) × AllCurrent (from_lookup dir name cache r).1
  from_lookup_lem fs dir name cache (err e) here all looked = (refl, all)
  from_lookup_lem fs dir name cache (ok found) here all looked = (
    refl,
    insert-Every (IsCurrent table) (dentry_for dir name found) cache
        (dentry_for-IsCurrent fs dir name found here looked) all,
  )

  pub step_lem :
      (fs : FileSystem) (dir : InodeId) (name : List ℕ) (cache : Cache)
      → fs_of dir.mount table ≡ some fs
      → AllCurrent cache
      → ((step fs dir name cache).0 ≡ look_up fs dir name) × AllCurrent (step fs dir name cache).1
  unfolding step
  step_lem fs dir name cache here all = elim (Option-cases (get dir name cache)) [
    | inl absent ↦
        rw (absent, step) (from_lookup_lem fs dir name cache (look_up fs dir name) here all refl)
    | inr (d, found) ↦
        let (current, is) = get-Every (IsCurrent table) dir name cache d all found in
        rw (found, from_entry-IsCurrent fs dir name d cache here current is, step) (refl, all)
  ]
