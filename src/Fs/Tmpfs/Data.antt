-- ===== src/Fs/Tmpfs/Data.antt =====
-- What is written to a file is what is read.
use theory_os.Base.{
  ℕ, zero, suc, ◌+◌, ◌-◌, ◌^◌, ◌≤◌, ◌<◌, ◌≡◌, ◌≢◌, ◌⊎◌, refl, sym, ap, ◌∙◌, arith, true, false,
  some, List, [], ◌∷◌, ◌++◌, ltb, leb, ◌==◌, if◌then◌else◌, length, length-append, length-take,
  length-drop, length-replicate, take, drop, replicate, get_or, min, max, Bool-cases, inl, inr,
}
use theory_os.Base.Bytes.{slice, take_front, drop-append, drop_all}
use theory_os.Fs.Vfs.{InodeId, Result, ok, err, not_found, is_symlink, regular, FileType}
use theory_os.Fs.Tmpfs.{
  TmpFs, TmpInode, node_at, found_inode, resize, written, read, read_from, write, put_node,
  with_contents, is_regular,
}

get_or-replicate : (n j : ℕ) → get_or {A = ℕ} (replicate {A = ℕ} n 0) j 0 ≡ 0
get_or-replicate zero j = refl
get_or-replicate (suc n) zero = refl
get_or-replicate (suc n) (suc j) = get_or-replicate n j

-- A longer vector has zeros behind.
get_or-resize :
    (n : ℕ) (bytes : List ℕ) (j : ℕ)
    → length bytes ≤ n
    → get_or (resize n bytes) j 0 ≡ get_or bytes j 0
get_or-resize zero [] j h = refl
get_or-resize (suc n) [] j h = get_or-replicate (suc n - 0) j
get_or-resize zero (b ∷ bytes) j h = absurd (omega arith)
get_or-resize (suc n) (b ∷ bytes) zero h = refl
get_or-resize (suc n) (b ∷ bytes) (suc j) h =
    let e : suc n - suc (length bytes) ≡ n - length bytes = omega arith in
    rw e (get_or-resize n bytes j (omega arith))

get_or-behind :
    (buf bytes : List ℕ) (j : ℕ)
    → length buf ≤ j
    → get_or (buf ++ drop (length buf) bytes) j 0 ≡ get_or bytes j 0
get_or-behind [] bytes j h = refl
get_or-behind (b ∷ buf) bytes zero h = absurd (omega arith)
get_or-behind (b ∷ buf) [] (suc j) h =
    ap (λ l. get_or (buf ++ l) j 0) (sym (drop_all (length buf) [] (omega arith)))
    ∙ get_or-behind buf [] j (omega arith)
get_or-behind (b ∷ buf) (c ∷ bytes) (suc j) h = get_or-behind buf bytes j (omega arith)

-- Bytes outside of those overwritten.
get_or-overwrite :
    (start : ℕ) (buf bytes : List ℕ) (j : ℕ)
    → start ≤ length bytes
    → (j < start) ⊎ (start + length buf ≤ j)
    → get_or (take start bytes ++ (buf ++ drop (start + length buf) bytes)) j 0 ≡ get_or bytes j 0
get_or-overwrite zero buf bytes j h (inl less) = absurd (omega arith)
get_or-overwrite zero buf bytes j h (inr more) =
    let e : 0 + length buf ≡ length buf = omega arith in
    rw e (get_or-behind buf bytes j (omega (arith, more)))
get_or-overwrite (suc start) buf [] j h out = absurd (omega arith)
get_or-overwrite (suc start) buf (b ∷ bytes) zero h out = refl
get_or-overwrite (suc start) buf (b ∷ bytes) (suc j) h out =
    let e : suc start + length buf ≡ suc (start + length buf) = omega arith in
    rw e (
      get_or-overwrite start buf bytes j (omega arith)
        (elim out [ inl less ↦ inl (omega (arith, less)) | inr more ↦ inr (omega (arith, more)) ]))

length_zero : (xs : List ℕ) → length xs ≡ 0 → [] ≡ xs
length_zero [] e = refl
length_zero (x ∷ xs) e = absurd (omega arith)

-- Bytes cut out from between others.
slice-middle :
    (start end : ℕ) (xs ys zs : List ℕ)
    → length xs ≡ start
    → end ≡ start + length ys
    → slice (xs ++ (ys ++ zs)) start end ≡ ys
slice-middle start end xs ys zs e e' =
    let n : end - start ≡ length ys = omega arith in
    let d : drop start (xs ++ (ys ++ zs)) ≡ ys ++ zs =
      ap (λ k. drop k (xs ++ (ys ++ zs))) (sym e) ∙ drop-append xs (ys ++ zs) in
    ap (λ k. take k (drop start (xs ++ (ys ++ zs)))) n
    ∙ ap (take (length ys)) d
    ∙ take_front (length ys) ys zs refl

-- The vector that the bytes are copied into.
longer : ℕ → List ℕ → List ℕ
longer n bytes = if ltb (length bytes) n then resize n bytes else bytes

longer_lem :
    (n : ℕ) (bytes : List ℕ)
    → (length (longer n bytes) ≡ max n (length bytes))
      × ((j : ℕ) → get_or (longer n bytes) j 0 ≡ get_or bytes j 0)
unfolding longer
longer_lem n bytes = elim (Bool-cases (ltb (length bytes) n)) [
  | inr enough ↦ rw enough (ground (arith, enough), λ j. refl)
  | inl short ↦
      let le : length bytes ≤ n = ground (arith, short) in
      rw short (
        omega (
          arith,
          length-append (take n bytes) (replicate (n - length bytes) 0),
          length-take n bytes,
          length-replicate {A = ℕ} (n - length bytes) 0,
        ),
        λ j. get_or-resize n bytes j le,
      )
]

pub written_lem :
    (start : ℕ) (buf bytes : List ℕ)
    → (length (written start buf bytes) ≡ max (start + length buf) (length bytes))
      × (read_from start (length buf) (written start buf bytes) ≡ buf)
      × ((j : ℕ)
          → (j < start) ⊎ (start + length buf ≤ j)
          → get_or (written start buf bytes) j 0 ≡ get_or bytes j 0)
unfolding longer
written_lem start buf bytes = (
  size,
  back,
  λ j out.
      get_or-overwrite start buf whole j (omega (arith, (longer_lem (start + length buf) bytes).0))
        out
      ∙ (longer_lem (start + length buf) bytes).1 j,
)
  where
    whole : List ℕ
    whole = longer (start + length buf) bytes

    front : length (take start whole) ≡ start
    front = omega (arith, length-take start whole, (longer_lem (start + length buf) bytes).0)

    size : length (written start buf bytes) ≡ max (start + length buf) (length bytes)
    size = omega (
      arith,
      length-append (take start whole) (buf ++ drop (start + length buf) whole),
      length-append buf (drop (start + length buf) whole),
      front,
      length-drop (start + length buf) whole,
      (longer_lem (start + length buf) bytes).0,
    )

    back : read_from start (length buf) (written start buf bytes) ≡ buf
    back = elim (Bool-cases (leb (length (written start buf bytes)) start)) [
      | inl none_left ↦ rw none_left (length_zero buf (ground (arith, none_left, size)))
      | inr more ↦ rw more (
          slice-middle start (min (start + length buf) (length (written start buf bytes)))
            (take start whole) buf (drop (start + length buf) whole) front (omega (arith, size)))
    ]

node_at-put_node :
    (s : TmpFs) (inode : InodeId) (node node' : TmpInode)
    → node_at s inode ≡ ok node
    → node_at (put_node inode.ino node' s) inode ≡ ok node'
unfolding node_at
node_at-put_node s inode node node' h = elim (Bool-cases (inode.mount == s.mount_id)) [
  | inr other ↦
      let whole : ◌≡◌ {A = Result TmpInode} (err not_found) (ok node) = rw other at h in absurd (cc)
  | inl same ↦
      let it : (put_node inode.ino node' s).inodes inode.ino ≡ some node' = ground arith in
      rw same (ap found_inode it)
]

is_regular-is_symlink : (t : FileType) → is_regular t ≡ true → is_symlink t ≡ false
is_regular-is_symlink regular h = refl
is_regular-is_symlink _ h = absurd (ground (arith, h))

-- Bytes written to a regular file, where the end is within 2^63, are what a read of as many bytes
-- at the offset sees; all others are what they were, with zeros up to the offset, the size is that
-- of the contents, the generation goes up by one, and no other inode changes.
pub read-write :
    (s : TmpFs) (inode : InodeId) (offset : ℕ) (buf : List ℕ) (node : TmpInode)
    → node_at s inode ≡ ok node
    → is_regular node.attr.file_type ≡ true
    → offset + length buf < 2 ^ 63
    → (s' : TmpFs) × (node' : TmpInode) × (write inode offset buf s ≡ some (ok (length buf), s'))
      × (read s' inode offset (length buf) ≡ ok buf)
      × (node_at s' inode ≡ ok node')
      × ((j : ℕ)
          → (j < offset) ⊎ (offset + length buf ≤ j)
          → get_or node'.contents j 0 ≡ get_or node.contents j 0)
      × (length node'.contents ≡ max (offset + length buf) (length node.contents))
      × (node'.attr.size ≡ length node'.contents)
      × (node'.attr.generation ≡ node.attr.generation + 1)
      × ((i : ℕ) → i ≢ inode.ino → s'.inodes i ≡ s.inodes i)
unfolding read write
read-write s inode offset buf node here reg room =
    let (size, back, kept) = written_lem offset buf node.contents in
    let after : node_at s' inode ≡ ok node' = node_at-put_node s inode node node' here in
    let fits : leb (2 ^ 63) (offset + length buf) ≡ false = ground (arith, room) in
    (
      s',
      node',
      rw (here, reg, fits, write) refl,
      rw (after, is_regular-is_symlink node.attr.file_type reg, reg, read) (ap ok back),
      after,
      kept,
      size,
      refl,
      refl,
      λ i ne. ground (arith, ne),
    )
  where
    node' : TmpInode
    node' =
        with_contents (written offset buf node.contents) (length (written offset buf node.contents))
          node

    s' : TmpFs
    s' = put_node inode.ino node' s
