-- ===== src/Fs/Vfs/Path/Parent.antt =====
-- kernel/src/fs/vfs/path.rs: the directory and the name that a path ends with.
use theory_os.Base.{
  ℕ, zero, suc, ◌+◌, ◌-◌, ◌≤◌, ◌<◌, ◌≡◌, ◌≢◌, refl, sym, ap, ◌∙◌, arith, true, false, ◌||◌, Option,
  none, some, List, [], ◌∷◌, ◌++◌, ltb, leb, ◌==◌, if◌then◌else◌, length, length-append, take, drop,
  All, append_assoc,
}
use theory_os.Base.Bytes.{drop-append}
use theory_os.Fs.Vfs.{InodeId, Result, ok, err, invalid_argument}
use theory_os.Fs.Vfs.Mount.{MountTable, slash}
use theory_os.Fs.Vfs.Dentry.{Cache}
use theory_os.Fs.Vfs.Path.{Outcome, resolve_path_at}

-- The index of the last slash.
unfoldable pub last_slash : List ℕ → Option ℕ
last_slash [] = none
last_slash (b ∷ path) = elim (last_slash path) [
  | some i ↦ some (suc i)
  | none ↦ if b == slash then some 0 else none
]

-- The lengths of the directory and of the name.
abbrev pub lengths : ℕ → Option ℕ → Result (ℕ × ℕ)
lengths n none = ok (0, n)
lengths n (some zero) = if n == 1 then err invalid_argument else ok (1, n - 1)
lengths n (some (suc i)) = ok (suc i, n - suc i - 1)

abbrev pub checked : List ℕ → Result (ℕ × ℕ) → Result (ℕ × List ℕ)
checked path (err e) = err e
checked path (ok (parent_len, name_len)) =
    if (name_len == 0) || ltb 255 name_len
    then err invalid_argument
    else ok (parent_len, drop (length path - name_len) path)

unfoldable pub split_parent : List ℕ → Result (ℕ × List ℕ)
unfolding last_slash
split_parent path =
    if length path == 0
    then err invalid_argument
    else checked path (lengths (length path) (last_slash path))

-- What `lookup_parent` gives once the directory is resolved. A path longer than the 4096 bytes of
-- its buffer panics in the code.
abbrev pub with_name : List ℕ → Outcome → Option (Result (InodeId × List ℕ) × Cache)
with_name name none = none
with_name name (some (err e, cache)) = some (err e, cache)
with_name name (some (ok found, cache)) = some (ok (found.inode, name), cache)

unfoldable pub lookup_parent :
    MountTable → ℕ → List ℕ → Cache → Option (Result (InodeId × List ℕ) × Cache)
unfolding split_parent resolve_path_at
lookup_parent table fuel path cache = elim (split_parent path) [
  | err e ↦ some (err e, cache)
  | ok (parent_len, name) ↦ with_name name (
      resolve_path_at table true fuel
        (if leb parent_len 1 then slash ∷ [] else take parent_len path) cache)
]

abbrev pub NoSlash : List ℕ → Type 0
NoSlash = All (λ b. b ≢ slash)

last_slash-NoSlash : (name : List ℕ) → NoSlash name → last_slash name ≡ none
unfolding last_slash
last_slash-NoSlash [] h = refl
last_slash-NoSlash (b ∷ name) (hb, h) =
    let differ : (b == slash) ≡ false = ground (arith, hb) in
    rw (last_slash-NoSlash name h, differ) refl

last_slash-append :
    (dir name : List ℕ) → NoSlash name → last_slash (dir ++ slash ∷ name) ≡ some (length dir)
unfolding last_slash
last_slash-append [] name h = rw (last_slash-NoSlash name h) refl
last_slash-append (b ∷ dir) name h = rw (last_slash-append dir name h) refl

-- A path of a directory, a slash and a name of 1 to 255 bytes without a slash is split into the
-- two, where the directory is not empty.
pub split_parent_lem :
    (dir name : List ℕ)
    → NoSlash name
    → 0 < length dir
    → 0 < length name
    → length name ≤ 255
    → split_parent (dir ++ slash ∷ name) ≡ ok (length dir, name)
unfolding split_parent
split_parent_lem [] name h some_dir some_name short = absurd (omega arith)
split_parent_lem (b ∷ dir) name h some_dir some_name short =
    let some_path : (length path == 0) ≡ false = ground arith in
    let len : length path ≡ suc (length dir) + 1 + length name =
      omega (arith, length-append dir (slash ∷ name)) in
    let name_len : length path - suc (length dir) - 1 ≡ length name = omega (arith, len) in
    let skipped : length path - length name ≡ length front =
      omega (arith, len, length-append dir (slash ∷ [])) in
    let named : ((length name == 0) || ltb 255 (length name)) ≡ false =
      ground (arith, some_name, short) in
    let dropped : drop (length path - length name) path ≡ name =
      ap (λ n. drop n path) skipped
      ∙ ap (drop (length front)) (sym (append_assoc (b ∷ dir) (slash ∷ []) name))
      ∙ drop-append front name in
    rw (some_path, last_slash-append dir name h, name_len, named)
      (ap (λ l. ok (suc (length dir), l)) dropped)
  where
    path : List ℕ
    path = (b ∷ dir) ++ slash ∷ name

    front : List ℕ
    front = (b ∷ dir) ++ slash ∷ []
