-- ===== src/Fs/Vfs/Dentry/Laws.antt =====
-- What the cache answers after an insertion, and what holds of every entry.
use theory_os.Base.{
  ℕ, ◌≡◌, refl, sym, ap, arith, Bool, true, false, ◌&&◌, none, some, List, [], ◌∷◌, ◌==◌,
  if◌then◌else◌, Bool-cases, inl, inr,
}
use mathlib.Core.Path.{subst}
use theory_os.Fs.Vfs.{InodeId, same_inode, same_inode_sound, same_inode_self}
use theory_os.Fs.Vfs.Dentry.{Dentry, Cache, hash, same_bytes, is_for, get, is_replaced, insert}

pub same_bytes_self : (name : List ℕ) → same_bytes name name ≡ true
unfolding same_bytes
same_bytes_self [] = refl
same_bytes_self (b ∷ name) = ground (arith, same_bytes_self name)

-- The cache has a slot for the entry.
abbrev pub has_place : Dentry → Cache → Bool
has_place dentry [] = false
has_place dentry (none ∷ entries) = true
has_place dentry (some e ∷ entries) =
    let rest = has_place dentry entries in if is_replaced dentry e then true else rest

-- What the test of `get` says of an entry.
pub is_for-parts :
    (parent : InodeId) (name : List ℕ) (e : Dentry)
    → is_for parent name e ≡ true
    → (e.parent ≡ parent) × (e.name_hash ≡ hash parent name) × (same_bytes e.name name ≡ true)
is_for-parts parent name e h =
    (same_inode_sound e.parent parent (ground (arith, h)), ground (arith, h), ground (arith, h))

-- An entry for the same name stands where the new one goes.
is_replaced-is_for :
    (parent : InodeId) (name : List ℕ) (d e : Dentry)
    → is_for parent name d ≡ true
    → is_for parent name e ≡ true
    → is_replaced d e ≡ true
is_replaced-is_for parent name d e h k =
    let (p, q, _) = is_for-parts parent name d h in
    let (p', q', _) = is_for-parts parent name e k in
    rw (p, q, p', q', same_inode_self parent) (ground arith)

get-insert_self :
    (parent : InodeId) (name : List ℕ) (d : Dentry) (c : Cache)
    → is_for parent name d ≡ true
    → has_place d c ≡ true
    → get parent name (insert d c) ≡ some d
unfolding get insert
get-insert_self parent name d [] h room = absurd (ground (arith, room))
get-insert_self parent name d (none ∷ c) h room = rw h refl
get-insert_self parent name d (some e ∷ c) h room = elim (Bool-cases (is_replaced d e)) [
  | inl same ↦ rw (same, h) refl
  | inr differ ↦ elim (Bool-cases (is_for parent name e)) [
    | inl found ↦ absurd (ground (arith, differ, is_replaced-is_for parent name d e h found))
    | inr skipped ↦ rw (differ, skipped) (get-insert_self parent name d c h (rw differ at room))
  ]
]

-- The names that the new entry may displace.
abbrev pub shares_hash : Dentry → InodeId → List ℕ → Bool
shares_hash d parent name = same_inode d.parent parent && (d.name_hash == hash parent name)

not_for :
    (parent : InodeId) (name : List ℕ) (d : Dentry)
    → shares_hash d parent name ≡ false
    → is_for parent name d ≡ false
not_for parent name d h = ground (arith, h)

replaced_not_for :
    (parent : InodeId) (name : List ℕ) (d e : Dentry)
    → shares_hash d parent name ≡ false
    → is_replaced d e ≡ true
    → is_for parent name e ≡ false
replaced_not_for parent name d e h same = elim (Bool-cases (is_for parent name e)) [
  | inl found ↦
      let (p, q, _) = is_for-parts parent name e found in
      let p' : e.parent ≡ d.parent = same_inode_sound e.parent d.parent (ground (arith, same)) in
      let q' : e.name_hash ≡ d.name_hash = ground (arith, same) in
      let both : shares_hash d parent name ≡ true =
        rw (sym p', sym q', p, q, same_inode_self parent) (ground arith) in
      absurd (ground (arith, both, h))
  | inr skipped ↦ skipped
]

get-insert_ne :
    (parent : InodeId) (name : List ℕ) (d : Dentry) (c : Cache)
    → shares_hash d parent name ≡ false
    → get parent name (insert d c) ≡ get parent name c
unfolding get insert
get-insert_ne parent name d [] h = refl
get-insert_ne parent name d (none ∷ c) h = rw (not_for parent name d h) refl
get-insert_ne parent name d (some e ∷ c) h = elim (Bool-cases (is_replaced d e)) [
  | inl same ↦ rw (same, not_for parent name d h, replaced_not_for parent name d e h same) refl
  | inr differ ↦
      rw differ
        (ap (λ r. if is_for parent name e then some e else r) (get-insert_ne parent name d c h))
]

-- Where the cache has a slot for it, an inserted entry is what `get` gives for its name; for a name
-- of another directory, or with another hash, `get` gives what it gave.
pub get-insert :
    (d : Dentry) (c : Cache)
    → has_place d c ≡ true
    → ((parent : InodeId) (name : List ℕ)
        → is_for parent name d ≡ true
        → get parent name (insert d c) ≡ some d)
      × ((parent : InodeId) (name : List ℕ)
          → shares_hash d parent name ≡ false
          → get parent name (insert d c) ≡ get parent name c)
get-insert d c room = (
  λ parent name h. get-insert_self parent name d c h room,
  λ parent name h. get-insert_ne parent name d c h,
)

module _ (P : Dentry → Type 0) where
  -- What holds of every entry.
  abbrev pub Every : Cache → Type 0
  Every [] = Unit
  Every (none ∷ c) = Every c
  Every (some e ∷ c) = P e × Every c

  pub get-Every :
      (parent : InodeId) (name : List ℕ) (c : Cache) (d : Dentry)
      → Every c
      → get parent name c ≡ some d
      → P d × (is_for parent name d ≡ true)
  unfolding get
  get-Every parent name [] d h e = absurd (ground (arith, e))
  get-Every parent name (none ∷ c) d h e = get-Every parent name c d h e
  get-Every parent name (some x ∷ c) d (hx, h) e = elim (Bool-cases (is_for parent name x)) [
    | inl found ↦
        let e' : some x ≡ some d = rw found at e in
        let same : x ≡ d = cc in subst (λ y. P y × (is_for parent name y ≡ true)) same (hx, found)
    | inr skipped ↦ get-Every parent name c d h (rw skipped at e)
  ]

  pub insert-Every : (d : Dentry) (c : Cache) → P d → Every c → Every (insert d c)
  unfolding insert
  insert-Every d [] hd h = tt
  insert-Every d (none ∷ c) hd h = (hd, h)
  insert-Every d (some e ∷ c) hd (he, h) = elim (Bool-cases (is_replaced d e)) [
    | inl same ↦ rw same (hd, h)
    | inr differ ↦ rw differ (he, insert-Every d c hd h)
  ]
