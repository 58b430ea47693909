-- ===== src/Fs/Tmpfs/Names.antt =====
-- The `BTreeMap` of a directory's names in kernel/src/fs/tmpfs/mod.rs, as its entries in order.
use theory_os.Base.{
  ℕ, ◌≡◌, refl, Bool, true, false, ◌&&◌, ◌||◌, Option, none, some, List, [], ◌∷◌, ltb, ◌==◌,
  if◌then◌else◌, Bool-cases, inl, inr,
}
use theory_os.Fs.Vfs.Dentry.{same_bytes}
use theory_os.Fs.Vfs.Dentry.Laws.{same_bytes_self}

abbrev pub Children : Type 0
Children = List (List ℕ × ℕ)

-- The order of strings.
unfoldable pub before : List ℕ → List ℕ → Bool
before [] [] = false
before [] (b ∷ bs) = true
before (a ∷ as_) [] = false
before (a ∷ as_) (b ∷ bs) = ltb a b || ((a == b) && before as_ bs)

unfoldable pub find_child : List ℕ → Children → Option ℕ
unfolding same_bytes
find_child name [] = none
find_child name ((other, ino) ∷ children) =
    let rest = find_child name children in if same_bytes other name then some ino else rest

unfoldable pub insert_child : List ℕ → ℕ → Children → Children
unfolding before same_bytes
insert_child name ino [] = (name, ino) ∷ []
insert_child name ino ((other, old) ∷ children) =
    let rest = insert_child name ino children in
    if same_bytes other name
    then (name, ino) ∷ children
    else if before name other
    then (name, ino) ∷ (other, old) ∷ children
    else (other, old) ∷ rest

unfoldable pub remove_child : List ℕ → Children → Children
unfolding same_bytes
remove_child name [] = []
remove_child name ((other, ino) ∷ children) =
    let rest = remove_child name children in
    if same_bytes other name then children else (other, ino) ∷ rest

pub find_child-insert_child_self :
    (name : List ℕ) (ino : ℕ) (children : Children)
    → find_child name (insert_child name ino children) ≡ some ino
unfolding find_child insert_child
find_child-insert_child_self name ino [] = rw (same_bytes_self name) refl
find_child-insert_child_self name ino ((other, old) ∷ children) =
    elim (Bool-cases (same_bytes other name)) [
      | inl same ↦ rw same (rw (same_bytes_self name) refl)
      | inr differ ↦ elim (Bool-cases (before name other)) [
        | inl first ↦ rw (differ, first) (rw (same_bytes_self name) refl)
        | inr later ↦
            rw (differ, later)
              (rw (differ, find_child) (find_child-insert_child_self name ino children))
      ]
    ]

-- An entry for one name leaves what is found of another.
pub find_child-insert_child_ne :
    (name wanted : List ℕ) (ino : ℕ) (children : Children)
    → same_bytes name wanted ≡ false
    → find_child name children ≡ none
    → find_child wanted (insert_child name ino children) ≡ find_child wanted children
unfolding find_child insert_child
find_child-insert_child_ne name wanted ino [] ne absent = rw ne refl
find_child-insert_child_ne name wanted ino ((other, old) ∷ children) ne absent =
    elim (Bool-cases (same_bytes other name)) [
      | inl same ↦ let whole : some old ≡ none = rw same at absent in absurd (cc)
      | inr differ ↦
          let rest : find_child name children ≡ none = rw differ at absent in
          elim (Bool-cases (before name other)) [
            | inl first ↦ rw (differ, first) (rw ne refl)
            | inr later ↦
                rw (differ, later)
                  (elim (Bool-cases (same_bytes other wanted)) [
                    | inl hit ↦ rw (hit, find_child) refl
                    | inr miss ↦
                        rw (miss, find_child)
                          (find_child-insert_child_ne name wanted ino children ne rest)
                  ])
          ]
    ]
