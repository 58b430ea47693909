-- ===== src/Fs/Vfs/Mount/Laws.antt =====
-- The mount that a path belongs to.
use theory_os.Base.{
  ℕ, zero, suc, ◌≤◌, ◌<◌, ◌≡◌, ◌⊎◌, refl, sym, ap, ◌∙◌, ◌++◌, append-nil, length-append, arith,
  true, false, ◌||◌, Option, none, some, List, [], ◌∷◌, leb, ◌==◌, length, Bool-cases, inl, inr,
  get_or,
}
use theory_os.Base.Slots.{entry}
use theory_os.Fs.Vfs.Mount.{
  MountPoint, MountTable, path_len, covers, starts_with, ends_name, better, find_loop,
  find_mount_for_path, slash,
}

-- The mount is in the table.
abbrev pub Holds : List (Option MountPoint) → MountPoint → Type 0
Holds mounts mp = (i : ℕ) × (entry mounts i ≡ some mp)

-- No mount of the table has the empty path.
abbrev pub Named : List (Option MountPoint) → Type 0
Named mounts = (i : ℕ) (mp : MountPoint) → entry mounts i ≡ some mp → 0 < path_len mp

-- The better of two mounts.
better_lem :
    (path : List ℕ) (mp : MountPoint) (best : ℕ × ℕ)
    → 0 < path_len mp
    → (best.1 ≤ (better path mp best).1)
      × (covers path mp ≡ true → path_len mp ≤ (better path mp best).1)
      × ((better path mp best ≡ best)
          ⊎ ((covers path mp ≡ true) × (better path mp best ≡ (mp.id, path_len mp))))
better_lem path mp best named =
    let some_path : (path_len mp == 0) ≡ false = ground arith in
    elim (Bool-cases (covers path mp)) [
      | inl on_path ↦ elim (Bool-cases (leb best.1 (path_len mp))) [
        | inl longer ↦
            rw (some_path, on_path, longer)
              (ground (arith, longer), (λ _. omega arith), inr (refl, refl))
        | inr shorter ↦
            rw (some_path, on_path, shorter) (omega arith, (λ _. ground (arith, shorter)), inl refl)
      ]
      | inr off_path ↦
          rw (some_path, off_path) (omega arith, (λ e. absurd (ground (arith, e))), inl refl)
    ]

Holds-cases :
    (first : Option MountPoint) (mounts : List (Option MountPoint)) (mp : MountPoint)
    → Holds (first ∷ mounts) mp
    → (first ≡ some mp) ⊎ Holds mounts mp
Holds-cases first mounts mp (zero, e) = inl e
Holds-cases first mounts mp (suc i, e) = inr (i, e)

find_loop_lem :
    (path : List ℕ) (mounts : List (Option MountPoint)) (best : ℕ × ℕ)
    → Named mounts
    → (best.1 ≤ (find_loop path mounts best).1)
      × ((mp : MountPoint)
          → Holds mounts mp
          → covers path mp ≡ true
          → path_len mp ≤ (find_loop path mounts best).1)
      × ((find_loop path mounts best ≡ best)
          ⊎ ((mp : MountPoint) × Holds mounts mp
              × (covers path mp ≡ true)
              × (find_loop path mounts best ≡ (mp.id, path_len mp))))
unfolding find_loop
find_loop_lem path [] best named = (omega arith, (λ mp (i, e). absurd (cc)), inl refl)
find_loop_lem path (none ∷ mounts) best named =
    let (mono, every, which) = find_loop_lem path mounts best (λ i mp e. named (suc i) mp e) in
    (
      mono,
      (λ mp held on_path. elim (Holds-cases none mounts mp held) [
        | inl e ↦ absurd (cc)
        | inr held' ↦ every mp held' on_path
      ]),
      elim which [
        | inl e ↦ inl e
        | inr (mp, (i, held), on_path, e) ↦ inr (mp, (suc i, held), on_path, e)
      ],
    )
find_loop_lem path (some first ∷ mounts) best named =
    let (up, covered, better') = better_lem path first best (named 0 first refl) in
    let (mono, every, which) =
      find_loop_lem path mounts (better path first best) (λ i mp e. named (suc i) mp e) in
    (
      omega (arith, up, mono),
      (λ mp held on_path. elim (Holds-cases (some first) mounts mp held) [
        | inl e ↦
            let same : first ≡ mp = cc in
            let there : path_len first ≤ (better path first best).1 =
              covered (ap (covers path) same ∙ on_path) in
            omega (arith, there, mono, ap path_len same)
        | inr held' ↦ every mp held' on_path
      ]),
      elim which [
        | inl e ↦ elim better' [
          | inl kept ↦ inl (e ∙ kept)
          | inr (on_path, taken) ↦ inr (first, (0, refl), on_path, e ∙ taken)
        ]
        | inr (mp, (i, held), on_path, e) ↦ inr (mp, (suc i, held), on_path, e)
      ],
    )

-- The path is that of the mount, or that with a slash and more behind it.
abbrev pub LiesOn : List ℕ → MountPoint → Type 0
LiesOn path mp = (path ≡ mp.path) ⊎ ((more : List ℕ) × (path ≡ mp.path ++ (slash ∷ more)))

front_and_end :
    (path front : List ℕ)
    → starts_with path front ≡ true
    → ends_name path (length front) ≡ true
    → (path ≡ front) ⊎ ((more : List ℕ) × (path ≡ front ++ (slash ∷ more)))
unfolding starts_with
front_and_end [] [] h e = inl refl
front_and_end (y ∷ path) [] h e =
    let same : y ≡ slash = ground (arith, e) in inr (path, ap (λ x. x ∷ path) same)
front_and_end [] (x ∷ front) h e = absurd (cc)
front_and_end (y ∷ path) (x ∷ front) h e =
    let same : y ≡ x = ground (arith, h) in
    let later : starts_with path front ≡ true = ground (arith, h) in
    let ends : ends_name path (length front) ≡ true = ground (arith, e) in
    elim (front_and_end path front later ends) [
      | inl whole ↦ inl (ap (λ z. z ∷ path) same ∙ ap (λ l. x ∷ l) whole)
      | inr (more, there) ↦ inr (more, ap (λ z. z ∷ path) same ∙ ap (λ l. x ∷ l) there)
    ]

starts_with-append : (front rest : List ℕ) → starts_with (front ++ rest) front ≡ true
unfolding starts_with
starts_with-append [] rest = refl
starts_with-append (x ∷ front) rest = ground (arith, starts_with-append front rest)

ends_name-append : (front more : List ℕ) → ends_name (front ++ (slash ∷ more)) (length front) ≡ true
ends_name-append [] more = ground arith
ends_name-append (x ∷ front) more = ground (arith, ends_name-append front more)

covers-LiesOn : (path : List ℕ) (mp : MountPoint) → covers path mp ≡ true → LiesOn path mp
covers-LiesOn path mp h =
    let starts : starts_with path mp.path ≡ true = ground (arith, h) in
    let ends : ends_name path (length mp.path) ≡ true = ground (arith, h) in
    front_and_end path mp.path starts ends

LiesOn-covers : (path : List ℕ) (mp : MountPoint) → LiesOn path mp → covers path mp ≡ true
LiesOn-covers path mp (inl whole) =
    let starts : starts_with path mp.path ≡ true =
      ap (λ l. starts_with l mp.path) (whole ∙ sym (append-nil mp.path))
      ∙ starts_with-append mp.path [] in
    let long : length path ≡ length mp.path = ap length whole in ground (arith, starts, long)
LiesOn-covers path mp (inr (more, there)) =
    let starts : starts_with path mp.path ≡ true =
      ap (λ l. starts_with l mp.path) there ∙ starts_with-append mp.path (slash ∷ more) in
    let ends : ends_name path (length mp.path) ≡ true =
      ap (λ l. ends_name l (length mp.path)) there ∙ ends_name-append mp.path more in
    let long : length mp.path ≤ length path =
      omega (arith, ap length there, length-append mp.path (slash ∷ more)) in
    let b : leb (length mp.path) (length path) ≡ true = ground (arith, long) in
    rw (b, starts, ends) refl

-- In a table whose first mount has the empty path, as the root file system is mounted, and no other
-- has, a path that is empty or starts with a slash goes to a mount whose path it is, or is with a
-- slash and more behind it, and to none with a shorter path than another such; where there is none
-- it goes to the first.
pub find_mount_for_path_lem :
    (path : List ℕ) (t : MountTable) (root : MountPoint) (mounts : List (Option MountPoint))
    → t.mounts ≡ some root ∷ mounts
    → path_len root ≡ 0
    → Named mounts
    → (length path ≡ 0) ⊎ (get_or path 0 0 ≡ slash)
    → ((mp : MountPoint)
        → Holds mounts mp
        → LiesOn path mp
        → path_len mp ≤ (find_mount_for_path path t).1)
      × ((find_mount_for_path path t ≡ (root.id, 0))
          ⊎ ((mp : MountPoint) × Holds mounts mp
              × LiesOn path mp
              × (find_mount_for_path path t ≡ (mp.id, path_len mp))))
unfolding find_mount_for_path find_loop
find_mount_for_path_lem path t root mounts e empty named absolute =
    let (_, every, which) = find_loop_lem path mounts (root.id, 0) named in
    let start : find_mount_for_path path t ≡ find_loop path mounts (root.id, 0) =
      rw (e, starts, find_mount_for_path) refl in
    rw start (
      (λ mp held on. every mp held (LiesOn-covers path mp on)),
      elim which [
        | inl first ↦ inl first
        | inr (mp, held, on_path, found) ↦ inr (mp, held, covers-LiesOn path mp on_path, found)
      ],
    )
  where
    starts : better path root (0, 0) ≡ (root.id, 0)
    starts =
        let no_name : (path_len root == 0) ≡ true = ground (arith, empty) in
        let rooted : ((length path == 0) || (get_or path 0 0 == slash)) ≡ true = elim absolute [
          | inl h ↦ ground (arith, h)
          | inr h ↦ ground (arith, h)
        ] in
        rw (no_name, rooted) refl
