-- ===== src/Sync/Mutex/Exclusion.antt =====
-- No two threads have the lock.
use theory_os.Base.{
  ℕ, ◌≡◌, ◌≢◌, refl, sym, ap, ◌∙◌, arith, Bool, true, false, Option, none, some, List, [], ◌∷◌,
  ◌==◌, Bool-cases, inl, inr,
}
use theory_os.Ipc.Wait.{pop}
use theory_os.Sync.Mutex.{
  Place, PiMutex, elsewhere, trying, entering, holding, leaving, waking, contended, asleep, move,
  awake, wake, step_at, step, run, initial,
}

-- From the exchange to the store that frees the lock.
abbrev pub inside : Place → Bool
inside entering = true
inside holding = true
inside leaving = true
inside _ = false

-- A thread with the lock finds it locked, and is the only one.
pub record IsExclusive (m : PiMutex) : Type 0 where
  pub marked : (t : ℕ) → inside (m.places t) ≡ true → m.locked ≡ true
  pub alone : (t u : ℕ) → inside (m.places t) ≡ true → inside (m.places u) ≡ true → t ≡ u

-- Where no thread gets inside and the mark stays, nothing is lost.
keeps-IsExclusive :
    (m m' : PiMutex)
    → IsExclusive m
    → m'.locked ≡ m.locked
    → ((t : ℕ) → inside (m'.places t) ≡ true → inside (m.places t) ≡ true)
    → IsExclusive m'
keeps-IsExclusive m m' v same into = record {
  marked = λ t h. same ∙ v.marked t (into t h);
  alone = λ t u h k. v.alone t u (into t h) (into u k);
}

-- A thread that moves inside was inside, or does not move inside.
move_into :
    (tid t : ℕ) (place : Place) (places : ℕ → Place)
    → (inside place ≡ true → inside (places tid) ≡ true)
    → inside (move tid place places t) ≡ true
    → inside (places t) ≡ true
move_into tid t place places f h = elim (Bool-cases (t == tid)) [
  | inl same ↦
      let e : tid ≡ t = ground (arith, same) in
      let p : inside place ≡ true = rw same at h in ap (λ x. inside (places x)) (sym e) ∙ f p
  | inr other ↦ rw other at h
]

awake_into : (p : Place) → inside (awake p) ≡ true → inside p ≡ true
awake_into asleep h = absurd (cc)
awake_into elsewhere h = h
awake_into trying h = h
awake_into entering h = h
awake_into holding h = h
awake_into leaving h = h
awake_into waking h = h
awake_into contended h = h

wake_into :
    (next : Option ℕ) (places : ℕ → Place) (t : ℕ)
    → inside (wake next places t) ≡ true
    → inside (places t) ≡ true
wake_into none places t h = h
wake_into (some next) places t h = elim (Bool-cases (t == next)) [
  | inl same ↦ awake_into (places t) (rw same at h)
  | inr other ↦ rw other at h
]

step_at-IsExclusive :
    (tid : ℕ) (m : PiMutex) (place : Place)
    → m.places tid ≡ place
    → IsExclusive m
    → IsExclusive (step_at tid m place)
step_at-IsExclusive tid m elsewhere at v =
    keeps-IsExclusive m _ v refl (λ t. move_into tid t trying m.places (λ h. absurd (cc)))
step_at-IsExclusive tid m trying at v = elim (Bool-cases m.locked) [
  | inl taken ↦ rw taken (
      keeps-IsExclusive m (record m { locked = true; places = move tid contended m.places }) v
        (sym taken) (λ t. move_into tid t contended m.places (λ h. absurd (cc))))
  | inr free ↦
      let only : (t : ℕ) → inside (move tid entering m.places t) ≡ true → t ≡ tid = λ t h.
        elim (Bool-cases (t == tid)) [
          | inl same ↦ ground (arith, same)
          | inr other ↦
              let was : inside (m.places t) ≡ true = rw other at h in
              absurd (cc (v.marked t was, free))
        ] in
      rw free (record { marked = λ t h. refl; alone = λ t u h k. only t h ∙ sym (only u k) })
]
step_at-IsExclusive tid m entering at v =
    keeps-IsExclusive m _ v refl (λ t. move_into tid t holding m.places (λ h. ap inside at))
step_at-IsExclusive tid m holding at v =
    keeps-IsExclusive m _ v refl (λ t. move_into tid t leaving m.places (λ h. ap inside at))
step_at-IsExclusive tid m leaving at v =
    let nobody : (t : ℕ) → inside (move tid waking m.places t) ≢ true = λ t h.
      elim (Bool-cases (t == tid)) [
        | inl same ↦ let bad : false ≡ true = rw same at h in absurd (cc)
        | inr other ↦
            let was : inside (m.places t) ≡ true = rw other at h in
            absurd (ground (arith, other, v.alone t tid was (ap inside at)))
      ] in
    record { marked = λ t h. absurd (nobody t h); alone = λ t u h k. absurd (nobody t h) }
step_at-IsExclusive tid m waking at v = keeps-IsExclusive m _ v refl (λ t h.
    move_into tid t elsewhere m.places (λ z. absurd (cc))
      (wake_into (pop m.waiters).0 (move tid elsewhere m.places) t h))
step_at-IsExclusive tid m contended at v =
    keeps-IsExclusive m _ v refl (λ t. move_into tid t asleep m.places (λ h. absurd (cc)))
step_at-IsExclusive tid m asleep at v = v

run-IsExclusive : (tids : List ℕ) (m : PiMutex) → IsExclusive m → IsExclusive (run tids m)
unfolding run step
run-IsExclusive [] m v = v
run-IsExclusive (tid ∷ tids) m v =
    run-IsExclusive tids (step tid m) (step_at-IsExclusive tid m (m.places tid) refl v)

-- From the free mutex on, in whatever order the threads take their steps, at most one of them is
-- between the exchange that takes the lock and the store that frees it, and then the lock is marked.
pub run-exclusive :
    (tids : List ℕ) (t u : ℕ)
    → inside ((run tids initial).places t) ≡ true
    → inside ((run tids initial).places u) ≡ true
    → (t ≡ u) × ((run tids initial).locked ≡ true)
run-exclusive tids t u h k =
    let v =
      run-IsExclusive tids initial
        (record { marked = λ x z. absurd (cc); alone = λ x y z w. absurd (cc) }) in
    (v.alone t u h k, v.marked t h)
