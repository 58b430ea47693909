-- ===== src/Signal/Types/Pending.antt =====
-- `deliver` and `take_pending` of kernel/src/signal/types.rs.
use theory_os.Base.{
  ℕ, zero, suc, ◌+◌, ◌≤◌, ◌<◌, Bool, true, false, not, ◌&&◌, ◌||◌, none, some, leb, ◌==◌,
  Bool-cases, ◌≡◌, ◌⊎◌, inl, inr, refl, arith,
}
use theory_os.Signal.Types.{
  SignalState, in_range, del, contains, nsig, sig_ign, action, deliver, take_from, take_pending,
}
use theory_os.Signal.Types.Sets.{contains-add-del}

-- Whether a signal can be taken.
abbrev pub ready : SignalState → ℕ → Bool
ready s sig = contains s.pending sig && not (contains s.blocked sig)

ready_outside : (s : SignalState) (j : ℕ) → in_range j ≡ false → ready s j ≡ false
unfolding contains
ready_outside s j e = rw e refl

take_from_lem :
    (n sig : ℕ) (s : SignalState)
    → ((take_from n sig s ≡ (none, s)) × ((k : ℕ) → sig ≤ k → k < sig + n → ready s k ≡ false))
      ⊎ ((k : ℕ) × (take_from n sig s ≡ (some k, record s { pending = del s.pending k }))
          × (ready s k ≡ true)
          × (sig ≤ k)
          × ((j : ℕ) → sig ≤ j → j < k → ready s j ≡ false))
unfolding take_from
take_from_lem zero sig s = inl (refl, λ k a b. absurd (omega arith))
take_from_lem (suc n) sig s = elim (Bool-cases (ready s sig)) [
  | inl here ↦ inr (sig, rw here refl, here, omega arith, λ j a b. absurd (omega arith))
  | inr not_here ↦
      let at : (j : ℕ) → (sig == j) ≡ true → ready s j ≡ false =
        λ j e. let e' : sig ≡ j = ground arith in rw⁻¹ e' not_here in
      elim (take_from_lem n (suc sig) s) [
        | inl (nothing, rest) ↦ inl (
          rw not_here nothing,
          λ k a b. elim (Bool-cases (sig == k)) [
            | inl same ↦ at k same
            | inr other ↦ rest k (ground arith) (omega arith)
          ],
        )
        | inr (k, taken, ok, low, rest) ↦ inr (
          k,
          rw not_here taken,
          ok,
          omega arith,
          λ j a b. elim (Bool-cases (sig == j)) [
            | inl same ↦ at j same
            | inr other ↦ rest j (ground arith) b
          ],
        )
      ]
]

-- `take_pending` gives the least signal that is pending and not blocked, and takes that signal, and
-- no other, off the pending set; where there is none it gives nothing and changes nothing.
pub take_pending_lem :
    (s : SignalState)
    → ((take_pending s ≡ (none, s)) × ((k : ℕ) → ready s k ≡ false))
      ⊎ ((k : ℕ) × (s' : SignalState) × (take_pending s ≡ (some k, s'))
          × (ready s k ≡ true)
          × ((j : ℕ) → j < k → ready s j ≡ false)
          × ((j : ℕ) → contains s'.pending j ≡ (not (k == j) && contains s.pending j))
          × (s'.blocked ≡ s.blocked)
          × (s'.actions ≡ s.actions))
unfolding take_pending
take_pending_lem s =
    let outside = ready_outside s in
    elim (take_from_lem 63 1 s) [
      | inl (nothing, rest) ↦ inl (
        nothing,
        λ k. elim (Bool-cases (in_range k)) [
          | inl valid ↦ rest k (ground arith) (ground arith)
          | inr invalid ↦ outside k invalid
        ],
      )
      | inr (k, taken, ok, low, rest) ↦ inr (
        k,
        record s { pending = del s.pending k },
        taken,
        ok,
        λ j lt. elim (Bool-cases (j == 0)) [
          | inl zeroth ↦ outside j (ground arith)
          | inr positive ↦ rest j (ground arith) lt
        ],
        λ j. (contains-add-del s.pending k j).1,
        refl,
        refl,
      )
    ]

-- Whether `deliver` records a signal.
abbrev pub accepts : SignalState → ℕ → Bool
accepts s sig = in_range sig && not ((action s sig).handler == sig_ign)

-- After `deliver` the signals that were pending still are, and the delivered one is, if it is one of
-- 1 to 63 that the process does not ignore; what is blocked and the actions are as before.
pub deliver_lem :
    (s : SignalState) (sig j : ℕ)
    → (contains (deliver s sig).pending j ≡ ((accepts s sig && (sig == j)) || contains s.pending j))
      × ((deliver s sig).blocked ≡ s.blocked)
      × ((deliver s sig).actions ≡ s.actions)
unfolding deliver
deliver_lem s sig j = elim (Bool-cases (in_range sig)) [
  | inr invalid ↦
      let skip : ((sig == 0) || leb nsig sig) ≡ true = ground arith in
      (rw invalid (rw skip refl), rw skip refl, rw skip refl)
  | inl valid ↦
      let go : ((sig == 0) || leb nsig sig) ≡ false = ground arith in
      elim (Bool-cases ((action s sig).handler == sig_ign)) [
        | inl ignored ↦ (
          rw go (rw ignored (ground (arith, valid))),
          rw go (rw ignored refl),
          rw go (rw ignored refl),
        )
        | inr heard ↦ (
          rw go (rw heard (ground (arith, valid, (contains-add-del s.pending sig j).0))),
          rw go (rw heard refl),
          rw go (rw heard refl),
        )
      ]
]
