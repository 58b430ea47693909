-- ===== src/Net/Buffer/Laws.antt =====
-- A packet buffer stands for its bytes in use.
use theory_os.Base.{
  ℕ, ◌+◌, ◌-◌, ◌≤◌, ◌<◌, ◌≡◌, refl, sym, ap, ◌∙◌, true, false, List, ◌++◌, arith, length,
  length-append, length-take, length-drop, length-replicate, take, drop, ltb, leb, append_assoc,
  Bool-cases, inl, inr,
}
use theory_os.Base.Bytes.{take_front, drop_all}
use theory_os.Net.Buffer.{PacketBuf, new, bytes, extend_from_slice, trim_front}

pub record IsValid (p : PacketBuf) : Type 0 where
  pub size : length p.storage ≡ 2048
  pub fits : p.len ≤ 2048

pub length-bytes : (p : PacketBuf) → IsValid p → length (bytes p) ≡ p.len
length-bytes p v = omega (arith, length-take p.len p.storage, v.size, v.fits)

-- What fits is put behind the bytes in use, what does not changes nothing, and the answer says
-- which.
pub extend_from_slice_lem :
    (more : List ℕ) (p : PacketBuf)
    → IsValid p
    → IsValid (extend_from_slice more p).1
      × (p.len + length more ≤ 2048
          → ((extend_from_slice more p).0 ≡ true)
            × (bytes (extend_from_slice more p).1 ≡ bytes p ++ more))
      × (2048 < p.len + length more → extend_from_slice more p ≡ (false, p))
unfolding extend_from_slice
extend_from_slice_lem more p v = elim (Bool-cases (ltb 2048 (p.len + length more))) [
  | inl over ↦ rw over (v, (λ h. absurd (ground (arith, over))), λ h. refl)
  | inr fits ↦ rw fits (
    record {
      size =
          rw (length-append, length-append, length-drop)
            (omega (arith, length-bytes p v, v.size, ltb_false fits));
      fits = ltb_false fits;
    },
    (λ h. (refl, stored)),
    λ h. absurd (omega (arith, ltb_false fits)),
  )
]
  where
    ltb_false : ltb 2048 (p.len + length more) ≡ false → p.len + length more ≤ 2048
    ltb_false e = ground (arith, e)

    stored :
        take (p.len + length more) (bytes p ++ (more ++ drop (p.len + length more) p.storage))
        ≡ bytes p ++ more
    stored =
        ap (take (p.len + length more)) (sym (append_assoc (bytes p) more _))
        ∙ take_front (p.len + length more) (bytes p ++ more) _
            (length-append (bytes p) more ∙ omega (arith, length-bytes p v))

-- `trim_front` takes bytes off the front, all of them where there are not as many.
pub trim_front_lem :
    (n : ℕ) (p : PacketBuf)
    → IsValid p
    → IsValid (trim_front n p) × (bytes (trim_front n p) ≡ drop n (bytes p))
unfolding trim_front
trim_front_lem n p v = elim (Bool-cases (leb p.len n)) [
  | inl every ↦ rw every (
    record { size = v.size; fits = omega arith },
    sym (drop_all n (bytes p) (ground (arith, every, length-bytes p v))),
  )
  | inr some_left ↦ rw some_left (
    record {
      size =
          rw (length-append, length-drop, length-drop)
            (omega (arith, length-bytes p v, v.size, v.fits));
      fits = omega (arith, v.fits);
    },
    take_front (p.len - n) (drop n (bytes p)) _
        (length-drop n (bytes p) ∙ omega (arith, length-bytes p v)),
  )
]

pub new-IsValid : IsValid new
unfolding new
new-IsValid = record { size = length-replicate {A = ℕ} 2048 0; fits = omega arith }
