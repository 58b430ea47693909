-- ===== src/Net/Icmp/Laws.antt =====
-- Echo requests and their answers.
use theory_os.Base.{
  ℕ, ◌+◌, ◌≤◌, ◌<◌, ◌≡◌, refl, ap, ◌∙◌, false, none, some, List, [], ◌∷◌, ◌++◌, arith, length, take,
  drop, ltb, All, replicate, length-replicate,
}
use theory_os.Base.Bytes.{
  IsByte, u16_to_be_bytes, copy_into, copy_into_lem, copy_into-none, take_front,
}
use theory_os.Mm.Checked.{◌>>=◌}
use theory_os.Net.Checksum.{checksum}
use theory_os.Net.Checksum.Laws.{checksum-checksum}
use theory_os.Net.Ipv4.{Ipv4Header}
use theory_os.Net.Icmp.{echo_reply, handle_incoming}

-- The answer to a request: its code `d` and all that follows the checksum, under type 0.
abbrev pub answer : ℕ → List ℕ → List ℕ
answer d body = 0 ∷ d ∷ u16_to_be_bytes (checksum (0 ∷ d ∷ 0 ∷ 0 ∷ body)) ++ body

echo_reply_lem :
    (t d c e : ℕ) (body buf : List ℕ)
    → 4 + length body ≤ length buf
    → echo_reply (t ∷ d ∷ c ∷ e ∷ body) buf ≡ some (answer d body)
unfolding echo_reply
echo_reply_lem t d c e body buf room =
    ap
      (λ b. b >>= λ out. copy_into out 0 (0 ∷ []) >>= λ out. copy_into out 2 (0 ∷ []) >>= λ out.
        copy_into out 3 (0 ∷ []) >>= λ out.
        copy_into out 2 (u16_to_be_bytes (checksum (take total out))) >>= λ out.
        some (take total out))
      (copy_into_lem buf 0 (t ∷ d ∷ c ∷ e ∷ body) (omega arith))
    ∙ ap (λ l. some (take total (0 ∷ d ∷ u16_to_be_bytes (checksum l) ++ (body ++ tail))))
        (take_front total (0 ∷ d ∷ 0 ∷ 0 ∷ body) tail refl)
    ∙ ap some (take_front total (answer d body) tail refl)
  where
    total : ℕ
    total = length (t ∷ d ∷ c ∷ e ∷ body)

    tail : List ℕ
    tail = drop (0 + total) buf

echo_reply_long : (bytes buf : List ℕ) → length buf < length bytes → echo_reply bytes buf ≡ none
unfolding echo_reply
echo_reply_long bytes buf h = rw (copy_into-none buf 0 bytes (omega arith)) refl

-- A message of at least 8 bytes and type 8 is answered to its sender, where it has at most 576
-- bytes, by one message of type 0 with the same code and the same bytes behind the checksum, and
-- that message has the checksum 0; a longer one panics.
pub handle_incoming-echo :
    (ip : Ipv4Header) (d c e : ℕ) (body : List ℕ)
    → All IsByte (d ∷ body)
    → 4 ≤ length body
    → (length body ≤ 572
        → (handle_incoming ip (8 ∷ d ∷ c ∷ e ∷ body)
            ≡ some (record { dst = ip.src; protocol = 1; payload = answer d body } ∷ []))
          × (checksum (answer d body) ≡ 0))
      × (572 < length body → handle_incoming ip (8 ∷ d ∷ c ∷ e ∷ body) ≡ none)
unfolding handle_incoming
handle_incoming-echo ip d c e body (hd, hb) long = (
  λ short. (
    rw
        (
          room,
          echo_reply_lem 8 d c e body (replicate 576 0)
              (omega (arith, length-replicate {A = ℕ} 576 0)),
        )
        refl,
    checksum-checksum 1 (0 ∷ d ∷ []) body refl (omega arith, (hd, tt)) hb (omega arith),
  ),
  λ over.
      rw
        (
          room,
          echo_reply_long (8 ∷ d ∷ c ∷ e ∷ body) (replicate 576 0)
              (omega (arith, length-replicate {A = ℕ} 576 0)),
        )
        refl,
)
  where
    room : ltb (length (8 ∷ d ∷ c ∷ e ∷ body)) 8 ≡ false
    room = ground arith
