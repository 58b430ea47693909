-- ===== src/Net/Udp/Laws.antt =====
-- Datagrams that are sent, and what becomes of them at the other end.
use theory_os.Base.{
  ℕ, ◌+◌, ◌-◌, ◌*◌, ◌/◌, ◌%◌, ◌^◌, ◌≤◌, ◌<◌, ◌≡◌, refl, ap, ◌∙◌, true, false, none, some, List, [],
  ◌∷◌, ◌++◌, arith, length, take, drop, ltb, All, replicate, length-replicate, Bool-cases, inl, inr,
}
use theory_os.Base.Bytes.{
  IsByte, u16_to_be_bytes, Cells, on_cells, copy_into, copy_into_lem, take_front, take_all,
}
use theory_os.Mm.Checked.{◌>>=◌}
use theory_os.Net.Addr.{Ipv4Addr, v4}
use theory_os.Net.Checksum.{checksum}
use theory_os.Net.Checksum.Laws.{checksum-checksum}
use theory_os.Net.Ipv4.{Ipv4Header}
use theory_os.Net.Udp.{Queues, port_index, recv, fill, sendto, datagram, handle_incoming}

-- The ports and the length, in front of the checksum.
abbrev pub front_of : ℕ → ℕ → List ℕ → List ℕ
front_of dst_port src_port bytes =
    u16_to_be_bytes src_port
    ++ (u16_to_be_bytes dst_port ++ u16_to_be_bytes (8 + length bytes % 2 ^ 16))

-- A datagram with the checksum `c`.
abbrev pub packet : ℕ → ℕ → List ℕ → ℕ → List ℕ
packet dst_port src_port bytes c = front_of dst_port src_port bytes ++ (u16_to_be_bytes c ++ bytes)

abbrev pub sent : ℕ → ℕ → List ℕ → List ℕ
sent dst_port src_port bytes =
    packet dst_port src_port bytes (checksum (packet dst_port src_port bytes 0))

fill_lem :
    (dst_port src_port : ℕ) (bytes buf : List ℕ)
    → 8 + length bytes ≤ length buf
    → fill dst_port src_port bytes buf ≡ some (sent dst_port src_port bytes)
unfolding fill
fill_lem dst_port src_port bytes buf room = on_cells 8 Filled filled buf (omega arith) room
  where
    total : ℕ
    total = 8 + length bytes

    Filled : List ℕ → Type 0
    Filled b =
        total ≤ length b → fill dst_port src_port bytes b ≡ some (sent dst_port src_port bytes)

    filled : Cells 8 Filled
    filled b0 b1 b2 b3 b4 b5 b6 b7 rest room =
        ap
          (λ b. b >>= λ out.
            copy_into out 6 (u16_to_be_bytes (checksum (take total out))) >>= λ out.
            some (take total out))
          (copy_into_lem (head ++ rest) 8 bytes room)
        ∙ ap (λ l. some (take total (with_sum (checksum l)))) (front 0)
        ∙ ap some (front (checksum (packet dst_port src_port bytes 0)))
      where
        head : List ℕ
        head = front_of dst_port src_port bytes ++ (0 ∷ 0 ∷ [])

        tail : List ℕ
        tail = drop total (head ++ rest)

        with_sum : ℕ → List ℕ
        with_sum c = packet dst_port src_port bytes c ++ tail

        front : (c : ℕ) → take total (with_sum c) ≡ packet dst_port src_port bytes c
        front c = take_front total (packet dst_port src_port bytes c) tail (omega arith)

-- A datagram with any checksum is read back.
datagram-packet :
    (ip : Ipv4Header) (dst_port src_port c : ℕ) (bytes : List ℕ)
    → dst_port < 2 ^ 16
    → src_port < 2 ^ 16
    → length bytes ≤ 1492
    → datagram ip (packet dst_port src_port bytes c)
      ≡ record { src = v4 ip.src; src_port = src_port; dst_port = dst_port; payload = bytes }
datagram-packet ip dst_port src_port c bytes hd hs short =
    let source : src_port / 256 % 256 * 256 + src_port % 256 ≡ src_port = omega arith in
    let target : dst_port / 256 % 256 * 256 + dst_port % 256 ≡ dst_port = omega arith in
    let field : (8 + length bytes % 2 ^ 16) / 256 % 256 * 256 + (8 + length bytes % 2 ^ 16) % 256
        ≡ 8 + length bytes =
      omega arith in
    let whole : take (8 + length bytes - 8) bytes ≡ bytes = take_all _ bytes (omega arith) in
    rw (field, source, target, whole) refl

-- The lock is taken a second time under the lock.
handle_incoming-packet :
    (ip : Ipv4Header) (dst_port src_port c : ℕ) (bytes : List ℕ) (q : Queues)
    → length bytes ≤ 1492
    → handle_incoming ip (packet dst_port src_port bytes c) q ≡ none
unfolding handle_incoming port_index
handle_incoming-packet ip dst_port src_port c bytes q short =
    let long : length (packet dst_port src_port bytes c) ≡ 8 + length bytes = omega arith in
    let field : (8 + length bytes % 2 ^ 16) / 256 % 256 * 256 + (8 + length bytes % 2 ^ 16) % 256
        ≡ 8 + length bytes =
      omega arith in
    let enough : ltb (8 + length bytes) 8 ≡ false = ground arith in
    let fits : ltb (8 + length bytes) (8 + length bytes) ≡ false = ground arith in
    elim (Bool-cases q.locked) [
      | inl taken ↦ rw (long, field, enough, fits, taken) refl
      | inr free ↦ rw (long, field, enough, fits, free) refl
    ]

recv-none : (port : ℕ) (q : Queues) → recv port q ≡ none
unfolding recv port_index
recv-none port q = elim (Bool-cases q.locked) [
  | inl taken ↦ rw taken refl
  | inr free ↦ rw free refl
]

handle_incoming-short :
    (hdr : Ipv4Header) (bytes : List ℕ) (q : Queues)
    → length bytes < 8
    → handle_incoming hdr bytes q ≡ some q
unfolding handle_incoming
handle_incoming-short hdr bytes q short =
    let b : ltb (length bytes) 8 ≡ true = ground (arith, short) in rw b refl

-- For ports of 16 bits and bytes, `sendto` refuses more than 1492 of them for an IPv4 address; at
-- most so many it hands on as one UDP packet with the checksum 0, from which both ports and the
-- bytes are read back. But the receiver takes the lock of its queues again while it has it: the call
-- that is to put the packet into its queue never returns, nor does a call of `recv`, whatever the
-- port and the queues. What is too short for a header is dropped.
pub handle_incoming-sendto :
    (ip : Ipv4Addr) (dst_port src_port : ℕ) (bytes : List ℕ)
    → dst_port < 2 ^ 16
    → src_port < 2 ^ 16
    → All IsByte bytes
    → (1492 < length bytes → sendto (v4 ip) dst_port src_port bytes ≡ some (none, []))
      × (length bytes ≤ 1492
          → (packet_sent : List ℕ) × (sendto (v4 ip) dst_port src_port bytes
              ≡ some (
                some (length bytes),
                record { dst = ip; protocol = 17; payload = packet_sent } ∷ [],
              ))
            × (checksum packet_sent ≡ 0)
            × ((hdr : Ipv4Header)
                → datagram hdr packet_sent ≡ record {
                  src = v4 hdr.src;
                  src_port = src_port;
                  dst_port = dst_port;
                  payload = bytes;
                })
            × ((hdr : Ipv4Header) (q : Queues) → handle_incoming hdr packet_sent q ≡ none))
      × ((port : ℕ) (q : Queues) → recv port q ≡ none)
      × ((hdr : Ipv4Header) (q : Queues) (short : List ℕ)
          → length short < 8
          → handle_incoming hdr short q ≡ some q)
unfolding sendto
handle_incoming-sendto ip dst_port src_port bytes hd hs are = (
  (λ long. let e : ltb 1500 (length bytes + 8) ≡ true = ground arith in rw e refl),
  (λ short. (
    sent dst_port src_port bytes,
    sends short,
    checksum-checksum 3 (front_of dst_port src_port bytes) bytes refl
        (omega arith, (omega arith, (omega arith, (omega arith, (omega arith, (omega arith, tt))))))
        are (omega arith),
    (λ hdr.
        datagram-packet hdr dst_port src_port (checksum (packet dst_port src_port bytes 0)) bytes hd
          hs short),
    λ hdr q.
        handle_incoming-packet hdr dst_port src_port (checksum (packet dst_port src_port bytes 0))
          bytes q short,
  )),
  recv-none,
  λ hdr q short less. handle_incoming-short hdr short q less,
)
  where
    sends :
        length bytes ≤ 1492
        → sendto (v4 ip) dst_port src_port bytes
          ≡ some (
            some (length bytes),
            record { dst = ip; protocol = 17; payload = sent dst_port src_port bytes } ∷ [],
          )
    sends short =
        let e : ltb 1500 (length bytes + 8) ≡ false = ground arith in
        rw
          (
            e,
            fill_lem dst_port src_port bytes (replicate 1500 0)
                (omega (arith, length-replicate {A = ℕ} 1500 0)),
          )
          refl
