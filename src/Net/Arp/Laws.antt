-- ===== src/Net/Arp/Laws.antt =====
-- What a packet teaches the cache, and what the kernel's own packets do.
use theory_os.Base.{
  ℕ, ◌^◌, ◌<◌, ◌≡◌, ◌≢◌, ◌⊎◌, refl, sym, ap, ◌∙◌, Bool, true, false, none, not, ◌||◌, Option, some,
  List, [], ◌∷◌, ◌++◌, arith, length, ltb, ◌==◌, if◌then◌else◌, Bool-cases, inl, inr,
}
use theory_os.Base.Bytes.{from_le_bytes, to_le_bytes}
use theory_os.Net.Addr.{Ipv4Addr, MacAddr, same_addr, octets, bytes_of}
use theory_os.Net.Addr.Laws.{same_addr_sound, same_addr_self}
use theory_os.Net.Buffer.{PacketBuf, bytes, new}
use theory_os.Net.Buffer.Laws.{new-IsValid}
use theory_os.Net.Eth.{build}
use theory_os.Net.Eth.Laws.{bytes-build}
use theory_os.Net.Arp.{
  Arp, ArpPacket, Cache, arp_packet, packet_bytes, to_be, find, insert, lookup, request_packet,
  reply_packet, handle_packet, handle_incoming, send_reply, transmit,
}

find-insert_self :
    (ip : Ipv4Addr) (mac : MacAddr) (c : Cache) → find ip (insert ip mac c) ≡ some mac
unfolding find insert
find-insert_self ip mac [] = rw (same_addr_self ip) refl
find-insert_self ip mac ((key, old) ∷ rest) = elim (Bool-cases (same_addr key ip)) [
  | inl same ↦ rw (same, same) refl
  | inr other ↦ rw (other, other) (find-insert_self ip mac rest)
]

find-insert_ne :
    (ip other : Ipv4Addr) (mac : MacAddr) (c : Cache)
    → ip ≢ other
    → find other (insert ip mac c) ≡ find other c
unfolding find insert
find-insert_ne ip other mac [] ne = elim (Bool-cases (same_addr ip other)) [
  | inl same ↦ absurd (ne (same_addr_sound ip other same))
  | inr differ ↦ rw differ refl
]
find-insert_ne ip other mac ((key, old) ∷ rest) ne = elim (Bool-cases (same_addr key ip)) [
  | inl same ↦ elim (Bool-cases (same_addr key other)) [
    | inl both ↦ absurd (ne (sym (same_addr_sound key ip same) ∙ same_addr_sound key other both))
    | inr differ ↦ rw (same, differ) refl
  ]
  | inr differ ↦
      rw differ (
        ap (λ f. if same_addr key other then some old else f) (find-insert_ne ip other mac rest ne))
]

-- The words of a packet are words of 16 bits.
pub record Fits (p : ArpPacket) : Type 0 where
  pub hw : p.hw_type < 2 ^ 16
  pub proto : p.proto_type < 2 ^ 16
  pub op : p.opcode < 2 ^ 16

word : (v : ℕ) → v < 2 ^ 16 → from_le_bytes (to_le_bytes 2 v) ≡ v
word v h = omega arith

-- The bytes of a packet, and whatever follows them, are read back.
arp_packet-packet_bytes :
    (p : ArpPacket) (rest : List ℕ) → Fits p → arp_packet (packet_bytes p ++ rest) ≡ p
arp_packet-packet_bytes p rest f i = record {
  hw_type = word p.hw_type f.hw i;
  proto_type = word p.proto_type f.proto i;
  hw_len = p.hw_len;
  proto_len = p.proto_len;
  opcode = word p.opcode f.op i;
  sender_mac = p.sender_mac;
  sender_ip = p.sender_ip;
  target_mac = p.target_mac;
  target_ip = p.target_ip;
}

abbrev decide : Option MacAddr → Arp → ArpPacket → Arp × List PacketBuf
decide mac s p =
    if not (p.hw_type == to_be 1) || not (p.proto_type == to_be 0x0800)
    then (s, [])
    else handle_packet mac p s

handle_incoming-packet_bytes :
    (mac : Option MacAddr) (p : ArpPacket) (rest : List ℕ) (s : Arp)
    → Fits p
    → handle_incoming mac (packet_bytes p ++ rest) s ≡ decide mac s p
unfolding handle_incoming
handle_incoming-packet_bytes mac p rest s f =
    let room : ltb (length (packet_bytes p ++ rest)) 28 ≡ false = ground arith in
    rw room (ap (decide mac s) (arp_packet-packet_bytes p rest f))

-- Without a hardware address there is no answer.
answer-none :
    (p : ArpPacket) (s : Arp) (asked : Bool)
    → (if asked then send_reply none s p.sender_ip p.sender_mac else []) ≡ []
unfolding send_reply
answer-none p s true = refl
answer-none p s false = refl

-- The answer as it stands on the wire: a frame to the sender, for ARP, with an answer that names
-- the sender as its target.
abbrev pub answer_bytes : MacAddr → Ipv4Addr → ArpPacket → List ℕ
answer_bytes our_mac our_ip p =
    octets p.sender_mac
    ++ (octets our_mac
        ++ (0x08 ∷ 0x06 ∷ 0 ∷ 1 ∷ 0x08 ∷ 0x06 ∷ 6 ∷ 4 ∷ 0 ∷ 2 ∷ octets our_mac
            ++ (bytes_of our_ip ++ (octets p.sender_mac ++ bytes_of p.sender_ip))))

bytes-send_reply :
    (our_mac : MacAddr) (p : ArpPacket) (s : Arp)
    → (frame : PacketBuf) × (send_reply (some our_mac) s p.sender_ip p.sender_mac ≡ frame ∷ [])
      × (bytes frame ≡ answer_bytes our_mac s.our_ip p)
unfolding send_reply transmit
bytes-send_reply our_mac p s = (
  build p.sender_mac our_mac 0x0806
      (packet_bytes (reply_packet our_mac s.our_ip p.sender_ip p.sender_mac)) new,
  refl,
  (bytes-build p.sender_mac our_mac 0x0806
      (packet_bytes (reply_packet our_mac s.our_ip p.sender_ip p.sender_mac)) new new-IsValid).1,
)

-- A packet for Ethernet and IPv4, its words of 16 bits, puts its sender into the cache and leaves
-- what the cache has of other addresses. If it is a request for our address and the device has a
-- hardware address, one frame answers it, to its sender; if it is not, or the device has none,
-- nothing does. Any other packet changes nothing and is not answered.
pub lookup-handle_incoming :
    (mac : Option MacAddr) (p : ArpPacket) (rest : List ℕ) (s : Arp)
    → Fits p
    → (p.hw_type ≡ to_be 1
        → p.proto_type ≡ to_be 0x0800
        → (lookup p.sender_ip (handle_incoming mac (packet_bytes p ++ rest) s).0
            ≡ some p.sender_mac)
          × ((ip : Ipv4Addr)
              → p.sender_ip ≢ ip
              → lookup ip (handle_incoming mac (packet_bytes p ++ rest) s).0 ≡ lookup ip s)
          × ((our_mac : MacAddr)
              → mac ≡ some our_mac
              → to_be p.opcode ≡ 1
              → p.target_ip ≡ s.our_ip
              → (frame : PacketBuf) × ((handle_incoming mac (packet_bytes p ++ rest) s).1
                  ≡ frame ∷ [])
                × (bytes frame ≡ answer_bytes our_mac s.our_ip p))
          × ((mac ≡ none) ⊎ ((to_be p.opcode ≢ 1) ⊎ (p.target_ip ≢ s.our_ip))
              → (handle_incoming mac (packet_bytes p ++ rest) s).1 ≡ []))
      × ((p.hw_type ≢ to_be 1) ⊎ (p.proto_type ≢ to_be 0x0800)
          → handle_incoming mac (packet_bytes p ++ rest) s ≡ (s, []))
unfolding lookup
lookup-handle_incoming mac p rest s f = (
  λ hw proto.
      let taken : handle_incoming mac (packet_bytes p ++ rest) s ≡ handle_packet mac p s =
        handle_incoming-packet_bytes mac p rest s f ∙ rw (hw, proto) refl in
      rw taken (
        find-insert_self p.sender_ip p.sender_mac s.cache,
        (λ ip ne. find-insert_ne p.sender_ip ip p.sender_mac s.cache ne),
        (λ our_mac is request ours.
            let b1 : (to_be p.opcode == 1) ≡ true = ground (arith, request) in
            let b2 : same_addr p.target_ip s.our_ip ≡ true =
              ap (λ x. same_addr x s.our_ip) ours ∙ same_addr_self s.our_ip in
            rw (is, b1, b2)
              (bytes-send_reply our_mac p
                (record s { cache = insert p.sender_ip p.sender_mac s.cache }))),
        λ why. elim why [
          | inl no_mac ↦ rw no_mac (answer-none p _ _)
          | inr (inl other) ↦
              (let b : (to_be p.opcode == 1) ≡ false = ground (arith, other) in rw b refl)
          | inr (inr other) ↦
              (let b : same_addr p.target_ip s.our_ip ≡ false =
                  elim (Bool-cases (same_addr p.target_ip s.our_ip)) [
                    | inl same ↦ absurd (other (same_addr_sound p.target_ip s.our_ip same))
                    | inr differ ↦ differ
                  ] in
                elim (Bool-cases (to_be p.opcode == 1)) [
                  | inl request ↦ rw (request, b) refl
                  | inr else_ ↦ rw else_ refl
                ])
        ],
      ),
  λ bad. handle_incoming-packet_bytes mac p rest s f ∙ elim bad [
    | inl ne ↦ (let e : (p.hw_type == to_be 1) ≡ false = ground (arith, ne) in rw e refl)
    | inr ne ↦
        (let e : (p.proto_type == to_be 0x0800) ≡ false = ground (arith, ne) in
          elim (Bool-cases (p.hw_type == to_be 1)) [
            | inl same ↦ rw (e, same) refl
            | inr differ ↦ rw (e, differ) refl
          ])
  ],
)

-- The kernel takes neither its own requests nor its own answers: both name ARP where the protocol
-- of the addresses belongs.
pub handle_incoming-own_packets :
    (mac : Option MacAddr) (our_mac target_mac : MacAddr) (our_ip target : Ipv4Addr) (s : Arp)
    → (handle_incoming mac (packet_bytes (request_packet our_mac our_ip target)) s ≡ (s, []))
      × (handle_incoming mac (packet_bytes (reply_packet our_mac our_ip target target_mac)) s
          ≡ (s, []))
unfolding handle_incoming
handle_incoming-own_packets mac our_mac target_mac our_ip target s = (refl, refl)
