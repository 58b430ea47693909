-- ===== src/Net/Tests.antt =====
-- Runs of the network code, and its theorems at concrete packets.
mod Nodes
use theory_os.Base.{
  ℕ, zero, suc, ◌+◌, ◌-◌, ◌*◌, ◌/◌, ◌%◌, ◌^◌, ◌≤◌, ◌<◌, ◌≡◌, ◌≢◌, ◌⊎◌, refl, arith, Bool, true,
  false, not, ◌&&◌, Option, none, some, List, [], ◌∷◌, ◌++◌, length, ltb, ◌==◌, if◌then◌else◌, take,
  replicate, get_or,
}
use theory_os.Base.Bytes.{u16_to_be_bytes}
use theory_os.Base.Slots.{position, is_free}
use theory_os.Net.Addr.{Ipv4Addr, MacAddr, v4, same_addr, broadcast_mac}
use theory_os.Net.Addr.Laws.{IsIpv4}
use theory_os.Net.Buffer.{new, bytes, extend_from_slice}
use theory_os.Net.Buffer.Laws.{new-IsValid}
use theory_os.Net.Checksum.{checksum, fold_carries}
use theory_os.Net.Checksum.Laws.{checksum-checksum, fold_carries_lem, residue}
use theory_os.Net.Eth.{build, dispatch, arp, ipv4, ipv6, nobody}
use theory_os.Net.Eth.Laws.{dispatch-build}
use theory_os.Net.Ipv4.{Ipv4Header, Transmission, stored_checksum}
use theory_os.Net.Ipv4.Laws.{parse-build, built_header}
use theory_os.Net.Icmp
use theory_os.Net.Icmp.Laws.{handle_incoming-echo, answer}
use theory_os.Net.Udp.{Queues, recv, sendto}
use theory_os.Net.Udp
use theory_os.Net.Udp.Laws.{handle_incoming-sendto}
use theory_os.Net.Ipv4

abbrev host : Ipv4Addr
host = record { a = 10; b = 0; c = 2; d = 15 }

abbrev peer : Ipv4Addr
peer = record { a = 10; b = 0; c = 2; d = 2 }

host-IsIpv4 : IsIpv4 host
host-IsIpv4 = (omega arith, (omega arith, (omega arith, (omega arith, tt))))

peer-IsIpv4 : IsIpv4 peer
peer-IsIpv4 = (omega arith, (omega arith, (omega arith, (omega arith, tt))))

-- The example of RFC 1071.
checksum_run : checksum (0x00 ∷ 0x01 ∷ 0xf2 ∷ 0x03 ∷ 0xf4 ∷ 0xf5 ∷ 0xf6 ∷ 0xf7 ∷ []) ≡ 0x220d
unfolding checksum
checksum_run = refl

-- A packet that names a total length below that of its header, with its checksum left out.
abbrev short_packet : List ℕ
short_packet =
    0x45 ∷ 0 ∷ 0 ∷ 0 ∷ 0 ∷ 0 ∷ 0 ∷ 0 ∷ 64 ∷ 17 ∷ 0 ∷ 0 ∷ 10 ∷ 0 ∷ 2 ∷ 2 ∷ 10 ∷ 0 ∷ 2 ∷ 15 ∷ []

-- Taking its payload panics.
short_packet_run : Ipv4.handle_incoming host short_packet ≡ none
unfolding Ipv4.handle_incoming
short_packet_run = refl

-- A datagram of 1481 bytes makes a packet longer than the buffer of `transmit`.
transmit_run :
    Ipv4.transmit host broadcast_mac (some broadcast_mac) peer 17 (replicate 1481 0) ≡ none
unfolding Ipv4.transmit
transmit_run = refl

checksum-checksum_example :
    checksum
      ((0x45 ∷ 0 ∷ []) ++ (u16_to_be_bytes (checksum (0x45 ∷ 0 ∷ 0 ∷ 0 ∷ 7 ∷ [])) ++ (7 ∷ [])))
    ≡ 0
checksum-checksum_example =
    checksum-checksum 1 (0x45 ∷ 0 ∷ []) (7 ∷ []) refl (omega arith, (omega arith, tt))
      (omega arith, tt) (omega arith)

fold_carries_lem_example : fold_carries 2 0x0002_fffe ≡ residue 0x0002_fffe
fold_carries_lem_example = fold_carries_lem 0 0x0002_fffe (omega arith)

dispatch-build_example :
    (◌≡◌ {A = ℕ} 0x0800 0x0806
      → dispatch (build broadcast_mac broadcast_mac 0x0800 (1 ∷ 2 ∷ []) new)
        ≡ arp
            (record { dst = broadcast_mac; src = broadcast_mac; ethertype = 0x0806 })
            (1 ∷ 2 ∷ []))
    × (◌≡◌ {A = ℕ} 0x0800 0x0800
        → dispatch (build broadcast_mac broadcast_mac 0x0800 (1 ∷ 2 ∷ []) new)
          ≡ ipv4
              (record { dst = broadcast_mac; src = broadcast_mac; ethertype = 0x0800 })
              (1 ∷ 2 ∷ []))
    × (◌≡◌ {A = ℕ} 0x0800 0x86dd
        → dispatch (build broadcast_mac broadcast_mac 0x0800 (1 ∷ 2 ∷ []) new)
          ≡ ipv6
              (record { dst = broadcast_mac; src = broadcast_mac; ethertype = 0x86dd })
              (1 ∷ 2 ∷ []))
    × (◌≢◌ {A = ℕ} 0x0800 0x0806
        → ◌≢◌ {A = ℕ} 0x0800 0x0800
        → ◌≢◌ {A = ℕ} 0x0800 0x86dd
        → dispatch (build broadcast_mac broadcast_mac 0x0800 (1 ∷ 2 ∷ []) new) ≡ nobody)
dispatch-build_example =
    dispatch-build broadcast_mac broadcast_mac 0x0800 (1 ∷ 2 ∷ []) (1 ∷ 2 ∷ []) new new-IsValid
      (omega arith) (λ _. refl) (λ long. absurd (omega arith))

parse-build_example :
    (buf : List ℕ) × (Ipv4.build host peer 17 (1 ∷ 2 ∷ []) (replicate 30 0) ≡ some (22, buf))
    × (checksum (take 20 buf) ≡ 0)
    × (Ipv4.parse buf ≡ (
        if stored_checksum buf == 0
        then some (built_header host peer 17 (1 ∷ 2 ∷ []), 20)
        else none))
parse-build_example =
    parse-build host peer 17 (1 ∷ 2 ∷ []) (replicate 30 0) host-IsIpv4 peer-IsIpv4 (omega arith)
      (omega arith) (omega arith)

-- The header of a packet from `peer`.
abbrev from_peer : Ipv4Header
from_peer = record {
  src = peer;
  dst = host;
  protocol = 1;
  ttl = 64;
  total_len = 28;
  header_len = 20;
}

abbrev echo_body : List ℕ
echo_body = 0 ∷ 1 ∷ 0 ∷ 1 ∷ []

handle_incoming-echo_example :
    (length echo_body ≤ 572
      → (Icmp.handle_incoming from_peer (8 ∷ 0 ∷ 0xf7 ∷ 0xfd ∷ echo_body)
          ≡ some (record { dst = peer; protocol = 1; payload = answer 0 echo_body } ∷ []))
        × (checksum (answer 0 echo_body) ≡ 0))
    × (572 < length echo_body
        → Icmp.handle_incoming from_peer (8 ∷ 0 ∷ 0xf7 ∷ 0xfd ∷ echo_body) ≡ none)
handle_incoming-echo_example =
    handle_incoming-echo from_peer 0 0xf7 0xfd echo_body
      (omega arith, (omega arith, (omega arith, (omega arith, (omega arith, tt))))) (omega arith)

handle_incoming-sendto_example :
    (1492 < 2 → sendto (v4 peer) 53 49152 (1 ∷ 2 ∷ []) ≡ some (none, []))
    × (2 ≤ 1492
        → (packet_sent : List ℕ) × (sendto (v4 peer) 53 49152 (1 ∷ 2 ∷ [])
            ≡ some (some 2, record { dst = peer; protocol = 17; payload = packet_sent } ∷ []))
          × (checksum packet_sent ≡ 0)
          × ((hdr : Ipv4Header)
              → Udp.datagram hdr packet_sent ≡ record {
                src = v4 hdr.src;
                src_port = 49152;
                dst_port = 53;
                payload = 1 ∷ 2 ∷ [];
              })
          × ((hdr : Ipv4Header) (q : Queues) → Udp.handle_incoming hdr packet_sent q ≡ none))
    × ((port : ℕ) (q : Queues) → recv port q ≡ none)
    × ((hdr : Ipv4Header) (q : Queues) (short : List ℕ)
        → length short < 8
        → Udp.handle_incoming hdr short q ≡ some q)
handle_incoming-sendto_example =
    handle_incoming-sendto peer 53 49152 (1 ∷ 2 ∷ []) (omega arith) (omega arith)
      (omega arith, (omega arith, tt))
