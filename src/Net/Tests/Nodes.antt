-- ===== src/Net/Tests/Nodes.antt =====
-- The theorems on addresses, on the cache of hardware addresses and on connections at concrete
-- states.
use theory_os.Base.{
  ◌+◌, ◌*◌, ◌/◌, ◌^◌, ◌≤◌, ◌<◌, ◌≡◌, ◌≢◌, ◌⊎◌, arith, true, false, none, some, [], ◌∷◌, ◌++◌,
  length, ◌==◌, if◌then◌else◌, replicate, min, max,
}
use Prim.Native.Nat.{bit_and}
use theory_os.Base.Slots.{entry, position, is_free}
use theory_os.Net.Addr.{Ipv4Addr, MacAddr, v4, broadcast_mac, parse_sockaddr_in, write_sockaddr_in}
use theory_os.Net.Addr.Laws.{parse_sockaddr_in-write_sockaddr_in}
use theory_os.Net.Arp.{
  Arp, ArpPacket, handle_incoming, packet_bytes, to_be, lookup, request_packet, reply_packet,
}
use theory_os.Net.Buffer.{PacketBuf, bytes}
use theory_os.Net.Arp.Laws.{answer_bytes, lookup-handle_incoming, handle_incoming-own_packets}
use theory_os.Net.Tcp.{TcpControlBlock, closed, established, syn_sent}
use theory_os.Net.Tcp.Cubic.{on_ack, on_loss, new}
use theory_os.Net.Tcp.Cubic.Laws.{IsWindow, new-IsWindow, least_step, on_ack-on_loss_lem}
use theory_os.Net.Tcp.Segments.{process_segment, has, wrapping_sub}
use theory_os.Net.Tcp.Calls.{Tcp, connect, send}
use theory_os.Net.Tcp.Calls.Laws.{process_segment_lem, connect-send_lem}

abbrev host : Ipv4Addr
host = record { a = 10; b = 0; c = 2; d = 15 }

abbrev peer : Ipv4Addr
peer = record { a = 10; b = 0; c = 2; d = 2 }

parse_sockaddr_in-write_sockaddr_in_example :
    parse_sockaddr_in (write_sockaddr_in host 80 (replicate 16 0)).1 ≡ some (v4 host, 80)
parse_sockaddr_in-write_sockaddr_in_example =
    parse_sockaddr_in-write_sockaddr_in host 80 (replicate 16 0)
      (omega arith, (omega arith, (omega arith, (omega arith, tt)))) (omega arith) (omega arith)

abbrev empty_cache : Arp
empty_cache = record { cache = []; our_ip = host }

-- A request for `host` by another system.
abbrev request : ArpPacket
request = record (request_packet broadcast_mac peer host) { proto_type = to_be 0x0800 }

abbrev our_mac : MacAddr
our_mac = record { m0 = 2; m1 = 0; m2 = 0; m3 = 0; m4 = 0; m5 = 1 }

lookup-handle_incoming_example :
    (request.hw_type ≡ to_be 1
      → request.proto_type ≡ to_be 0x0800
      → (lookup peer (handle_incoming (some our_mac) (packet_bytes request ++ []) empty_cache).0
          ≡ some broadcast_mac)
        × ((ip : Ipv4Addr)
            → peer ≢ ip
            → lookup ip (handle_incoming (some our_mac) (packet_bytes request ++ []) empty_cache).0
              ≡ lookup ip empty_cache)
        × ((mac : MacAddr)
            → some our_mac ≡ some mac
            → to_be request.opcode ≡ 1
            → host ≡ host
            → (frame : PacketBuf) × ((handle_incoming
                  (some our_mac)
                  (packet_bytes request ++ [])
                  empty_cache).1
                ≡ frame ∷ [])
              × (bytes frame ≡ answer_bytes mac host request))
        × ((some our_mac ≡ none) ⊎ ((to_be request.opcode ≢ 1) ⊎ (host ≢ host))
            → (handle_incoming (some our_mac) (packet_bytes request ++ []) empty_cache).1 ≡ []))
    × ((request.hw_type ≢ to_be 1) ⊎ (request.proto_type ≢ to_be 0x0800)
        → handle_incoming (some our_mac) (packet_bytes request ++ []) empty_cache
          ≡ (empty_cache, []))
lookup-handle_incoming_example =
    lookup-handle_incoming (some our_mac) request [] empty_cache
      (record { hw = omega arith; proto = omega arith; op = omega arith })

handle_incoming-own_packets_example :
    (handle_incoming none (packet_bytes (request_packet broadcast_mac peer host)) empty_cache
      ≡ (empty_cache, []))
    × (handle_incoming none
          (packet_bytes (reply_packet broadcast_mac peer host broadcast_mac))
          empty_cache
        ≡ (empty_cache, []))
handle_incoming-own_packets_example =
    handle_incoming-own_packets none broadcast_mac broadcast_mac peer host empty_cache

on_ack-on_loss_lem_example :
    IsWindow (on_ack 1460 (new 80))
    × IsWindow (on_loss (new 80))
    × (min (new 80).snd_wnd ((new 80).cwnd + least_step (new 80)) ≤ (on_ack 1460 (new 80)).cwnd)
    × ((on_loss (new 80)).cwnd ≡ (new 80).mss)
    × ((on_loss (new 80)).ssthresh ≡ max ((new 80).cwnd * 7 / 10) (2 * (new 80).mss))
on_ack-on_loss_lem_example = on_ack-on_loss_lem 1460 (new 80) (new-IsWindow 80)

process_segment_lem_example :
    (has 4 4 ≡ true
      → process_segment (new 80) 4 0 0 [] ≡ some (record (new 80) { state = closed }, []))
    × (has 4 4 ≡ false
        → ((new 80).state ≡ established → process_segment (new 80) 4 0 0 [] ≡ none)
          × ((new 80).state ≡ syn_sent
              → process_segment (new 80) 4 0 0 []
                ≡ (if bit_and 4 18 == 18 then none else some (new 80, [])))
          × ((new 80).state ≢ established
              → (new 80).state ≢ syn_sent
              → process_segment (new 80) 4 0 0 [] ≡ some (new 80, [])))
process_segment_lem_example = process_segment_lem (new 80) 4 0 0 []

abbrev one_connection : Tcp
one_connection = record {
  conns = some (record (new 80) { state = established }) ∷ [];
  next_isn = 7;
}

connect-send_lem_example :
    (position is_free one_connection.conns ≡ none
      → connect (v4 peer) 80 49152 one_connection ≡ some (none, one_connection, []))
    × (position is_free one_connection.conns ≢ none
        → connect (v4 peer) 80 49152 one_connection ≡ none)
    × ((tcb : TcpControlBlock)
        → entry one_connection.conns 0 ≡ some tcb
        → tcb.state ≡ established
        → tcb.tx_sent ≤ length tcb.tx_buffer
        → 0 < 2
        → wrapping_sub tcb.snd_nxt tcb.snd_una + 2 ≤ min tcb.cwnd tcb.snd_wnd
        → min tcb.cwnd tcb.snd_wnd < 2 ^ 32
        → send 5 0 (1 ∷ 2 ∷ []) one_connection ≡ none)
connect-send_lem_example = connect-send_lem (v4 peer) 80 49152 5 0 (1 ∷ 2 ∷ []) one_connection
