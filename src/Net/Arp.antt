-- ===== src/Net/Arp.antt =====
-- kernel/src/net/arp.rs: the cache of hardware addresses, requests and answers. The two statics
-- are the fields of `Arp`; the answer of `device::mac` is an argument; a frame handed to
-- `device::send` stands in the list that the operation returns.
pub mod Laws
use theory_os.Base.{
  ℕ, zero, suc, ◌+◌, ◌-◌, ◌*◌, ◌/◌, ◌%◌, Bool, not, ◌&&◌, ◌||◌, Option, none, some, List, [], ◌∷◌,
  ◌++◌, ltb, ◌==◌, if◌then◌else◌, length, get_or, drop,
}
use theory_os.Base.Bytes.{from_le_bytes, to_le_bytes, slice, u16_from_be_bytes}
use theory_os.Net.Addr.{
  Ipv4Addr, MacAddr, octets, bytes_of, same_addr, is_unspecified, broadcast_mac, any, to_u32,
}
use theory_os.Net.Buffer.{PacketBuf, new}
use theory_os.Net.Eth.{ethertype_ipv4, ethertype_arp, mac_at}
use theory_os.Net.Eth
use theory_os.Net.Ipv4.{addr_at}

-- `u16::to_be` and `u16::from_be` on a little-endian machine.
abbrev pub to_be : ℕ → ℕ
to_be v = v % 256 * 256 + v / 256 % 256

abbrev pub arp_hw_eth : ℕ
arp_hw_eth = 1

abbrev pub arp_op_request : ℕ
arp_op_request = 1

abbrev pub arp_op_reply : ℕ
arp_op_reply = 2

-- The packed structure, its words as the machine reads them.
pub record ArpPacket : Type 0 where
  pub hw_type : ℕ
  pub proto_type : ℕ
  pub hw_len : ℕ
  pub proto_len : ℕ
  pub opcode : ℕ
  pub sender_mac : MacAddr
  pub sender_ip : Ipv4Addr
  pub target_mac : MacAddr
  pub target_ip : Ipv4Addr

-- `size_of::<ArpPacket>()`.
abbrev pub arp_packet_size : ℕ
arp_packet_size = 28

-- The cast of a pointer to bytes, and the copy into bytes.
abbrev pub arp_packet : List ℕ → ArpPacket
arp_packet b = record {
  hw_type = from_le_bytes (slice b 0 2);
  proto_type = from_le_bytes (slice b 2 4);
  hw_len = get_or b 4 0;
  proto_len = get_or b 5 0;
  opcode = from_le_bytes (slice b 6 8);
  sender_mac = mac_at b 8;
  sender_ip = addr_at b 14;
  target_mac = mac_at b 18;
  target_ip = addr_at b 24;
}

abbrev pub packet_bytes : ArpPacket → List ℕ
packet_bytes p =
    to_le_bytes 2 p.hw_type
    ++ (to_le_bytes 2 p.proto_type
        ++ (p.hw_len ∷ p.proto_len ∷ to_le_bytes 2 p.opcode
            ++ (octets p.sender_mac
                ++ (bytes_of p.sender_ip ++ (octets p.target_mac ++ bytes_of p.target_ip)))))

abbrev pub Cache : Type 0
Cache = List (Ipv4Addr × MacAddr)

unfoldable pub find : Ipv4Addr → Cache → Option MacAddr
unfolding same_addr
find ip [] = none
find ip ((key, mac) ∷ rest) =
    let found = find ip rest in if same_addr key ip then some mac else found

unfoldable pub insert : Ipv4Addr → MacAddr → Cache → Cache
unfolding same_addr
insert ip mac [] = (ip, mac) ∷ []
insert ip mac ((key, old) ∷ rest) =
    let behind = insert ip mac rest in
    if same_addr key ip then (key, mac) ∷ rest else (key, old) ∷ behind

pub record Arp : Type 0 where
  pub cache : Cache
  pub our_ip : Ipv4Addr

unfoldable pub set_ip : Ipv4Addr → Arp → Arp
set_ip ip s = record s { our_ip = ip }

unfoldable pub lookup : Ipv4Addr → Arp → Option MacAddr
unfolding find
lookup ip s = find ip s.cache

unfoldable pub transmit : Option MacAddr → MacAddr → List ℕ → List PacketBuf
unfolding Eth.build new
transmit none dst payload = []
transmit (some src) dst payload = Eth.build dst src ethertype_arp payload new ∷ []

abbrev pub request_packet : MacAddr → Ipv4Addr → Ipv4Addr → ArpPacket
request_packet our_mac our_ip target = record {
  hw_type = to_be arp_hw_eth;
  proto_type = to_be ethertype_arp;
  hw_len = 6;
  proto_len = 4;
  opcode = to_be arp_op_request;
  sender_mac = our_mac;
  sender_ip = our_ip;
  target_mac = record { m0 = 0; m1 = 0; m2 = 0; m3 = 0; m4 = 0; m5 = 0 };
  target_ip = target;
}

unfoldable pub send_request : Option MacAddr → Arp → Ipv4Addr → List PacketBuf
unfolding transmit
send_request none s target = []
send_request (some our_mac) s target =
    transmit (some our_mac) broadcast_mac (packet_bytes (request_packet our_mac s.our_ip target))

abbrev pub reply_packet : MacAddr → Ipv4Addr → Ipv4Addr → MacAddr → ArpPacket
reply_packet our_mac our_ip target_ip target_mac = record {
  hw_type = to_be arp_hw_eth;
  proto_type = to_be ethertype_arp;
  hw_len = 6;
  proto_len = 4;
  opcode = to_be arp_op_reply;
  sender_mac = our_mac;
  sender_ip = our_ip;
  target_mac = target_mac;
  target_ip = target_ip;
}

unfoldable pub send_reply : Option MacAddr → Arp → Ipv4Addr → MacAddr → List PacketBuf
unfolding transmit
send_reply none s target_ip target_mac = []
send_reply (some our_mac) s target_ip target_mac =
    transmit (some our_mac) target_mac
      (packet_bytes (reply_packet our_mac s.our_ip target_ip target_mac))

unfoldable pub resolve : Option MacAddr → Arp → Ipv4Addr → Option MacAddr × List PacketBuf
unfolding lookup send_request
resolve mac s ip = elim (lookup ip s) [
  | some found ↦ (some found, [])
  | none ↦ (none, send_request mac s ip)
]

-- What a packet in the right format does.
abbrev pub handle_packet : Option MacAddr → ArpPacket → Arp → Arp × List PacketBuf
handle_packet mac arp s =
    let s' : Arp = record s { cache = insert arp.sender_ip arp.sender_mac s.cache } in
    (
      s',
      if (to_be arp.opcode == arp_op_request) && same_addr arp.target_ip s.our_ip
          then send_reply mac s' arp.sender_ip arp.sender_mac
          else [],
    )

unfoldable pub handle_incoming : Option MacAddr → List ℕ → Arp → Arp × List PacketBuf
unfolding insert send_reply same_addr
handle_incoming mac payload s =
    if ltb (length payload) arp_packet_size
    then (s, [])
    else if not ((arp_packet payload).hw_type == to_be arp_hw_eth)
        || not ((arp_packet payload).proto_type == to_be ethertype_ipv4)
    then (s, [])
    else handle_packet mac (arp_packet payload) s

unfoldable pub same_subnet : Ipv4Addr → Ipv4Addr → Bool
same_subnet x y = (x.a == y.a) && (x.b == y.b) && (x.c == y.c)

-- `gateway` is the answer of `dhcp::gateway`.
unfoldable pub route_target : Option Ipv4Addr → Arp → Ipv4Addr → Ipv4Addr
unfolding is_unspecified same_subnet
route_target gateway s ip =
    if is_unspecified s.our_ip
    then ip
    else if same_subnet s.our_ip ip
    then ip
    else elim gateway [ none ↦ ip | some g ↦ g ]

-- The rounds of `resolve_blocking`; `polls` are what `rx_poll` does to the state in each.
unfoldable pub poll_loop : List (Arp → Arp) → Arp → Ipv4Addr → Option MacAddr × Arp
unfolding lookup
poll_loop [] s ip = (none, s)
poll_loop (poll ∷ polls) s ip = elim (lookup ip (poll s)) [
  | some mac ↦ (some mac, poll s)
  | none ↦ poll_loop polls (poll s) ip
]

-- `polls` has 20,000 entries.
unfoldable pub resolve_blocking :
    Option MacAddr → List (Arp → Arp) → Arp → Ipv4Addr → Option MacAddr × Arp × List PacketBuf
unfolding lookup send_request poll_loop
resolve_blocking mac polls s ip = elim (lookup ip s) [
  | some found ↦ (some found, s, [])
  | none ↦ let (found, s') = poll_loop polls s ip in (found, s', send_request mac s ip)
]

unfoldable pub eth_dst_for :
    Option MacAddr → Option Ipv4Addr → List (Arp → Arp) → Arp → Ipv4Addr → MacAddr
unfolding resolve_blocking route_target to_u32
eth_dst_for mac gateway polls s ip =
    if to_u32 ip == 0xffff_ffff
    then broadcast_mac
    else elim (resolve_blocking mac polls s (route_target gateway s ip)).0 [
      | none ↦ broadcast_mac
      | some found ↦ found
    ]
