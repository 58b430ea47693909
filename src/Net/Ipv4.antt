-- ===== src/Net/Ipv4.antt =====
-- kernel/src/net/ipv4.rs: headers, dispatch and transmission; the checksum is in Net/Checksum.
pub mod Laws
use theory_os.Base.{
  ℕ, ◌+◌, ◌-◌, ◌*◌, ◌/◌, ◌%◌, ◌^◌, Bool, not, ◌&&◌, ◌||◌, Option, none, some, List, [], ◌∷◌, ltb,
  ◌==◌, if◌then◌else◌, length, get_or, take, drop, replicate, min,
}
use Prim.Native.Nat.{bit_and}
use theory_os.Base.Bytes.{u16_from_be_bytes, u16_to_be_bytes, slice, copy_into}
use theory_os.Mm.Checked.{◌>>=◌}
use theory_os.Net.Addr.{Ipv4Addr, MacAddr, bytes_of, broadcast, same_addr}
use theory_os.Net.Buffer.{PacketBuf}
use theory_os.Net.Buffer
use theory_os.Net.Checksum.{checksum}
use theory_os.Net.Eth
use theory_os.Net.Eth.{ethertype_ipv4}

abbrev pub ip_proto_icmp : ℕ
ip_proto_icmp = 1

abbrev pub ip_proto_tcp : ℕ
ip_proto_tcp = 6

abbrev pub ip_proto_udp : ℕ
ip_proto_udp = 17

pub record Ipv4Header : Type 0 where
  pub src : Ipv4Addr
  pub dst : Ipv4Addr
  pub protocol : ℕ
  pub ttl : ℕ
  pub total_len : ℕ
  pub header_len : ℕ

-- The four bytes from `i` on.
abbrev pub addr_at : List ℕ → ℕ → Ipv4Addr
addr_at b i = record {
  a = get_or (drop i b) 0 0;
  b = get_or (drop i b) 1 0;
  c = get_or (drop i b) 2 0;
  d = get_or (drop i b) 3 0;
}

-- `(ver_ihl & 0x0F) as usize * 4`.
abbrev pub ihl : List ℕ → ℕ
ihl bytes = bit_and (get_or bytes 0 0) 0x0f * 4

abbrev pub stored_checksum : List ℕ → ℕ
stored_checksum bytes = u16_from_be_bytes (get_or bytes 10 0) (get_or bytes 11 0)

-- `hdr_copy`, the header with the checksum zeroed, is made and never read.
unfoldable pub parse : List ℕ → Option (Ipv4Header × ℕ)
parse bytes =
    if ltb (length bytes) 20
    then none
    else if not (get_or bytes 0 0 / 2 ^ 4 == 4)
    then none
    else if ltb (length bytes) (ihl bytes)
    then none
    else if not (stored_checksum bytes == 0)
        && not (checksum (take (ihl bytes) bytes) == stored_checksum bytes)
    then none
    else some (
      record {
        src = addr_at bytes 12;
        dst = addr_at bytes 16;
        protocol = get_or bytes 9 0;
        ttl = get_or bytes 8 0;
        total_len = u16_from_be_bytes (get_or bytes 2 0) (get_or bytes 3 0);
        header_len = ihl bytes;
      },
      ihl bytes,
    )

-- The writes in their order; each panics out of range.
unfoldable pub build : Ipv4Addr → Ipv4Addr → ℕ → List ℕ → List ℕ → Option (ℕ × List ℕ)
build src dst protocol payload out = do
  let total : ℕ = 20 + length payload
  out ← copy_into out 0 (0x45 ∷ [])
  out ← copy_into out 1 (0 ∷ [])
  out ← copy_into out 2 (u16_to_be_bytes total)
  out ← copy_into out 4 (0 ∷ 0 ∷ [])
  out ← copy_into out 6 (0x40 ∷ [])
  out ← copy_into out 7 (0 ∷ [])
  out ← copy_into out 8 (64 ∷ [])
  out ← copy_into out 9 (protocol ∷ [])
  out ← copy_into out 10 (0 ∷ [])
  out ← copy_into out 11 (0 ∷ [])
  out ← copy_into out 12 (bytes_of src)
  out ← copy_into out 16 (bytes_of dst)
  out ← copy_into out 10 (u16_to_be_bytes (checksum (take 20 out)))
  out ← copy_into out 20 payload
  some (total, out)

-- The handler that a packet goes to, with its arguments.
pub data Handler : Type 0 where
  nobody : Handler
  icmp : Ipv4Header → List ℕ → Handler
  udp : Ipv4Header → List ℕ → Handler
  tcp : Ipv4Header → List ℕ → Handler

abbrev pub handler : Ipv4Header → List ℕ → Handler
handler hdr bytes =
    if hdr.protocol == ip_proto_icmp
    then icmp hdr bytes
    else if hdr.protocol == ip_proto_udp
    then udp hdr bytes
    else if hdr.protocol == ip_proto_tcp
    then tcp hdr bytes
    else nobody

-- The slice of the payload panics where its end lies before its start.
unfoldable pub handle_incoming : Ipv4Addr → List ℕ → Option Handler
unfolding parse same_addr
handle_incoming our_ip payload = elim (parse payload) [
  | none ↦ some nobody
  | some (hdr, offset) ↦
      if not (same_addr hdr.dst our_ip) && not (same_addr hdr.dst broadcast)
      then some nobody
      else if ltb (min hdr.total_len (length payload)) offset
      then none
      else some (handler hdr (slice payload offset (min hdr.total_len (length payload))))
]

-- The arguments of a call of `transmit`.
pub record Transmission : Type 0 where
  pub dst : Ipv4Addr
  pub protocol : ℕ
  pub payload : List ℕ

-- `transmit` from the address `our_ip`, with the answers of `arp::eth_dst_for` and of
-- `device::mac`: the frame handed to `device::send`, if there is one.
unfoldable pub transmit :
    Ipv4Addr → MacAddr → Option MacAddr → Ipv4Addr → ℕ → List ℕ → Option (Option PacketBuf)
unfolding build Eth.build Buffer.new
transmit our_ip dst_mac src_mac dst protocol payload = do
  (ip_len, ip_buf) ← build our_ip dst protocol payload (replicate 1500 0)
  elim src_mac [
    | none ↦ some none
    | some mac ↦ some (some (Eth.build dst_mac mac ethertype_ipv4 (take ip_len ip_buf) Buffer.new))
  ]
