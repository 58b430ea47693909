-- ===== src/Net/Eth.antt =====
-- kernel/src/net/eth.rs: Ethernet frames.
pub mod Laws
use theory_os.Base.{
  ℕ, Option, none, some, List, [], ◌∷◌, ltb, ◌==◌, if◌then◌else◌, length, get_or, drop,
}
use theory_os.Base.Bytes.{u16_from_be_bytes, u16_to_be_bytes}
use theory_os.Net.Addr.{MacAddr, octets}
use theory_os.Net.Buffer.{PacketBuf, clear, bytes, extend_from_slice}

abbrev pub ethertype_ipv4 : ℕ
ethertype_ipv4 = 0x0800

abbrev pub ethertype_arp : ℕ
ethertype_arp = 0x0806

abbrev pub ethertype_ipv6 : ℕ
ethertype_ipv6 = 0x86dd

abbrev pub eth_hdr_len : ℕ
eth_hdr_len = 14

pub record EthHeader : Type 0 where
  pub dst : MacAddr
  pub src : MacAddr
  pub ethertype : ℕ

-- The six bytes from `i` on.
abbrev pub mac_at : List ℕ → ℕ → MacAddr
mac_at b i = record {
  m0 = get_or (drop i b) 0 0;
  m1 = get_or (drop i b) 1 0;
  m2 = get_or (drop i b) 2 0;
  m3 = get_or (drop i b) 3 0;
  m4 = get_or (drop i b) 4 0;
  m5 = get_or (drop i b) 5 0;
}

unfoldable pub parse : PacketBuf → Option (EthHeader × ℕ)
parse buf =
    if ltb buf.len eth_hdr_len
    then none
    else some (
      record {
        dst = mac_at (bytes buf) 0;
        src = mac_at (bytes buf) 6;
        ethertype = u16_from_be_bytes (get_or (bytes buf) 12 0) (get_or (bytes buf) 13 0);
      },
      eth_hdr_len,
    )

-- The answers of `extend_from_slice` are not looked at.
unfoldable pub build : MacAddr → MacAddr → ℕ → List ℕ → PacketBuf → PacketBuf
unfolding clear extend_from_slice
build dst src ethertype payload out =
    let out1 = (extend_from_slice (octets dst) (clear out)).1 in
    let out2 = (extend_from_slice (octets src) out1).1 in
    let out3 = (extend_from_slice (u16_to_be_bytes ethertype) out2).1 in
    (extend_from_slice payload out3).1

-- The handler that a frame goes to, with its arguments.
pub data Handler : Type 0 where
  nobody : Handler
  arp : EthHeader → List ℕ → Handler
  ipv4 : EthHeader → List ℕ → Handler
  ipv6 : EthHeader → List ℕ → Handler

abbrev pub handler : EthHeader → List ℕ → Handler
handler hdr payload =
    if hdr.ethertype == ethertype_arp
    then arp hdr payload
    else if hdr.ethertype == ethertype_ipv4
    then ipv4 hdr payload
    else if hdr.ethertype == ethertype_ipv6
    then ipv6 hdr payload
    else nobody

unfoldable pub dispatch : PacketBuf → Handler
unfolding parse
dispatch buf = elim (parse buf) [
  | none ↦ nobody
  | some (hdr, offset) ↦ handler hdr (drop offset (bytes buf))
]
