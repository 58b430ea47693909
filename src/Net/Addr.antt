-- ===== src/Net/Addr.antt =====
-- kernel/src/net/addr.rs: the addresses, and their form in user memory.
pub mod Laws
use theory_os.Base.{
  ℕ, zero, suc, ◌+◌, ◌*◌, ◌/◌, ◌%◌, ◌^◌, Bool, ◌&&◌, Option, none, some, List, [], ◌∷◌, ◌++◌, ltb,
  ◌==◌, if◌then◌else◌, length, take, drop, replicate,
}
use theory_os.Base.Bytes.{u32_from_be_bytes, from_le_bytes, to_le_bytes, slice}

-- `[u8; 6]`.
pub record MacAddr : Type 0 where
  pub m0 : ℕ
  pub m1 : ℕ
  pub m2 : ℕ
  pub m3 : ℕ
  pub m4 : ℕ
  pub m5 : ℕ

abbrev pub octets : MacAddr → List ℕ
octets m = m.m0 ∷ m.m1 ∷ m.m2 ∷ m.m3 ∷ m.m4 ∷ m.m5 ∷ []

abbrev pub broadcast_mac : MacAddr
broadcast_mac = record { m0 = 0xff; m1 = 0xff; m2 = 0xff; m3 = 0xff; m4 = 0xff; m5 = 0xff }

unfoldable pub is_broadcast : MacAddr → Bool
is_broadcast m =
    (m.m0 == 0xff)
    && (m.m1 == 0xff)
    && (m.m2 == 0xff)
    && (m.m3 == 0xff)
    && (m.m4 == 0xff)
    && (m.m5 == 0xff)

-- `[u8; 4]`.
pub record Ipv4Addr : Type 0 where
  pub a : ℕ
  pub b : ℕ
  pub c : ℕ
  pub d : ℕ

abbrev pub bytes_of : Ipv4Addr → List ℕ
bytes_of ip = ip.a ∷ ip.b ∷ ip.c ∷ ip.d ∷ []

abbrev pub any : Ipv4Addr
any = record { a = 0; b = 0; c = 0; d = 0 }

abbrev pub broadcast : Ipv4Addr
broadcast = record { a = 255; b = 255; c = 255; d = 255 }

unfoldable pub from_u32 : ℕ → Ipv4Addr
from_u32 v = record { a = v / 2 ^ 24 % 256; b = v / 2 ^ 16 % 256; c = v / 2 ^ 8 % 256; d = v % 256 }

unfoldable pub to_u32 : Ipv4Addr → ℕ
to_u32 ip = u32_from_be_bytes ip.a ip.b ip.c ip.d

-- The derived `==`.
unfoldable pub same_addr : Ipv4Addr → Ipv4Addr → Bool
same_addr x y = (x.a == y.a) && (x.b == y.b) && (x.c == y.c) && (x.d == y.d)

unfoldable pub is_unspecified : Ipv4Addr → Bool
unfolding same_addr
is_unspecified ip = same_addr ip any

-- `V6` holds its sixteen bytes.
pub data IpAddr : Type 0 where
  v4 : Ipv4Addr → IpAddr
  v6 : List ℕ → IpAddr

abbrev pub af_inet : ℕ
af_inet = 2

-- `size_of::<SockAddrIn>()`.
abbrev pub sock_addr_in_size : ℕ
sock_addr_in_size = 16

-- The fields of `SockAddrIn` are read in the byte order of the machine.
unfoldable pub parse_sockaddr_in : List ℕ → Option (IpAddr × ℕ)
unfolding from_u32
parse_sockaddr_in buf =
    if ltb (length buf) sock_addr_in_size
    then none
    else if from_le_bytes (slice buf 0 2) == af_inet
    then some (v4 (from_u32 (from_le_bytes (slice buf 4 8))), from_le_bytes (slice buf 2 4))
    else none

-- The count returned and the buffer.
unfoldable pub write_sockaddr_in : Ipv4Addr → ℕ → List ℕ → ℕ × List ℕ
unfolding to_u32
write_sockaddr_in addr port buf = if ltb (length buf) sock_addr_in_size then (0, buf) else (
  sock_addr_in_size,
  to_le_bytes 2 af_inet
      ++ (to_le_bytes 2 port
          ++ (to_le_bytes 4 (to_u32 addr) ++ (replicate 8 0 ++ drop sock_addr_in_size buf))),
)
