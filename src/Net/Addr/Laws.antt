-- ===== src/Net/Addr/Laws.antt =====
-- Addresses and their numbers, and the socket address of user memory.
use theory_os.Base.{
  ℕ, ◌+◌, ◌*◌, ◌^◌, ◌≤◌, ◌<◌, ◌≡◌, Option, none, some, List, [], ◌∷◌, ◌++◌, arith, length, All,
  false, true, ltb, replicate, drop, ◌==◌, if◌then◌else◌,
}
use theory_os.Base.Bytes.{IsByte, from_le_bytes}
use theory_os.Net.Addr.{
  Ipv4Addr, bytes_of, IpAddr, v4, from_u32, to_u32, same_addr, parse_sockaddr_in, write_sockaddr_in,
}

abbrev pub IsIpv4 : Ipv4Addr → Type 0
IsIpv4 ip = All IsByte (bytes_of ip)

pub Ipv4Addr-ext : (x y : Ipv4Addr) → x.a ≡ y.a → x.b ≡ y.b → x.c ≡ y.c → x.d ≡ y.d → x ≡ y
Ipv4Addr-ext x y p q r s i = record { a = p i; b = q i; c = r i; d = s i }

pub same_addr_sound : (x y : Ipv4Addr) → same_addr x y ≡ true → x ≡ y
unfolding same_addr
same_addr_sound x y h =
    Ipv4Addr-ext x y (ground (arith, h)) (ground (arith, h)) (ground (arith, h)) (ground (arith, h))

pub same_addr_self : (x : Ipv4Addr) → same_addr x x ≡ true
unfolding same_addr
same_addr_self x = ground arith

pub from_u32-to_u32 : (ip : Ipv4Addr) → IsIpv4 ip → from_u32 (to_u32 ip) ≡ ip
unfolding from_u32 to_u32
from_u32-to_u32 ip (ha, (hb, (hc, (hd, _)))) =
    Ipv4Addr-ext _ ip (omega arith) (omega arith) (omega arith) (omega arith)

-- The fields of sixteen bytes or more.
parse_sockaddr_in_cells :
    (f g h l p q r s : ℕ) (rest : List ℕ)
    → 8 ≤ length rest
    → parse_sockaddr_in (f ∷ g ∷ h ∷ l ∷ p ∷ q ∷ r ∷ s ∷ rest) ≡ (
        if from_le_bytes (f ∷ g ∷ []) == 2
        then some (v4 (from_u32 (from_le_bytes (p ∷ q ∷ r ∷ s ∷ []))), from_le_bytes (h ∷ l ∷ []))
        else none)
unfolding parse_sockaddr_in
parse_sockaddr_in_cells f g h l p q r s rest room = ground arith

accepted :
    {x y : Ipv4Addr} {p q : ℕ}
    → x ≡ y
    → p ≡ q
    → ◌≡◌ {A = Option (IpAddr × ℕ)} (some (v4 x, p)) (some (v4 y, q))
accepted e f i = some (v4 (e i), f i)

-- What `write_sockaddr_in` stores in a buffer with room for it, `parse_sockaddr_in` reads back.
pub parse_sockaddr_in-write_sockaddr_in :
    (ip : Ipv4Addr) (port : ℕ) (buf : List ℕ)
    → IsIpv4 ip
    → port < 2 ^ 16
    → 16 ≤ length buf
    → parse_sockaddr_in (write_sockaddr_in ip port buf).1 ≡ some (v4 ip, port)
unfolding write_sockaddr_in from_u32 to_u32
parse_sockaddr_in-write_sockaddr_in ip port buf are small room =
    rw (short, parse_sockaddr_in_cells _ _ _ _ _ _ _ _ tail enough)
      (accepted (Ipv4Addr-ext _ ip (omega arith) (omega arith) (omega arith) (omega arith))
        (omega arith))
  where
    short : ltb (length buf) 16 ≡ false
    short = ground arith

    tail : List ℕ
    tail = replicate 8 0 ++ drop 16 buf

    enough : 8 ≤ length tail
    enough = omega arith

-- A socket address as user programs store it, the port and the address with the high byte first,
-- is read with the bytes of both reversed.
pub parse_sockaddr_in-reversed :
    (ip : Ipv4Addr) (high low : ℕ) (rest : List ℕ)
    → IsIpv4 ip
    → high < 256
    → low < 256
    → 8 ≤ length rest
    → parse_sockaddr_in (2 ∷ 0 ∷ high ∷ low ∷ bytes_of ip ++ rest)
      ≡ some (v4 (record { a = ip.d; b = ip.c; c = ip.b; d = ip.a }), low * 256 + high)
unfolding from_u32
parse_sockaddr_in-reversed ip high low rest are hh hl room =
    rw (parse_sockaddr_in_cells _ _ _ _ _ _ _ _ rest room) (
      accepted (Ipv4Addr-ext _ _ (omega arith) (omega arith) (omega arith) (omega arith))
        (omega arith))
