-- ===== src/Net/Udp.antt =====
-- kernel/src/net/udp.rs: datagrams and their queues behind a spin lock. A thread that takes the lock
-- while it is taken spins without end, which is none for the operations on the queues. A call of
-- `ipv4::transmit` shows as its arguments in the list that the operation returns.
pub mod Laws
use theory_os.Base.{
  ℕ, ◌+◌, ◌-◌, ◌*◌, ◌/◌, ◌%◌, ◌^◌, Bool, true, false, ◌||◌, Option, none, some, List, [], ◌∷◌, ◌++◌,
  ltb, if◌then◌else◌, length, get_or, set, take, replicate,
}
use theory_os.Base.Bytes.{u16_from_be_bytes, u16_to_be_bytes, slice, copy_into}
use theory_os.Mm.Checked.{◌>>=◌}
use theory_os.Net.Addr.{Ipv4Addr, IpAddr, v4, v6}
use theory_os.Net.Checksum.{checksum}
use theory_os.Net.Ipv4.{Ipv4Header, Transmission, ip_proto_udp}

pub record UdpDatagram : Type 0 where
  pub src : IpAddr
  pub src_port : ℕ
  pub dst_port : ℕ
  pub payload : List ℕ

-- `RX_QUEUES`: 64 queues, the front of each first, and the lock.
pub record Queues : Type 0 where
  pub queues : List (List UdpDatagram)
  pub locked : Bool

abbrev pub initial : Queues
initial = record { queues = replicate 64 []; locked = false }

abbrev pub lock : Queues → Option Queues
lock q = if q.locked then none else some (record q { locked = true })

abbrev pub unlock : Queues → Queues
unlock q = record q { locked = false }

-- The lock is taken for the number of queues.
unfoldable pub port_index : ℕ → Queues → Option ℕ
port_index port q = lock q >>= λ held. some (port % length held.queues)

abbrev pub pop_front : ℕ → Queues → Option UdpDatagram × Queues
pop_front i q = elim (get_or q.queues i []) [
  | [] ↦ (none, q)
  | dg ∷ rest ↦ (some dg, record q { queues = set q.queues i rest })
]

-- `RX_QUEUES.lock()[port_index(port)].pop_front()`: the index is computed under the lock.
unfoldable pub recv : ℕ → Queues → Option (Option UdpDatagram × Queues)
unfolding port_index
recv port q = do
  held ← lock q
  i ← port_index port held
  some ((pop_front i held).0, unlock (pop_front i held).1)

-- The datagram, written into a buffer.
unfoldable pub fill : ℕ → ℕ → List ℕ → List ℕ → Option (List ℕ)
fill dst_port src_port bytes payload = do
  payload ← copy_into payload 0 (u16_to_be_bytes src_port)
  payload ← copy_into payload 2 (u16_to_be_bytes dst_port)
  payload ← copy_into payload 4 (u16_to_be_bytes (8 + length bytes % 2 ^ 16))
  payload ← copy_into payload 6 (0 ∷ [])
  payload ← copy_into payload 7 (0 ∷ [])
  payload ← copy_into payload 8 bytes
  payload ← copy_into payload 6 (u16_to_be_bytes (checksum (take (8 + length bytes) payload)))
  some (take (8 + length bytes) payload)

-- Inside, none is `Err(())`; outside, it is a panic.
unfoldable pub sendto : IpAddr → ℕ → ℕ → List ℕ → Option (Option ℕ × List Transmission)
unfolding fill
sendto (v6 ip) dst_port src_port bytes = some (none, [])
sendto (v4 ip) dst_port src_port bytes =
    if ltb 1500 (length bytes + 8)
    then some (none, [])
    else fill dst_port src_port bytes (replicate 1500 0) >>= λ datagram.
        some (
          some (length bytes),
          record { dst = ip; protocol = ip_proto_udp; payload = datagram } ∷ [],
        )

abbrev pub length_field : List ℕ → ℕ
length_field bytes = u16_from_be_bytes (get_or bytes 4 0) (get_or bytes 5 0)

abbrev pub datagram : Ipv4Header → List ℕ → UdpDatagram
datagram ip bytes = record {
  src = v4 ip.src;
  src_port = u16_from_be_bytes (get_or bytes 0 0) (get_or bytes 1 0);
  dst_port = u16_from_be_bytes (get_or bytes 2 0) (get_or bytes 3 0);
  payload = slice bytes 8 (length_field bytes);
}

abbrev pub push_back : UdpDatagram → ℕ → Queues → Queues
push_back dg i q = record q { queues = set q.queues i (get_or q.queues i [] ++ (dg ∷ [])) }

-- `RX_QUEUES.lock()[port_index(dst_port)].push_back(dg)` in the same way.
unfoldable pub handle_incoming : Ipv4Header → List ℕ → Queues → Option Queues
unfolding port_index
handle_incoming ip bytes q =
    if ltb (length bytes) 8
    then some q
    else if ltb (length_field bytes) 8 || ltb (length bytes) (length_field bytes)
    then some q
    else do
      held ← lock q
      i ← port_index (datagram ip bytes).dst_port held
      some (unlock (push_back (datagram ip bytes) i held))
