-- ===== src/Net/Icmp.antt =====
-- kernel/src/net/icmp.rs: the answer to an echo request, and the request. A call of
-- `ipv4::transmit` shows as its arguments in the list that the operation returns.
pub mod Laws
use theory_os.Base.{
  ℕ, zero, suc, ◌+◌, Option, none, some, List, [], ◌∷◌, ◌++◌, ltb, ◌==◌, if◌then◌else◌, length,
  get_or, take, replicate,
}
use theory_os.Base.Bytes.{u16_to_be_bytes, copy_into}
use theory_os.Mm.Checked.{◌>>=◌}
use theory_os.Net.Addr.{Ipv4Addr}
use theory_os.Net.Checksum.{checksum}
use theory_os.Net.Ipv4.{Ipv4Header, Transmission, ip_proto_icmp}

abbrev pub icmp_echo : ℕ
icmp_echo = 8

abbrev pub icmp_echoreply : ℕ
icmp_echoreply = 0

-- The answer, written into a buffer; none is a panic.
unfoldable pub echo_reply : List ℕ → List ℕ → Option (List ℕ)
echo_reply bytes reply = do
  reply ← copy_into reply 0 bytes
  reply ← copy_into reply 0 (icmp_echoreply ∷ [])
  reply ← copy_into reply 2 (0 ∷ [])
  reply ← copy_into reply 3 (0 ∷ [])
  reply ← copy_into reply 2 (u16_to_be_bytes (checksum (take (length bytes) reply)))
  some (take (length bytes) reply)

unfoldable pub handle_incoming : Ipv4Header → List ℕ → Option (List Transmission)
unfolding echo_reply
handle_incoming ip bytes =
    if ltb (length bytes) 8
    then some []
    else if get_or bytes 0 0 == icmp_echo
    then (echo_reply bytes (replicate 576 0) >>= λ reply.
        some (record { dst = ip.src; protocol = ip_proto_icmp; payload = reply } ∷ []))
    else some []

-- `n` bytes that count up from `i`.
abbrev pub counting : ℕ → ℕ → List ℕ
counting i zero = []
counting i (suc n) = i ∷ counting (i + 1) n

-- The request before its checksum is stored.
abbrev pub request : List ℕ
request = icmp_echo ∷ 0 ∷ 0 ∷ 0 ∷ 0 ∷ 1 ∷ u16_to_be_bytes 1 ++ counting 8 56

unfoldable pub ping : Ipv4Addr → Option (List Transmission)
ping ip = do
  payload ← copy_into request 2 (u16_to_be_bytes (checksum request))
  some (record { dst = ip; protocol = ip_proto_icmp; payload = payload } ∷ [])
