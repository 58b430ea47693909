-- ===== src/Net/Tcp/Calls.antt =====
-- kernel/src/net/tcp/mod.rs: the table of connections and the operations on it. None is a panic.
pub mod Laws
use theory_os.Base.{
  ℕ, zero, suc, ◌+◌, ◌-◌, ◌*◌, ◌/◌, ◌%◌, ◌^◌, Bool, true, false, not, ◌&&◌, ◌||◌, Option, none,
  some, List, [], ◌∷◌, ◌++◌, ltb, leb, ◌==◌, if◌then◌else◌, length, get_or, set, take, drop, min,
}
use theory_os.Base.Bytes.{u16_from_be_bytes, u32_from_be_bytes}
use theory_os.Base.Slots.{entry, position, holds, is_free}
use theory_os.Mm.Checked.{◌>>=◌}
use theory_os.Net.Addr.{IpAddr, v4, v6, same_addr}
use theory_os.Net.Ipv4.{Ipv4Header}
use theory_os.Net.Tcp.{
  TcpControlBlock, TcpState, listen, syn_sent, syn_received, established, tcp_syn, tcp_ack,
}
use theory_os.Net.Tcp.Cubic.{new, on_loss}
use theory_os.Net.Tcp.Segments.{
  TcpSegment, build_segment, send_syn, send_data, process_segment, wrapping_add, wrapping_sub, has,
}
use Prim.Native.Nat.{bit_or}

-- `CONNECTIONS` and `NEXT_ISN`.
pub record Tcp : Type 0 where
  pub conns : List (Option TcpControlBlock)
  pub next_isn : ℕ

abbrev pub put : ℕ → TcpControlBlock → Tcp → Tcp
put i tcb t = record t { conns = set t.conns i (some tcb) }

abbrev pub is_state : TcpState → TcpState → Bool
is_state listen s = elim s [ listen ↦ true | _ ↦ false ]
is_state established s = elim s [ established ↦ true | _ ↦ false ]
is_state _ s = false

unfoldable pub create_listener : ℕ → Tcp → Option ℕ × Tcp
unfolding position new
create_listener port t = elim (position is_free t.conns) [
  | none ↦ (none, t)
  | some i ↦ (some i, put i (record (new port) { state = listen }) t)
]

abbrev pub connecting : IpAddr → ℕ → ℕ → ℕ → TcpControlBlock
connecting remote remote_port local_port isn = record (new local_port) {
  remote = remote;
  remote_port = remote_port;
  state = syn_sent;
  iss = isn;
  snd_nxt = isn;
  snd_una = isn;
}

-- Inside, none is the answer `None`.
unfoldable pub connect : IpAddr → ℕ → ℕ → Tcp → Option (Option ℕ × Tcp × List TcpSegment)
unfolding position new send_syn
connect remote remote_port local_port t = elim (position is_free t.conns) [
  | none ↦ some (none, t, [])
  | some i ↦ send_syn (connecting remote remote_port local_port t.next_isn) >>= λ seg. some (
    some i,
    put i (connecting remote remote_port local_port t.next_isn)
        (record t { next_isn = wrapping_add t.next_isn 64000 }),
    seg ∷ [],
  )
]

-- An established connection on the port.
abbrev pub accepts : ℕ → TcpControlBlock → Bool
accepts port c = is_state established c.state && (c.local_port == port)

unfoldable pub accept : ℕ → Tcp → Option ℕ
unfolding position
accept listener t = entry t.conns listener >>= λ l. position (holds (accepts l.local_port)) t.conns

-- The bytes copied into a buffer of `room` bytes.
unfoldable pub recv : ℕ → ℕ → Tcp → Option (List ℕ) × Tcp
recv conn room t = elim (entry t.conns conn) [
  | none ↦ (none, t)
  | some tcb ↦ elim tcb.rx_queue [
    | [] ↦ (none, t)
    | front ∷ rest ↦ (some (take room front), put conn (record tcb { rx_queue = rest }) t)
  ]
]

-- Inside, none is `Err(())`.
unfoldable pub send : ℕ → ℕ → List ℕ → Tcp → Option (Option ℕ × Tcp × List TcpSegment)
unfolding send_data
send ticks conn bytes t = elim (entry t.conns conn) [
  | none ↦ some (none, t, [])
  | some tcb ↦
      if not (is_state established tcb.state)
      then some (none, t, [])
      else if ltb (min tcb.cwnd tcb.snd_wnd)
          ((wrapping_sub tcb.snd_nxt tcb.snd_una + length bytes) % 2 ^ 32)
      then some (none, t, [])
      else (send_data ticks (record tcb { tx_buffer = tcb.tx_buffer ++ bytes }) >>= λ (last, segs).
          some (some (length bytes), put conn last t, segs))
]

-- What the scan of the table finds for a segment.
pub data Match : Type 0 where
  nothing : Match
  listener : Match
  connection : ℕ → TcpControlBlock → Match

-- The segment is for this connection.
abbrev pub matches : Ipv4Header → ℕ → TcpControlBlock → Bool
matches ip src_port tcb =
    (tcb.remote_port == src_port)
    && elim tcb.remote [ v4 addr ↦ same_addr addr ip.src | v6 addr ↦ true ]

-- The loop over the slots, from slot `i` on.
unfoldable pub find_match : Ipv4Header → ℕ → ℕ → ℕ → ℕ → List (Option TcpControlBlock) → Match
unfolding same_addr
find_match ip src_port dst_port flags i [] = nothing
find_match ip src_port dst_port flags i (none ∷ slots) =
    find_match ip src_port dst_port flags (suc i) slots
find_match ip src_port dst_port flags i (some tcb ∷ slots) =
    let rest = find_match ip src_port dst_port flags (suc i) slots in
    if not (tcb.local_port == dst_port)
    then rest
    else if is_state listen tcb.state && has flags tcp_syn
    then listener
    else if matches ip src_port tcb
    then connection i tcb
    else rest

-- The connection of a request to a listener, before its state becomes Established.
abbrev pub child : Ipv4Header → ℕ → ℕ → ℕ → Tcp → TcpControlBlock
child ip src_port dst_port seq t = record (new dst_port) {
  remote = v4 ip.src;
  remote_port = src_port;
  state = syn_received;
  iss = wrapping_add t.next_isn 1;
  rcv_nxt = wrapping_add seq 1;
  snd_nxt = wrapping_add (wrapping_add t.next_isn 1) 1;
  snd_una = wrapping_add t.next_isn 1;
}

abbrev pub place : TcpControlBlock → Tcp → Tcp
place tcb t = elim (position is_free t.conns) [ none ↦ t | some i ↦ put i tcb t ]

abbrev pub header_len : List ℕ → ℕ
header_len bytes = get_or bytes 12 0 / 2 ^ 4 * 4

abbrev pub word_at : List ℕ → ℕ → ℕ
word_at b i =
    u32_from_be_bytes (get_or b i 0) (get_or b (i + 1) 0) (get_or b (i + 2) 0) (get_or b (i + 3) 0)

-- A segment with its fields read.
unfoldable pub receive_segment :
    Ipv4Header → ℕ → ℕ → ℕ → ℕ → ℕ → List ℕ → Tcp → Option (Tcp × List TcpSegment)
unfolding find_match build_segment process_segment new position
receive_segment ip src_port dst_port seq ack flags payload t =
    elim (find_match ip src_port dst_port flags 0 t.conns) [
      | nothing ↦ some (t, [])
      | listener ↦
          build_segment (child ip src_port dst_port seq t) (bit_or tcp_syn tcp_ack)
            (child ip src_port dst_port seq t).iss (child ip src_port dst_port seq t).rcv_nxt []
          >>= λ reply. some (
            place (record (child ip src_port dst_port seq t) { state = established }) t,
            record reply { options = 2 ∷ 4 ∷ 5 ∷ 0xb4 ∷ [] } ∷ [],
          )
      | connection i tcb ↦
          process_segment tcb flags seq ack payload >>= λ (tcb', segs). some (put i tcb' t, segs)
    ]

unfoldable pub handle_incoming : Ipv4Header → List ℕ → Tcp → Option (Tcp × List TcpSegment)
unfolding receive_segment
handle_incoming ip bytes t =
    if ltb (length bytes) 20
    then some (t, [])
    else if ltb (length bytes) (header_len bytes)
    then some (t, [])
    else receive_segment ip (u16_from_be_bytes (get_or bytes 0 0) (get_or bytes 1 0))
        (u16_from_be_bytes (get_or bytes 2 0) (get_or bytes 3 0)) (word_at bytes 4)
        (word_at bytes 8) (get_or bytes 13 0) (drop (header_len bytes) bytes) t

-- What `tick` does to one connection.
abbrev pub tick_one : ℕ → TcpControlBlock → Option (TcpControlBlock × List TcpSegment)
tick_one now tcb =
    if is_state established tcb.state && not (tcb.retransmit_at == 0) && leb tcb.retransmit_at now
    then send_data now (record (on_loss tcb) {
      rto_ms = min (tcb.rto_ms * 2) 60000;
      snd_nxt = tcb.snd_una;
      tx_sent = wrapping_sub tcb.snd_una tcb.iss;
    })
    else some (tcb, [])

unfoldable pub tick_slots :
    ℕ → List (Option TcpControlBlock) → Option (List (Option TcpControlBlock) × List TcpSegment)
unfolding send_data on_loss
tick_slots now [] = some ([], [])
tick_slots now (none ∷ slots) = tick_slots now slots >>= λ (rest, segs). some (none ∷ rest, segs)
tick_slots now (some tcb ∷ slots) = tick_one now tcb >>= λ (tcb', segs).
    tick_slots now slots >>= λ (rest, more). some (some tcb' ∷ rest, segs ++ more)

unfoldable pub tick : ℕ → Tcp → Option (Tcp × List TcpSegment)
unfolding tick_slots
tick now t = tick_slots now t.conns >>= λ (conns, segs). some (record t { conns = conns }, segs)
