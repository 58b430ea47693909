-- ===== src/Net/Tcp/Segments.antt =====
-- kernel/src/net/tcp/mod.rs: how segments are built and what an incoming one does to a connection.
use theory_os.Base.{
  ℕ, zero, suc, ◌+◌, ◌-◌, ◌/◌, ◌%◌, ◌^◌, Bool, not, ◌&&◌, Option, none, some, List, [], ◌∷◌, ◌++◌,
  ltb, leb, ◌==◌, ◌||◌, if◌then◌else◌, length, take, drop, replicate, min,
}
use Prim.Native.Nat.{bit_and, bit_or}
use theory_os.Base.Bytes.{u16_to_be_bytes, reaches}
use theory_os.Mm.Checked.{◌>>=◌}
use theory_os.Net.Tcp.{
  TcpControlBlock, TcpState, closed, syn_sent, established, close_wait, tcp_fin, tcp_syn, tcp_rst,
  tcp_psh, tcp_ack,
}
use theory_os.Net.Tcp.Cubic.{on_ack}

-- `buf[start..end].copy_from_slice(bytes)`: a panic out of range, and where the lengths differ.
abbrev pub copy_range : List ℕ → ℕ → ℕ → List ℕ → Option (List ℕ)
copy_range buf start end bytes =
    if reaches end buf && (length bytes == end - start)
    then some (take start buf ++ (bytes ++ drop end buf))
    else none

abbrev pub u32_to_be_bytes : ℕ → List ℕ
u32_to_be_bytes v = v / 2 ^ 24 % 256 ∷ v / 2 ^ 16 % 256 ∷ v / 2 ^ 8 % 256 ∷ v % 256 ∷ []

pub record TcpSegment : Type 0 where
  pub header : List ℕ
  pub options : List ℕ
  pub payload : List ℕ

-- `rcv_wnd` is a word of 32 bits.
unfoldable pub build_segment : TcpControlBlock → ℕ → ℕ → ℕ → List ℕ → Option TcpSegment
build_segment tcb flags seq ack payload = do
  header ← copy_range (replicate 20 0) 0 2 (u16_to_be_bytes tcb.local_port)
  header ← copy_range header 2 4 (u16_to_be_bytes tcb.remote_port)
  header ← copy_range header 4 8 (u32_to_be_bytes seq)
  header ← copy_range header 8 12 (u32_to_be_bytes ack)
  header ← copy_range header 12 13 (0x50 ∷ [])
  header ← copy_range header 13 14 (flags ∷ [])
  header ← copy_range header 14 16 (u32_to_be_bytes tcb.rcv_wnd)
  some (record { header = header; options = []; payload = payload })

abbrev pub mss_option : List ℕ
mss_option = 2 ∷ 4 ∷ 5 ∷ 0xb4 ∷ []

unfoldable pub send_syn : TcpControlBlock → Option TcpSegment
unfolding build_segment
send_syn tcb =
    build_segment tcb tcp_syn tcb.iss 0 [] >>= λ seg. some (record seg { options = mss_option })

-- `a.wrapping_sub(b)` and `a.wrapping_add(b)` on 32 bits.
abbrev pub wrapping_sub : ℕ → ℕ → ℕ
wrapping_sub a b = (a + 2 ^ 32 - b) % 2 ^ 32

abbrev pub wrapping_add : ℕ → ℕ → ℕ
wrapping_add a b = (a + b) % 2 ^ 32

-- How many bytes the windows still admit.
abbrev pub avail : TcpControlBlock → ℕ
avail tcb = min tcb.cwnd tcb.snd_wnd - wrapping_sub tcb.snd_nxt tcb.snd_una

abbrev pub chunk_end : TcpControlBlock → ℕ
chunk_end tcb = min (tcb.tx_sent + avail tcb) (length tcb.tx_buffer)

-- The connection after one round of `send_data`, at the time `ticks`.
abbrev pub advanced : ℕ → TcpControlBlock → TcpControlBlock
advanced ticks tcb = record tcb {
  snd_nxt = wrapping_add tcb.snd_nxt (chunk_end tcb - tcb.tx_sent);
  tx_sent = chunk_end tcb;
  retransmit_at = ticks + tcb.rto_ms;
}

-- The loop of `send_data`, on fuel.
unfoldable pub send_loop : ℕ → ℕ → TcpControlBlock → Option (TcpControlBlock × List TcpSegment)
unfolding build_segment
send_loop zero ticks tcb = some (tcb, [])
send_loop (suc fuel) ticks tcb =
    let rest = send_loop fuel ticks (advanced ticks tcb) in
    if leb (length tcb.tx_buffer) tcb.tx_sent || (avail tcb == 0)
    then some (tcb, [])
    else (build_segment tcb (bit_or tcp_ack tcp_psh) tcb.snd_nxt tcb.rcv_nxt
          (take (chunk_end tcb - tcb.tx_sent) (drop tcb.tx_sent tcb.tx_buffer))
        >>= λ seg. rest >>= λ (last, segs). some (last, seg ∷ segs))

-- Every round that goes on sends at least one byte.
unfoldable pub send_data : ℕ → TcpControlBlock → Option (TcpControlBlock × List TcpSegment)
unfolding send_loop
send_data ticks tcb = send_loop (length tcb.tx_buffer - tcb.tx_sent + 1) ticks tcb

-- The payload of a segment in order.
abbrev pub take_payload : ℕ → List ℕ → TcpControlBlock → TcpControlBlock
take_payload seq payload tcb =
    if not (length payload == 0) && (seq == tcb.rcv_nxt)
    then record tcb {
      rx_queue = tcb.rx_queue ++ (payload ∷ []);
      rcv_nxt = wrapping_add tcb.rcv_nxt (length payload);
    }
    else tcb

abbrev pub has : ℕ → ℕ → Bool
has flags flag = not (bit_and flags flag == 0)

abbrev pub take_ack : ℕ → ℕ → TcpControlBlock → TcpControlBlock
take_ack flags ack tcb =
    if has flags tcp_ack && ltb tcb.snd_una ack
    then on_ack (wrapping_sub ack tcb.snd_una) (record tcb { snd_una = ack })
    else tcb

abbrev pub take_fin : ℕ → TcpControlBlock → TcpControlBlock
take_fin flags tcb = if has flags tcp_fin then record tcb { state = close_wait } else tcb

-- The answer that both arms end with.
abbrev pub acknowledge : TcpControlBlock → Option (TcpControlBlock × List TcpSegment)
acknowledge tcb =
    build_segment tcb tcp_ack tcb.snd_nxt tcb.rcv_nxt [] >>= λ seg. some (tcb, seg ∷ [])

-- The arms of the `match` on the state.
abbrev pub by_state :
    TcpState → TcpControlBlock → ℕ → ℕ → ℕ → List ℕ → Option (TcpControlBlock × List TcpSegment)
by_state syn_sent tcb flags seq ack payload =
    if bit_and flags (bit_or tcp_syn tcp_ack) == bit_or tcp_syn tcp_ack
    then acknowledge
        (record tcb { rcv_nxt = wrapping_add seq 1; snd_una = ack; state = established })
    else some (tcb, [])
by_state established tcb flags seq ack payload =
    acknowledge (take_fin flags (take_ack flags ack (take_payload seq payload tcb)))
by_state _ tcb flags seq ack payload = some (tcb, [])

unfoldable pub process_segment :
    TcpControlBlock → ℕ → ℕ → ℕ → List ℕ → Option (TcpControlBlock × List TcpSegment)
unfolding build_segment on_ack
process_segment tcb flags seq ack payload =
    if has flags tcp_rst
    then some (record tcb { state = closed }, [])
    else by_state tcb.state tcb flags seq ack payload
