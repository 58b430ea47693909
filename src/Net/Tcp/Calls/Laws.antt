-- ===== src/Net/Tcp/Calls/Laws.antt =====
-- Which operations on connections come to an end.
use theory_os.Base.{
  ℕ, suc, ◌+◌, ◌-◌, ◌%◌, ◌^◌, ◌≤◌, ◌<◌, ◌≡◌, ◌≢◌, refl, ap, arith, true, false, none, some, List,
  [], ◌++◌, length, ltb, leb, ◌==◌, if◌then◌else◌, min, inl, inr, length-append, Option-cases,
}
use Prim.Native.Nat.{bit_and}
use theory_os.Base.Slots.{entry, position, is_free}
use theory_os.Net.Addr.{IpAddr}
use theory_os.Net.Tcp.{TcpControlBlock, TcpState, closed, syn_sent, established}
use theory_os.Net.Tcp.Segments.{
  build_segment, send_syn, send_loop, send_data, process_segment, by_state, has, avail,
  wrapping_sub,
}
use theory_os.Net.Tcp.Calls.{Tcp, connect, send, is_state}

-- No segment can be built: the copy of the four bytes of the window into two bytes of the header
-- panics.
build_segment-none :
    (tcb : TcpControlBlock) (flags seq ack : ℕ) (payload : List ℕ)
    → build_segment tcb flags seq ack payload ≡ none
unfolding build_segment
build_segment-none tcb flags seq ack payload = refl

by_state_other :
    (s : TcpState) (tcb : TcpControlBlock) (flags seq ack : ℕ) (payload : List ℕ)
    → s ≢ established
    → s ≢ syn_sent
    → by_state s tcb flags seq ack payload ≡ some (tcb, [])
by_state_other established tcb flags seq ack payload ne ne' = absurd (ne refl)
by_state_other syn_sent tcb flags seq ack payload ne ne' = absurd (ne' refl)
by_state_other _ tcb flags seq ack payload ne ne' = refl

-- A segment with RST closes the connection, whatever its state. One without it panics on an
-- established connection, and on one in SynSent if it has SYN and ACK; in every other case it
-- changes nothing and is not answered.
pub process_segment_lem :
    (tcb : TcpControlBlock) (flags seq ack : ℕ) (payload : List ℕ)
    → (has flags 4 ≡ true
        → process_segment tcb flags seq ack payload ≡ some (record tcb { state = closed }, []))
      × (has flags 4 ≡ false
          → (tcb.state ≡ established → process_segment tcb flags seq ack payload ≡ none)
            × (tcb.state ≡ syn_sent
                → process_segment tcb flags seq ack payload
                  ≡ (if bit_and flags 18 == 18 then none else some (tcb, [])))
            × (tcb.state ≢ established
                → tcb.state ≢ syn_sent
                → process_segment tcb flags seq ack payload ≡ some (tcb, [])))
unfolding process_segment
process_segment_lem tcb flags seq ack payload = (
  λ reset. rw reset refl,
  λ other. (
    λ state. rw other (ap (λ s. by_state s tcb flags seq ack payload) state),
    λ state. rw other (ap (λ s. by_state s tcb flags seq ack payload) state),
    λ ne ne'. rw other (by_state_other tcb.state tcb flags seq ack payload ne ne'),
  ),
)

send_loop-none :
    (fuel ticks : ℕ) (tcb : TcpControlBlock)
    → tcb.tx_sent < length tcb.tx_buffer
    → 0 < avail tcb
    → send_loop (suc fuel) ticks tcb ≡ none
unfolding send_loop
send_loop-none fuel ticks tcb left room =
    let e : leb (length tcb.tx_buffer) tcb.tx_sent ≡ false = ground arith in
    let f : (avail tcb == 0) ≡ false = ground arith in rw (e, f) refl

send_data-none :
    (ticks : ℕ) (tcb : TcpControlBlock)
    → tcb.tx_sent < length tcb.tx_buffer
    → 0 < avail tcb
    → send_data ticks tcb ≡ none
unfolding send_data
send_data-none ticks tcb left room =
    let rounds : length tcb.tx_buffer - tcb.tx_sent + 1 ≡ suc (length tcb.tx_buffer - tcb.tx_sent) =
      omega arith in
    rw rounds (send_loop-none (length tcb.tx_buffer - tcb.tx_sent) ticks tcb left room)

-- `connect` answers that there is no slot if the table is full, and panics otherwise; and `send` of
-- bytes that the windows of an established connection admit panics, where `tx_sent` counts bytes
-- of its buffer.
pub connect-send_lem :
    (remote : IpAddr) (remote_port local_port ticks conn : ℕ) (bytes : List ℕ) (t : Tcp)
    → (position is_free t.conns ≡ none
        → connect remote remote_port local_port t ≡ some (none, t, []))
      × (position is_free t.conns ≢ none → connect remote remote_port local_port t ≡ none)
      × ((tcb : TcpControlBlock)
          → entry t.conns conn ≡ some tcb
          → tcb.state ≡ established
          → tcb.tx_sent ≤ length tcb.tx_buffer
          → 0 < length bytes
          → wrapping_sub tcb.snd_nxt tcb.snd_una + length bytes ≤ min tcb.cwnd tcb.snd_wnd
          → min tcb.cwnd tcb.snd_wnd < 2 ^ 32
          → send ticks conn bytes t ≡ none)
unfolding connect send send_syn
connect-send_lem remote remote_port local_port ticks conn bytes t = (
  λ full. rw (full, connect) refl,
  λ free. elim (Option-cases (position is_free t.conns)) [
    | inl full ↦ absurd (free full)
    | inr (i, found) ↦ rw (found, connect) refl
  ],
  λ tcb held state inside some_bytes room word.
      let open_now : is_state established tcb.state ≡ true = rw state refl in
      let admitted : ltb (min tcb.cwnd tcb.snd_wnd)
            ((wrapping_sub tcb.snd_nxt tcb.snd_una + length bytes) % 2 ^ 32)
          ≡ false =
        ground (arith, room, word) in
      rw
        (
          held,
          open_now,
          admitted,
          send_data-none ticks (record tcb { tx_buffer = tcb.tx_buffer ++ bytes })
              (omega (arith, length-append tcb.tx_buffer bytes)) (omega arith),
          send,
        )
        refl,
)
