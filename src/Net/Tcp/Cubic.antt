-- ===== src/Net/Tcp/Cubic.antt =====
-- kernel/src/net/tcp/cubic.rs: the congestion window, in 32-bit words.
pub mod Laws
use theory_os.Base.{ℕ, ◌+◌, ◌-◌, ◌*◌, ◌/◌, ◌%◌, ◌^◌, min, max, ltb, if◌then◌else◌, [], List}
use theory_os.Net.Addr.{v4, any}
use theory_os.Net.Tcp.{TcpControlBlock, closed}

abbrev pub beta_num : ℕ
beta_num = 7

abbrev pub beta_den : ℕ
beta_den = 10

abbrev pub saturating_add : ℕ → ℕ → ℕ
saturating_add a b = min (a + b) (2 ^ 32 - 1)

-- The window before it is cut to the window of the other side.
abbrev pub grown : ℕ → TcpControlBlock → ℕ
grown acked_bytes tcb =
    if ltb tcb.cwnd tcb.ssthresh
    then saturating_add tcb.cwnd (max acked_bytes tcb.mss)
    else saturating_add tcb.cwnd
        (max (max (acked_bytes * 4 % 2 ^ 32 / max tcb.cwnd 1) (acked_bytes / max tcb.cwnd 1)) 1)

unfoldable pub on_ack : ℕ → TcpControlBlock → TcpControlBlock
on_ack acked_bytes tcb = record tcb { cwnd = min (grown acked_bytes tcb) tcb.snd_wnd }

unfoldable pub on_loss : TcpControlBlock → TcpControlBlock
on_loss tcb = record tcb {
  w_max = tcb.cwnd;
  ssthresh = max (tcb.cwnd * beta_num % 2 ^ 32 / beta_den) (2 * tcb.mss % 2 ^ 32);
  cwnd = tcb.mss;
}

unfoldable pub init_window : TcpControlBlock → TcpControlBlock
init_window tcb = record tcb { mss = 1460; cwnd = 2 * 1460; ssthresh = 65535; w_max = 2 * 1460 }

-- `TcpControlBlock::new`.
unfoldable pub new : ℕ → TcpControlBlock
unfolding init_window
new local_port = init_window (record {
  local_port = local_port;
  remote = v4 any;
  remote_port = 0;
  state = closed;
  iss = 0x1234_5678;
  snd_una = 0;
  snd_nxt = 0;
  rcv_nxt = 0;
  snd_wnd = 65535;
  rcv_wnd = 65535;
  mss = 1460;
  cwnd = 2920;
  ssthresh = 65535;
  w_max = 2920;
  rtt_ms = 100;
  rto_ms = 1000;
  retransmit_at = 0;
  rx_queue = [];
  tx_buffer = [];
  tx_sent = 0;
  listen_backlog = 8;
})
