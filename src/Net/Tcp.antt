-- ===== src/Net/Tcp.antt =====
-- kernel/src/net/tcp/mod.rs and cubic.rs: connections, segments and the congestion window. None
-- is a panic; a segment handed to `transmit` stands in the list that an operation returns.
pub mod Cubic
pub mod Segments
pub mod Calls
use theory_os.Base.{ℕ, List, []}
use theory_os.Net.Addr.{IpAddr, v4, any}

abbrev pub tcp_fin : ℕ
tcp_fin = 0x01

abbrev pub tcp_syn : ℕ
tcp_syn = 0x02

abbrev pub tcp_rst : ℕ
tcp_rst = 0x04

abbrev pub tcp_psh : ℕ
tcp_psh = 0x08

abbrev pub tcp_ack : ℕ
tcp_ack = 0x10

pub data TcpState : Type 0 where
  closed : TcpState
  listen : TcpState
  syn_sent : TcpState
  syn_received : TcpState
  established : TcpState
  fin_wait1 : TcpState
  fin_wait2 : TcpState
  close_wait : TcpState
  closing : TcpState
  last_ack : TcpState
  time_wait : TcpState

-- The front of `rx_queue` comes first.
pub record TcpControlBlock : Type 0 where
  pub local_port : ℕ
  pub remote : IpAddr
  pub remote_port : ℕ
  pub state : TcpState
  pub iss : ℕ
  pub snd_una : ℕ
  pub snd_nxt : ℕ
  pub rcv_nxt : ℕ
  pub snd_wnd : ℕ
  pub rcv_wnd : ℕ
  pub mss : ℕ
  pub cwnd : ℕ
  pub ssthresh : ℕ
  pub w_max : ℕ
  pub rtt_ms : ℕ
  pub rto_ms : ℕ
  pub retransmit_at : ℕ
  pub rx_queue : List (List ℕ)
  pub tx_buffer : List ℕ
  pub tx_sent : ℕ
  pub listen_backlog : ℕ
