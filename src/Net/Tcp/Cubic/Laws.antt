-- ===== src/Net/Tcp/Cubic/Laws.antt =====
-- The congestion window stays within the window of the other side.
use theory_os.Base.{
  ℕ, ◌+◌, ◌*◌, ◌/◌, ◌^◌, ◌≤◌, ◌<◌, ◌≡◌, refl, arith, min, max, ltb, if◌then◌else◌, Bool-cases, inl,
  inr,
}
use theory_os.Net.Tcp.{TcpControlBlock}
use theory_os.Net.Tcp.Cubic.{on_ack, on_loss, init_window, new, saturating_add, grown}

-- One segment at least, and at most what the other side takes; the words leave the products of the
-- code inside 32 bits.
pub record IsWindow (tcb : TcpControlBlock) : Type 0 where
  pub segment : 1 ≤ tcb.mss
  pub whole : tcb.mss ≤ tcb.cwnd
  pub within : tcb.cwnd ≤ tcb.snd_wnd
  pub word : tcb.snd_wnd < 2 ^ 16

pub new-IsWindow : (port : ℕ) → IsWindow (new port)
unfolding new init_window
new-IsWindow port = record {
  segment = omega arith;
  whole = omega arith;
  within = omega arith;
  word = omega arith;
}

-- What an acknowledgement adds at least.
abbrev pub least_step : TcpControlBlock → ℕ
least_step tcb = if ltb tcb.cwnd tcb.ssthresh then tcb.mss else 1

saturating_add_le : (w a b c : ℕ) → w < 2 ^ 16 → b ≤ c → min w (a + b) ≤ saturating_add a c
saturating_add_le w a b c h k = omega arith

grown-le :
    (acked : ℕ) (tcb : TcpControlBlock)
    → tcb.snd_wnd < 2 ^ 16
    → min tcb.snd_wnd (tcb.cwnd + least_step tcb) ≤ grown acked tcb
grown-le acked tcb h = elim (Bool-cases (ltb tcb.cwnd tcb.ssthresh)) [
  | inl slow ↦ rw slow (saturating_add_le _ _ _ _ h (omega arith))
  | inr fast ↦ rw fast (saturating_add_le _ _ _ _ h (omega arith))
]

-- Acknowledgements and losses keep the window between one segment and what the other side takes;
-- an acknowledgement never makes it smaller, and makes it larger by a segment at least below the
-- threshold, by a byte above, up to that limit; a loss sets it to one segment, and the threshold to
-- seven tenths of it, but at least to two segments.
pub on_ack-on_loss_lem :
    (acked : ℕ) (tcb : TcpControlBlock)
    → IsWindow tcb
    → IsWindow (on_ack acked tcb)
      × IsWindow (on_loss tcb)
      × (min tcb.snd_wnd (tcb.cwnd + least_step tcb) ≤ (on_ack acked tcb).cwnd)
      × ((on_loss tcb).cwnd ≡ tcb.mss)
      × ((on_loss tcb).ssthresh ≡ max (tcb.cwnd * 7 / 10) (2 * tcb.mss))
unfolding on_ack on_loss
on_ack-on_loss_lem acked tcb w = (
  record {
    segment = w.segment;
    whole = omega (arith, grown-le acked tcb w.word, w.whole, w.within);
    within = omega arith;
    word = w.word;
  },
  record {
    segment = w.segment;
    whole = omega arith;
    within = omega (arith, w.whole, w.within);
    word = w.word;
  },
  omega (arith, grown-le acked tcb w.word),
  refl,
  omega (arith, w.whole, w.within, w.word),
)
