-- ===== src/Tcp/Segment.antt =====
-- The handler of a segment for a connection (`__tcp_rx_conn` of runtime/net/tcp_in.c), which runs
-- under the lock of the connection. Each part of it is a function on the local variables that goes
-- on or jumps to the label `done`; the parts are composed in their order. What is put off until the
-- lock is dropped is done at the end of the same call.
pub mod Syn
pub mod Ack
pub mod Handler
pub mod States
pub mod Errors
pub mod Fast
use caladan.Common.{
  ℕ, suc, ◌+◌, ◌-◌, Bool, true, false, not, ◌&&◌, ◌||◌, ◌==◌, ltb, leb, if◌then◌else◌, List, [],
  ◌∷◌, ◌++◌, Option, none, some,
}
use caladan.Tcp.{add32, sub32, wraps_lt, wraps_lte, wraps_gt, wraps_gte, Flags, Seg, Ingress}
use caladan.Tcp.Text.{is_acceptable, is_nil, rx_text, Drained}
use caladan.Tcp.Options.{TcpOptions, Scaling, parse_options}
use caladan.Tcp.Conn.{
  TcpState, syn_sent, syn_received, established, fin_wait1, fin_wait2, close_wait, closing,
  last_ack, time_wait, closed, is_state, TcpPcb, Sent, TcpConn, Effect, readies, frees, sends_ack,
  sends_ctl, sends_rst, sends_rst_ack, retransmits, econnreset, is_snd_full, conn_ack, set_state,
  conn_put, conn_fail, timer_update,
}

-- What becomes of a control message: no buffer, the packet is lost on its way down, or it is sent.
pub data CtlOutcome : Type 0 where
  no_memory lost sent : CtlOutcome

-- The arguments of the handler, and what it finds when it calls: the clock, the memory that holds
-- the options, what becomes of a SYN and ACK, and whether there are buffers for an ACK and for a
-- copy of a packet that is sent again.
pub record Arrival : Type 0 where
  pub seg : Seg
  pub ack : ℕ
  pub snd_nxt : ℕ
  pub win : ℕ
  pub memory : ℕ → ℕ
  pub optp : ℕ
  pub optlen : ℕ
  pub now : ℕ
  pub ctl : CtlOutcome
  pub ack_buffer : Bool
  pub copy_buffer : Bool

-- The local variables of the handler, and what it has done under the lock.
pub record Local : Type 0 where
  pub conn : TcpConn
  pub do_ack : Bool
  pub do_drop : Bool
  pub fin : Bool
  pub ack_same : Bool
  pub wnd_updated : Bool
  pub q : List Seg
  pub waiters : List ℕ
  pub rx_th : List ℕ
  pub retransmit : Option Sent
  pub effects : List Effect

-- A part goes on, jumps to `done`, or never gets there: a BUG_ON, or options that do not end.
pub data Step : Type 0 where
  goes_on jumps : Local → Step
  never : Step

infixl 30 ◌>>=◌
abbrev pub ◌>>=◌ : Step → (Local → Step) → Step
never >>= f = never
jumps l >>= f = jumps l
goes_on l >>= f = f l

abbrev pub start : TcpConn → Local
start c = record {
  conn = c;
  do_ack = false;
  do_drop = true;
  fin = false;
  ack_same = false;
  wnd_updated = false;
  q = [];
  waiters = [];
  rx_th = [];
  retransmit = none;
  effects = [];
}

abbrev pub acts : Local → TcpConn × List Effect → Local
acts l (c, es) = record l { conn = c; effects = l.effects ++ es }

-- `len`, which counts a FIN.
abbrev pub seg_len : Seg → ℕ
seg_len m = if m.flags.fin then add32 (sub32 m.seg_end m.seg_seq) 1 else sub32 m.seg_end m.seg_seq

-- `send_rst`
abbrev pub send_rst : Bool → ℕ → ℕ → ℕ → Effect
send_rst acked seq ack len = if acked then sends_rst ack else sends_rst_ack 0 (add32 seq len)

abbrev pub resets : Local → Bool → Arrival → Local
resets l acked a = record l {
  effects = l.effects ++ send_rst acked a.seg.seg_seq a.ack (seg_len a.seg) ∷ [];
}

-- A packet that goes out tells the next octet and the window.
abbrev pub stamp : TcpConn → TcpConn
stamp c = record c { tx_last_ack = c.ingress.rcv_nxt; tx_last_win = c.ingress.rcv_wnd }

abbrev is_sent : CtlOutcome → Bool
is_sent sent = true
is_sent _ = false

-- `tcp_tx_ctl`: whether it succeeds.
pub tx_ctl : TcpConn → Flags → TcpOptions → CtlOutcome → ℕ → Bool × (TcpConn × List Effect)
tx_ctl c flags o no_memory now = (false, (c, []))
tx_ctl c flags o outcome now =
    let m : Seg = record {
      seg_seq = c.pcb.snd_nxt;
      seg_end = add32 c.pcb.snd_nxt 1;
      flags = flags;
      text = [];
    } in
    (
      is_sent outcome,
      (
        record (stamp c) {
          pcb = record c.pcb { snd_nxt = add32 c.pcb.snd_nxt 1 };
          txq = c.txq ++ record { seg = m; timestamp = now } ∷ [];
        },
        sends_ctl m o ∷ [],
      ),
    )

abbrev pub syn_ack : Flags
syn_ack = record { fin = false; syn = true; rst = false; push = false; ack = true; urg = false }

abbrev pub window : TcpConn → Arrival → TcpConn
window c a = record c {
  pcb = record c.pcb { snd_wnd = a.win; snd_wl1 = a.seg.seg_seq; snd_wl2 = a.ack };
}

abbrev pub in_closed : Arrival → Local → Step
in_closed a l = jumps (if a.seg.flags.rst then l else resets l false a)
