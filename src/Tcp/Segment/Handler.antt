-- ===== src/Tcp/Segment/Handler.antt =====
-- The text and the FIN of a segment, what is put off, and the whole handler (`__tcp_rx_conn` of
-- runtime/net/tcp_in.c).
use caladan.Common.{
  ℕ, suc, Bool, true, false, not, ◌&&◌, ◌||◌, ltb, leb, if◌then◌else◌, List, [], ◌∷◌, ◌++◌, Option,
  none, some,
}
use caladan.Tcp.{add32, wraps_gt}
use caladan.Tcp.Text.{is_nil, rx_text, Drained}
use caladan.Tcp.Conn.{
  TcpState, syn_sent, established, fin_wait1, fin_wait2, close_wait, closing, time_wait, closed,
  is_state, Sent, TcpConn, Effect, readies, frees, sends_ack, retransmits, set_state, timer_update,
}
use caladan.Tcp.Segment.{
  Arrival, Local, Step, goes_on, jumps, never, ◌>>=◌, start, acts, seg_len, stamp, in_closed,
}
use caladan.Tcp.Segment.Syn.{in_syn_sent}
use caladan.Tcp.Segment.Ack.{check_segment, ack_opens, process_ack, count_acks, ack_moves}

abbrev pub reads : TcpState → Bool
reads s = is_state s established || is_state s fin_wait1 || is_state s fin_wait2

-- `waitq_signal`: the thread that waits longest, and those behind it.
abbrev pub first_waiter : List ℕ → List ℕ × List ℕ
first_waiter [] = ([], [])
first_waiter (t ∷ ts) = (t ∷ [], ts)

-- Behind `tcp_rx_text`: a reader to wake and an ACK to send now or later
unfoldable pub after_text : Arrival → Local → Bool → Drained → Local
after_text a l used d =
    let c = l.conn in
    let (th, ts) = if d.wake then first_waiter c.rx_wq else ([], c.rx_wq) in
    let second = leb 2 (suc c.acks_delayed_cnt) in
    let later = not second && not c.ack_delayed in
    record l {
      conn = record c {
        ingress = d.ingress;
        rx_wq = ts;
        acks_delayed_cnt = suc c.acks_delayed_cnt;
        ack_delayed = c.ack_delayed || later;
        ack_ts = if later then a.now else c.ack_ts;
      };
      do_ack = l.do_ack || second || not (is_nil d.ingress.rxq_ooo);
      do_drop = not used;
      fin = d.fin;
      rx_th = th;
      effects = l.effects ++ frees d.freed ∷ [];
    }

-- A stop in `tcp_rx_text` is for good.
unfoldable pub with_text : Arrival → Local → Option (Bool × Drained) → Step
unfolding after_text
with_text a l none = never
with_text a l (some (used, d)) = goes_on (after_text a l used d)

unfoldable pub take_text : Arrival → Local → Step
unfolding with_text
take_text a l =
    let m = record a.seg { seg_end = add32 a.seg.seg_seq (seg_len a.seg) } in
    if ltb 0 (seg_len a.seg) && reads l.conn.pcb.state
    then with_text a l (rx_text l.conn.ingress m false l.fin)
    else goes_on l

-- The FIN of the peer
unfoldable pub take_fin : Arrival → Local → Step
take_fin a l =
    let c = l.conn in
    if not l.fin
    then jumps l
    else if is_state c.pcb.state established
    then jumps (acts l (set_state c close_wait a.now))
    else if is_state c.pcb.state fin_wait1
    then jumps (acts l (set_state c closing a.now))
    else if is_state c.pcb.state fin_wait2
    then jumps (
        acts (record l { do_ack = true })
          (set_state (record c { wait_ts = a.now }) time_wait a.now))
    else jumps l

-- What the handler leaves: the connection, whether it keeps the segment, and what it has done.
pub record Reply : Type 0 where
  pub conn : TcpConn
  pub used : Bool
  pub effects : List Effect

abbrev resent : Option Sent → List Effect
resent none = []
resent (some m) = retransmits m ∷ []

-- `tcp_tx_retransmit_one` sends nothing that is acknowledged.
abbrev pub is_unacked : TcpConn → Option Sent → Bool
is_unacked c none = false
is_unacked c (some m) = wraps_gt m.seg.seg_end c.pcb.snd_una

-- At the label `done`
unfoldable pub at_done : Arrival → Local → Reply
at_done a l =
    let c = timer_update l.conn a.now in
    let c' = if l.do_ack then record c { ack_delayed = false; acks_delayed_cnt = 0 } else c in
    let copies = a.copy_buffer && is_unacked c l.retransmit in
    record {
      conn = if (l.do_ack && a.ack_buffer) || copies then stamp c' else c';
      used = not l.do_drop;
      effects =
          l.effects
          ++ readies l.waiters ∷ readies l.rx_th ∷ frees l.q ∷ resent l.retransmit
          ++ (if l.do_ack then sends_ack ∷ [] else [])
          ++ (if l.do_drop then frees (a.seg ∷ []) ∷ [] else []);
    }

unfoldable pub handle : Arrival → Local → Step
unfolding in_syn_sent check_segment ack_opens process_ack count_acks ack_moves take_text take_fin
handle a l =
    if is_state l.conn.pcb.state closed
    then in_closed a l
    else if is_state l.conn.pcb.state syn_sent
    then in_syn_sent a l
    else check_segment a l
      >>= ack_opens a
      >>= process_ack a
      >>= count_acks a
      >>= ack_moves a
      >>= take_text a
      >>= take_fin a

-- `__tcp_rx_conn`; `none` if it never returns.
unfoldable pub rx_conn_slow : TcpConn → Arrival → Option Reply
unfolding handle at_done
rx_conn_slow c a = elim (handle a (start c)) [
  | never ↦ none
  | goes_on l ↦ some (at_done a l)
  | jumps l ↦ some (at_done a l)
]
