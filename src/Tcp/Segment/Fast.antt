-- ===== src/Tcp/Segment/Fast.antt =====
-- The fast path (`tcp_rx_conn` of runtime/net/tcp_in.c), from the lock on.
pub mod Steps
pub mod Agree
use caladan.Common.{
  ℕ, suc, ◌+◌, ◌-◌, Bool, true, false, not, ◌&&◌, ◌||◌, ◌==◌, ltb, leb, if◌then◌else◌, List, [],
  ◌∷◌, ◌++◌, Option, none, some, arith,
}
use caladan.Tcp.{add32, sub32, wraps_lt, wraps_lte, wraps_gt, Flags, Seg, Ingress}
use caladan.Tcp.Text.{is_nil}
use caladan.Tcp.Conn.{
  established, is_state, TcpPcb, TcpConn, Effect, readies, frees, sends_ack, is_snd_full, conn_ack,
  ack_timeout, add64, min,
}
use caladan.Tcp.Segment.{Arrival, stamp, window}
use caladan.Tcp.Segment.Handler.{first_waiter, Reply, rx_conn_slow}

-- The length of a segment, without a FIN
abbrev pub text_len : Seg → ℕ
text_len m = sub32 m.seg_end m.seg_seq

-- `slow_path`, at the end of the tests
unfoldable pub is_slow : TcpConn → Arrival → Bool
is_slow c a =
    let m = a.seg in
    m.flags.fin
    || m.flags.rst
    || m.flags.urg
    || text_len m == 0
    || wraps_gt a.ack a.snd_nxt
    || not (is_state c.pcb.state established)
    || is_snd_full c
    || not (m.seg_seq == c.ingress.rcv_nxt)
    || not (is_nil c.ingress.rxq_ooo)
    || ltb c.ingress.rcv_wnd (text_len m)

unfoldable pub fast_ack : TcpConn → Arrival → TcpConn × List Seg
fast_ack c a =
    if c.pcb.snd_una == a.ack
    then (c, [])
    else conn_ack (record c { rep_acks = 0; pcb = record c.pcb { snd_una = a.ack } })

unfoldable pub fast_window : TcpConn → Arrival → TcpConn
fast_window c a =
    if wraps_lt c.pcb.snd_wl1 a.seg.seg_seq
      || (c.pcb.snd_wl1 == a.seg.seg_seq && wraps_lte c.pcb.snd_wl2 a.ack)
    then record (window c a) { rep_acks = 0 }
    else c

-- The text, a reader, and the ACK, which every second segment sends.
unfoldable pub fast_text : TcpConn → Arrival → List Seg → Reply
fast_text c a q =
    let i = c.ingress in
    let (th, ts) =
      if not (is_nil i.rxq) || a.seg.flags.push then first_waiter c.rx_wq else ([], c.rx_wq) in
    let second = leb 2 (suc c.acks_delayed_cnt) in
    let later = not second && not c.ack_delayed in
    let c' = record c {
      ingress = record i {
        rcv_nxt = a.seg.seg_end;
        rcv_wnd = sub32 i.rcv_wnd (text_len a.seg);
        rxq = i.rxq ++ a.seg ∷ [];
      };
      rx_wq = ts;
      acks_delayed_cnt = if second then 0 else suc c.acks_delayed_cnt;
      ack_delayed = if second then false else true;
      ack_ts = if later then a.now else c.ack_ts;
      next_timeout = if later then min c.next_timeout (add64 a.now ack_timeout) else c.next_timeout;
    } in
    record {
      conn = if second && a.ack_buffer then stamp c' else c';
      used = true;
      effects = readies th ∷ frees q ∷ (if second then sends_ack ∷ [] else []);
    }

unfoldable pub rx_conn_fast : TcpConn → Arrival → Reply
unfolding fast_ack fast_window fast_text
rx_conn_fast c a =
    let (c', q) = fast_ack c a in
    if wraps_lte c.pcb.snd_una a.ack then fast_text (fast_window c' a) a q else fast_text c a []

-- `tcp_rx_conn`, from the lock on
pub rx_conn : TcpConn → Arrival → Option Reply
unfolding is_slow
rx_conn c a = if is_slow c a then rx_conn_slow c a else some (rx_conn_fast c a)
