-- ===== src/Tcp/Segment/Ack.antt =====
-- The checks of a segment and its ACK (`__tcp_rx_conn` of runtime/net/tcp_in.c).
use caladan.Common.{
  ℕ, suc, Bool, true, not, ◌&&◌, ◌||◌, ◌==◌, leb, if◌then◌else◌, [], ◌∷◌, ◌++◌, Option, none, some,
}
use caladan.Tcp.{wraps_lt, wraps_lte, wraps_gt}
use caladan.Tcp.Text.{is_acceptable}
use caladan.Tcp.Conn.{
  syn_received, established, fin_wait1, fin_wait2, closing, last_ack, time_wait, closed, is_state,
  Sent, TcpConn, econnreset, is_snd_full, conn_ack, set_state, conn_put, conn_fail,
}
use caladan.Tcp.Segment.{Arrival, Local, Step, goes_on, jumps, acts, seg_len, resets, window}

-- Steps 1 to 5: what is not acceptable, resets, SYNs, and what has no ACK.
unfoldable pub check_segment : Arrival → Local → Step
check_segment a l =
    let c = l.conn in
    let f = a.seg.flags in
    if not (is_acceptable c.ingress.rcv_nxt c.ingress.rcv_wnd (seg_len a.seg) a.seg.seg_seq f)
    then jumps (record l { do_ack = not f.rst })
    else if f.rst
    then jumps (acts l (conn_fail c econnreset a.now))
    else if f.syn
    then jumps (acts (resets l f.ack a) (conn_fail c econnreset a.now))
    else if not f.ack
    then jumps l
    else goes_on l

-- The ACK of our SYN
unfoldable pub ack_opens : Arrival → Local → Step
ack_opens a l =
    let c = l.conn in
    if not (is_state c.pcb.state syn_received)
    then goes_on l
    else if not (wraps_lte c.pcb.snd_una a.ack && wraps_lte a.ack a.snd_nxt)
    then jumps (resets l true a)
    else goes_on (acts l (set_state (window c a) established a.now))

-- What of a segment that we have sent is acknowledged
unfoldable pub take_ack : Arrival → Local → Local
take_ack a l =
    let c = l.conn in
    let (c', q) = conn_ack (record c { pcb = record c.pcb { snd_una = a.ack } }) in
    if c.pcb.snd_una == a.ack
    then record l { ack_same = true }
    else record l { conn = c'; q = l.q ++ q }

unfoldable pub take_window : Arrival → Local → Local
take_window a l =
    let c = l.conn in
    let newer =
      wraps_lt c.pcb.snd_wl1 a.seg.seg_seq
      || (c.pcb.snd_wl1 == a.seg.seg_seq && wraps_lte c.pcb.snd_wl2 a.ack) in
    if newer && (not l.ack_same || leb c.pcb.snd_wnd a.win)
    then record l {
      conn = window c a;
      wnd_updated = l.wnd_updated || not (c.pcb.snd_wnd == a.win) || not (c.pcb.snd_wl2 == a.ack);
    }
    else l

abbrev pub wakes_senders : Bool → Local → Local
wakes_senders was_full l =
    if was_full && not (is_snd_full l.conn)
    then record l { conn = record l.conn { tx_wq = [] }; waiters = l.conn.tx_wq }
    else l

-- The ACK and the window, and the threads that wait to send.
unfoldable pub process_ack : Arrival → Local → Step
unfolding take_ack take_window
process_ack a l =
    let c = l.conn in
    if wraps_lte c.pcb.snd_una a.ack && wraps_lte a.ack a.snd_nxt
    then goes_on (wakes_senders (is_snd_full c) (take_window a (take_ack a l)))
    else if wraps_gt a.ack a.snd_nxt
    then jumps (record l { do_ack = true })
    else goes_on (wakes_senders (is_snd_full c) l)

abbrev pub fast_retransmit_thresh : ℕ
fast_retransmit_thresh = 3

-- `tcp_tx_fast_retransmit_start`
unfoldable pub fast_retransmit_start : TcpConn → ℕ → TcpConn × Option Sent
fast_retransmit_start c now = elim c.txq [
  | [] ↦ (c, none)
  | m ∷ ms ↦
      (let m' = record m { timestamp = now } in
        if c.tx_exclusive then (c, none) else (record c { txq = m' ∷ ms }, some m'))
]

-- The third of a row of ACKs that repeat
unfoldable pub resend : Arrival → Local → Local
unfolding fast_retransmit_start
resend a l =
    let c = record l.conn { rep_acks = 0 } in
    let (c', m) = fast_retransmit_start c a.now in
    if c.tx_exclusive
    then record l {
      conn = record c { do_fast_retransmit = true; fast_retransmit_last_ack = a.ack };
    }
    else record l { conn = c'; retransmit = m }

unfoldable pub count_acks : Arrival → Local → Step
unfolding resend
count_acks a l =
    let c = l.conn in
    let repeats =
      l.ack_same
      && not (c.pcb.snd_una == c.pcb.snd_nxt)
      && seg_len a.seg == 0
      && not l.wnd_updated in
    if repeats
    then goes_on (
        if leb fast_retransmit_thresh (suc c.rep_acks)
        then resend a l
        else record l { conn = record c { rep_acks = suc c.rep_acks } })
    else if c.pcb.snd_una == a.ack
    then goes_on (record l { conn = record c { rep_acks = 0 } })
    else goes_on l

-- The states that an ACK of our FIN ends
unfoldable pub ack_moves : Arrival → Local → Step
ack_moves a l =
    let c = l.conn in
    let (c', es) = set_state c closed a.now in
    let (c'', es') = conn_put c' in
    if not (c.pcb.snd_una == a.snd_nxt)
    then goes_on l
    else if is_state c.pcb.state fin_wait1
    then goes_on (acts l (set_state c fin_wait2 a.now))
    else if is_state c.pcb.state closing
    then goes_on (acts l (set_state (record c { wait_ts = a.now }) time_wait a.now))
    else if is_state c.pcb.state last_ack
    then jumps (acts l (c'', es ++ es'))
    else goes_on l
