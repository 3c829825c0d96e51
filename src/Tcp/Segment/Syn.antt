-- ===== src/Tcp/Segment/Syn.antt =====
-- A segment for a connection that has sent its SYN (`__tcp_rx_conn` of runtime/net/tcp_in.c).
use caladan.Common.{
  suc, true, false, not, ◌&&◌, ◌||◌, if◌then◌else◌, List, [], ◌++◌, Option, none, some,
}
use caladan.Tcp.{add32, wraps_lte, wraps_gt, Seg}
use caladan.Tcp.Options.{TcpOptions, Scaling, parse_options}
use caladan.Tcp.Conn.{
  syn_received, established, TcpConn, econnreset, conn_ack, set_state, conn_fail,
}
use caladan.Tcp.Segment.{Arrival, Local, Step, jumps, never, acts, resets, tx_ctl, syn_ack, window}

-- The SYN of the peer: the options of the connection, and the state that it opens.
abbrev scaling : TcpConn → Scaling
scaling c = record {
  snd_mss = c.pcb.snd_mss;
  snd_wscale = c.pcb.snd_wscale;
  rcv_wnd = c.ingress.rcv_wnd;
  rcv_wscale = c.pcb.rcv_wscale;
  winmax = c.winmax;
}

abbrev pub with_scaling : TcpConn → Scaling → TcpConn
with_scaling c s = record c {
  pcb = record c.pcb { snd_mss = s.snd_mss; snd_wscale = s.snd_wscale; rcv_wscale = s.rcv_wscale };
  ingress = record c.ingress { rcv_wnd = s.rcv_wnd };
  winmax = s.winmax;
}

-- An ACK that covers our SYN opens the connection, and else a SYN and ACK is sent.
unfoldable pub answer_syn : Arrival → Local → TcpOptions → TcpConn → List Seg → Step
answer_syn a l o c q =
    let opts = record o { mss = c.pcb.rcv_mss; wscale = c.pcb.rcv_wscale } in
    let (sent_it, (c', es)) = tx_ctl c syn_ack opts a.ctl a.now in
    let l' = acts (record l { q = l.q ++ q }) (c', es) in
    if wraps_gt c.pcb.snd_una c.pcb.iss
    then jumps
        (acts (record l { do_ack = true; q = l.q ++ q }) (set_state (window c a) established a.now))
    else if sent_it
    then jumps (acts l' (set_state c' syn_received a.now))
    else jumps l'

-- With the options read, the ACK is taken.
unfoldable pub open_syn : Arrival → Local → TcpOptions → TcpConn → Step
unfolding answer_syn
open_syn a l o c =
    let (c', q) = conn_ack (record c { pcb = record c.pcb { snd_una = a.ack } }) in
    if a.seg.flags.ack then answer_syn a l o c' q else answer_syn a l o c []

-- Options that do not end are read for ever.
unfoldable pub with_options : Arrival → Local → TcpConn → Option (Scaling × TcpOptions) → Step
unfolding open_syn
with_options a l c none = never
with_options a l c (some (s, o)) = open_syn a l o (with_scaling c s)

unfoldable pub read_syn : Arrival → Local → Step
unfolding with_options
read_syn a l =
    let c = record l.conn {
      pcb = record l.conn.pcb { irs = a.seg.seg_seq };
      ingress = record l.conn.ingress { rcv_nxt = add32 a.seg.seg_seq 1 };
    } in
    with_options a l c
      (parse_options (suc a.optlen) a.memory a.optp a.optlen c.pcb.rcv_mss (scaling c))

unfoldable pub in_syn_sent : Arrival → Local → Step
unfolding read_syn
in_syn_sent a l =
    let c = l.conn in
    let f = a.seg.flags in
    if f.ack && (wraps_lte a.ack c.pcb.iss || wraps_gt a.ack a.snd_nxt)
    then jumps (resets l false a)
    else if f.ack && f.rst && wraps_lte c.pcb.snd_una a.ack && wraps_lte a.ack a.snd_nxt
    then jumps (acts l (conn_fail c econnreset a.now))
    else if not f.ack && f.rst
    then jumps l
    else if f.syn
    then read_syn a l
    else jumps l
