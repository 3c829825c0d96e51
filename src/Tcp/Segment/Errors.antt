-- ===== src/Tcp/Segment/Errors.antt =====
-- Segments that the handler refuses, and those that reset a connection (runtime/net/tcp_in.c).
use caladan.Common.{
  ℕ, ◌<◌, ◌≤◌, ◌^◌, ◌≡◌, refl, ◌∙◌, true, false, not, ◌||◌, if◌then◌else◌, [], ◌∷◌, ◌++◌, some,
  arith, Bool-cases, inl, inr,
}
use caladan.Tcp.{word32}
use caladan.Tcp.Text.{is_acceptable}
use caladan.Tcp.Text.InOrder.{is_acceptable-next}
use caladan.Tcp.Conn.{
  closed, syn_sent, established, is_state, TcpConn, readies, frees, sends_ack, econnreset,
  set_state, shutdown_rx, drop_buffers, conn_put, conn_fail, timer_update, conn_ack,
}
use caladan.Tcp.Segment.{Arrival, Local, jumps, start, acts, resets, seg_len}
use caladan.Tcp.Segment.Ack.{check_segment}
use caladan.Tcp.Segment.Handler.{Reply, handle, at_done, rx_conn_slow}
use caladan.Tcp.Segment.Fast.{text_len, is_slow, rx_conn_fast, fast_ack, fast_window, fast_text}
use caladan.Tcp.Segment.States.{is_state_lem, fail-closed}

-- What stops at the checks is what the handler does.
stops_at :
    (c : TcpConn) (a : Arrival) (l : Local)
    → is_state c.pcb.state closed ≡ false
    → is_state c.pcb.state syn_sent ≡ false
    → check_segment a (start c) ≡ jumps l
    → rx_conn_slow c a ≡ some (at_done a l)
unfolding rx_conn_slow handle
stops_at c a l h k e =
    let stop : handle a (start c) ≡ jumps l = rw (h, k, e) refl in rw (stop, rx_conn_slow) refl

check-refuses :
    (c : TcpConn) (a : Arrival)
    → is_acceptable c.ingress.rcv_nxt c.ingress.rcv_wnd (seg_len a.seg) a.seg.seg_seq a.seg.flags
      ≡ false
    → check_segment a (start c) ≡ jumps (record (start c) { do_ack = not a.seg.flags.rst })
unfolding check_segment
check-refuses c a n = rw n refl

refused-fields :
    (c : TcpConn) (a : Arrival)
    → let r = at_done a (record (start c) { do_ack = not a.seg.flags.rst }) in
      (r.used ≡ false)
      × (r.conn.pcb ≡ c.pcb)
      × (r.conn.ingress ≡ c.ingress)
      × (r.conn.txq ≡ c.txq)
      × (r.conn.rx_wq ≡ c.rx_wq)
      × (r.effects
          ≡ readies [] ∷ readies [] ∷ frees [] ∷ (if a.seg.flags.rst then [] else sends_ack ∷ [])
            ++ frees (a.seg ∷ []) ∷ [])
unfolding at_done timer_update
refused-fields c a = (refl, grind arith, grind arith, grind arith, grind arith, grind arith)

-- A segment that is not acceptable, in a state behind SYN-SENT, is dropped: the control block and
-- all the queues stay as they are, nobody is woken, and it is answered by an ACK exactly if it has
-- no RST.
pub rx_conn_slow-refuses :
    (c : TcpConn) (a : Arrival)
    → is_state c.pcb.state closed ≡ false
    → is_state c.pcb.state syn_sent ≡ false
    → is_acceptable c.ingress.rcv_nxt c.ingress.rcv_wnd (seg_len a.seg) a.seg.seg_seq a.seg.flags
      ≡ false
    → (r : Reply) × (rx_conn_slow c a ≡ some r)
      × (r.used ≡ false)
      × (r.conn.pcb ≡ c.pcb)
      × (r.conn.ingress ≡ c.ingress)
      × (r.conn.txq ≡ c.txq)
      × (r.conn.rx_wq ≡ c.rx_wq)
      × (r.effects
          ≡ readies [] ∷ readies [] ∷ frees [] ∷ (if a.seg.flags.rst then [] else sends_ack ∷ [])
            ++ frees (a.seg ∷ []) ∷ [])
rx_conn_slow-refuses c a h k n =
    let l = record (start c) { do_ack = not a.seg.flags.rst } in
    let t = refused-fields c a in
    (at_done a l, stops_at c a l h k (check-refuses c a n), t.0, t.1, t.2, t.3, t.4, t.5)

pub fail-fields :
    (c : TcpConn) (e now : ℕ)
    → ((conn_fail c e now).0.err ≡ e)
      × ((conn_fail c e now).0.rx_closed ≡ true)
      × ((conn_fail c e now).0.tx_closed ≡ true)
unfolding conn_fail set_state shutdown_rx drop_buffers conn_put timer_update
fail-fields c e now = (grind arith, grind arith, grind arith)

failed-fields :
    (c : TcpConn) (a : Arrival) (l : Local)
    → l.do_ack ≡ false
    → l.do_drop ≡ true
    → let r = at_done a (acts l (conn_fail c econnreset a.now)) in
      (r.used ≡ false)
      × (r.conn.pcb.state ≡ closed)
      × (r.conn.err ≡ econnreset)
      × (r.conn.rx_closed ≡ true)
      × (r.conn.tx_closed ≡ true)
unfolding at_done timer_update
failed-fields c a l h k =
    let t = fail-fields c econnreset a.now in
    let s = fail-closed c econnreset a.now in
    (grind (arith, k), grind (arith, s), grind (arith, t.0), grind (arith, t.1), grind (arith, t.2))

-- An acceptable segment with RST or SYN, in a state behind SYN-SENT, closes the connection both
-- ways with the error of a reset, and is dropped.
pub rx_conn_slow-resets :
    (c : TcpConn) (a : Arrival)
    → is_state c.pcb.state closed ≡ false
    → is_state c.pcb.state syn_sent ≡ false
    → is_acceptable c.ingress.rcv_nxt c.ingress.rcv_wnd (seg_len a.seg) a.seg.seg_seq a.seg.flags
      ≡ true
    → (a.seg.flags.rst || a.seg.flags.syn) ≡ true
    → (r : Reply) × (rx_conn_slow c a ≡ some r)
      × (r.used ≡ false)
      × (r.conn.pcb.state ≡ closed)
      × (r.conn.err ≡ econnreset)
      × (r.conn.rx_closed ≡ true)
      × (r.conn.tx_closed ≡ true)
unfolding check_segment
rx_conn_slow-resets c a h k n f =
    let c' = conn_fail c econnreset a.now in
    elim (Bool-cases a.seg.flags.rst) [
      | inl rst ↦
          (let l = acts (start c) c' in
            let t = failed-fields c a (start c) refl refl in
            (at_done a l, stops_at c a l h k (rw (n, rst) refl), t.0, t.1, t.2, t.3, t.4))
      | inr no_rst ↦
          (let l₀ = resets (start c) a.seg.flags.ack a in
            let l = acts l₀ c' in
            let syn : a.seg.flags.syn ≡ true = grind (arith, no_rst, f) in
            let t = failed-fields c a l₀ refl refl in
            (at_done a l, stops_at c a l h k (rw (n, no_rst, syn) refl), t.0, t.1, t.2, t.3, t.4))
    ]

fast-keeps :
    (c : TcpConn) (a : Arrival)
    → ((rx_conn_fast c a).used ≡ true)
      × ((rx_conn_fast c a).conn.pcb.state ≡ c.pcb.state)
      × ((rx_conn_fast c a).conn.ingress.rxq ≡ c.ingress.rxq ++ a.seg ∷ [])
unfolding rx_conn_fast fast_text fast_window fast_ack conn_ack
fast-keeps c a = (grind arith, grind arith, grind arith)

-- A segment with a SYN that the tests send to the fast path is taken as text there, and the
-- connection stays open, while the slow path resets the connection and drops the segment.
pub syn_divides :
    (c : TcpConn) (a : Arrival)
    → is_slow c a ≡ false
    → a.seg.flags.syn ≡ true
    → c.ingress.rcv_nxt < word32
    → c.ingress.rcv_wnd < 2 ^ 31
    → (r : Reply) × (rx_conn_slow c a ≡ some r)
      × (r.used ≡ false)
      × (r.conn.pcb.state ≡ closed)
      × ((rx_conn_fast c a).used ≡ true)
      × ((rx_conn_fast c a).conn.pcb.state ≡ established)
      × ((rx_conn_fast c a).conn.ingress.rxq ≡ c.ingress.rxq ++ a.seg ∷ [])
unfolding is_slow
syn_divides c a s f nxt wnd =
    let e : c.pcb.state ≡ established = is_state_lem c.pcb.state established (grind (arith, s)) in
    let no_fin : a.seg.flags.fin ≡ false = grind (arith, s) in
    let len : seg_len a.seg ≡ text_len a.seg = rw no_fin refl in
    let some_text : 0 < text_len a.seg = grind (arith, s) in
    let fits : text_len a.seg ≤ c.ingress.rcv_wnd = grind (arith, s) in
    let next : a.seg.seg_seq ≡ c.ingress.rcv_nxt = grind (arith, s) in
    let ok =
      is_acceptable-next a.seg.seg_seq c.ingress.rcv_nxt c.ingress.rcv_wnd (seg_len a.seg)
        a.seg.flags next nxt wnd (rw len some_text) (rw len fits) in
    let (r, run, u, st, x, y, z) =
      rx_conn_slow-resets c a (rw e refl) (rw e refl) ok (grind (arith, f)) in
    let k = fast-keeps c a in (r, run, u, st, k.0, k.1 ∙ e, k.2)
