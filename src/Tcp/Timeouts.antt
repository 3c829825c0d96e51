-- ===== src/Tcp/Timeouts.antt =====
-- The timeouts of a connection (`tcp_handle_timeouts` of runtime/net/tcp.c), with what is put off
-- until the lock is dropped.
use caladan.Common.{
  ℕ, ◌+◌, ◌≤◌, ◌<◌, ◌≡◌, ◌⊎◌, Bool, true, false, not, ◌&&◌, ◌||◌, ltb, leb, if◌then◌else◌, List, [],
  ◌∷◌, ◌++◌,
}
use caladan.Tcp.Text.{is_nil}
use caladan.Tcp.Segment.{stamp}
use caladan.Tcp.Conn.{
  syn_sent, syn_received, established, time_wait, closed, rank, is_state, TcpConn, Sent, Effect,
  sends_ack, sends_probe, spawns_retransmit, etimedout, ack_timeout, connect_timeout,
  time_wait_timeout, resend_timeout, sub64, timer_update, set_state, conn_put, conn_fail,
}

-- Whether the first segment that is sent waits too long for its ACK
abbrev is_overdue : List Sent → ℕ → Bool
is_overdue [] now = false
is_overdue (m ∷ ms) now = leb resend_timeout (sub64 now m.timestamp)

abbrev connects_late : TcpConn → ℕ → Bool
connects_late c now =
    ltb (rank c.pcb.state) (rank established) && leb connect_timeout (sub64 now c.wait_ts)

abbrev waited_out : TcpConn → ℕ → Bool
waited_out c now = is_state c.pcb.state time_wait && leb time_wait_timeout (sub64 now c.wait_ts)

-- The timeouts of a connection that goes on. Whether there is a buffer for an ACK and for a probe is
-- found out when they are sent; each tells the next octet and the window.
live_timeouts : TcpConn → ℕ → Bool → Bool → TcpConn × List Effect
live_timeouts c now ack_buffer probe_buffer =
    let late_ack = c.ack_delayed && leb ack_timeout (sub64 now c.ack_ts) in
    let probes = c.zero_wnd && leb resend_timeout (sub64 now c.zero_wnd_ts) in
    let resends = not c.tx_exclusive && is_overdue c.txq now in
    let do_ack = late_ack || not (is_nil c.ingress.rxq_ooo) in
    let c' = record c {
      ack_delayed = if late_ack then false else c.ack_delayed;
      zero_wnd_ts = if probes then now else c.zero_wnd_ts;
      refs = if resends then c.refs + 1 else c.refs;
    } in
    let c'' = timer_update c' now in
    (
      if (do_ack && ack_buffer) || (probes && probe_buffer) then stamp c'' else c'',
      (if do_ack then sends_ack ∷ [] else [])
          ++ (if probes then sends_probe ∷ [] else [])
          ++ (if resends then spawns_retransmit ∷ [] else []),
    )

pub handle_timeouts : TcpConn → ℕ → Bool → Bool → TcpConn × List Effect
unfolding live_timeouts
handle_timeouts c now ack_buffer probe_buffer =
    let (c₁, e₁) = set_state c closed now in
    let (c₂, e₂) = conn_put c₁ in
    if is_state c.pcb.state closed
    then (c, [])
    else if connects_late c now
    then conn_fail c etimedout now
    else if waited_out c now
    then (c₂, e₁ ++ e₂)
    else live_timeouts c now ack_buffer probe_buffer

-- The connection opens for five seconds or more.
abbrev pub OpensLate : TcpConn → ℕ → Type 0
OpensLate c now =
    ((c.pcb.state ≡ syn_sent) ⊎ (c.pcb.state ≡ syn_received)) × (c.wait_ts + 5000000 ≤ now)

-- It waits behind its last segment for one second or more.
abbrev pub WaitsLong : TcpConn → ℕ → Type 0
WaitsLong c now = (c.pcb.state ≡ time_wait) × (c.wait_ts + 1000000 ≤ now)

-- An ACK waits for ten milliseconds or more, or a segment waits out of order.
abbrev pub AckDue : TcpConn → ℕ → Type 0
AckDue c now =
    ((c.ack_delayed ≡ true) × (c.ack_ts + 10000 ≤ now)) ⊎ (is_nil c.ingress.rxq_ooo ≡ false)

-- No ACK is sent.
abbrev pub NoAck : List Effect → Type 0
NoAck [] = Unit {0}
NoAck (sends_ack ∷ es) = ⊥
NoAck (e ∷ es) = NoAck es

-- What the timeouts do to a connection that goes on
pub record GoesOn (c : TcpConn) (now : ℕ) (ack_buffer : Bool) (r : TcpConn × List Effect)
    : Type 0 where
  pub pcb : r.0.pcb ≡ c.pcb
  pub ingress : r.0.ingress ≡ c.ingress
  pub txq : r.0.txq ≡ c.txq
  pub no_late_ack : (r.0.ack_delayed ≡ false) ⊎ (now < c.ack_ts + 10000)
  pub rest : List Effect
  pub no_second : NoAck rest
  pub acks : (AckDue c now × (r.1 ≡ sends_ack ∷ rest)) ⊎ ((¬ AckDue c now) × (r.1 ≡ rest))
  pub told :
      (¬ AckDue c now)
      ⊎ (ack_buffer ≡ false)
      ⊎ ((r.0.tx_last_ack ≡ c.ingress.rcv_nxt) × (r.0.tx_last_win ≡ c.ingress.rcv_wnd))

abbrev late_ack : TcpConn → ℕ → Bool
late_ack c now = c.ack_delayed && leb ack_timeout (sub64 now c.ack_ts)

-- What follows the ACK
others : Bool → Bool → List Effect
others a b = (if a then sends_probe ∷ [] else []) ++ (if b then spawns_retransmit ∷ [] else [])
