-- ===== src/Tcp/Conn.antt =====
-- A connection and what the ingress path, the timeouts and the user do to its state
-- (runtime/net/tcp.h, tcp.c). What runs under the lock of the connection is one function. `now` is
-- what the clock reads, in microseconds, and threads that are readied, buffers that are freed and
-- packets that are sent are effects, in order.
use caladan.Common.{
  ℕ, ◌+◌, ◌-◌, ◌%◌, ◌^◌, Bool, true, ◌&&◌, ◌==◌, ltb, leb, if◌then◌else◌, List, [], ◌∷◌, ◌++◌,
  Option, none, some,
}
use caladan.Tcp.{add32, wraps_lte, wraps_gt, Seg, Ingress}
use caladan.Tcp.Text.{is_nil}
use caladan.Tcp.Options.{TcpOptions}

pub data TcpState : Type 0 where
  syn_sent syn_received established fin_wait1 fin_wait2 close_wait closing last_ack time_wait
        closed :
      TcpState

-- The number of a state in the enumeration
abbrev pub rank : TcpState → ℕ
rank syn_sent = 0
rank syn_received = 1
rank established = 2
rank fin_wait1 = 3
rank fin_wait2 = 4
rank close_wait = 5
rank closing = 6
rank last_ack = 7
rank time_wait = 8
rank closed = 9

abbrev pub is_state : TcpState → TcpState → Bool
is_state s s' = rank s == rank s'

-- `struct tcp_pcb`; what text in the ingress path moves stands in `Ingress`.
pub record TcpPcb : Type 0 where
  pub state : TcpState
  pub snd_una : ℕ
  pub snd_nxt : ℕ
  pub snd_wnd : ℕ
  pub snd_wl1 : ℕ
  pub snd_wl2 : ℕ
  pub iss : ℕ
  pub snd_wscale : ℕ
  pub snd_mss : ℕ
  pub irs : ℕ
  pub rcv_wscale : ℕ
  pub rcv_mss : ℕ

-- A segment that has been sent, with the time of that.
pub record Sent : Type 0 where
  pub seg : Seg
  pub timestamp : ℕ

-- `struct tcpconn`. The times of attachment and of the wait share a field, as there.
pub record TcpConn : Type 0 where
  pub pcb : TcpPcb
  pub ingress : Ingress
  pub next_timeout : ℕ
  pub nonblocking : Bool
  pub refs : ℕ
  pub err : ℕ
  pub winmax : ℕ
  pub rx_closed : Bool
  pub rx_exclusive : Bool
  pub rx_wq : List ℕ
  pub tx_closed : Bool
  pub tx_exclusive : Bool
  pub tx_wq : List ℕ
  pub tx_last_ack : ℕ
  pub tx_last_win : ℕ
  pub tx_pending : Option Seg
  pub txq : List Sent
  pub do_fast_retransmit : Bool
  pub fast_retransmit_last_ack : ℕ
  pub ack_ts : ℕ
  pub zero_wnd_ts : ℕ
  pub wait_ts : ℕ
  pub zero_wnd : Bool
  pub ack_delayed : Bool
  pub rep_acks : ℕ
  pub acks_delayed_cnt : ℕ

pub data Effect : Type 0 where
  readies : List ℕ → Effect
  frees : List Seg → Effect
  sends_ack sends_probe spawns_retransmit destroys : Effect
  sends_ctl : Seg → TcpOptions → Effect
  sends_rst : ℕ → Effect
  sends_rst_ack : ℕ → ℕ → Effect
  retransmits : Sent → Effect

abbrev pub econnreset : ℕ
econnreset = 104

abbrev pub etimedout : ℕ
etimedout = 110

abbrev uint64_max : ℕ
uint64_max = 18446744073709551615

abbrev pub add64 : ℕ → ℕ → ℕ
add64 a b = (a + b) % 2 ^ 64

abbrev pub sub64 : ℕ → ℕ → ℕ
sub64 a b = (a + 2 ^ 64 - b) % 2 ^ 64

abbrev pub ack_timeout : ℕ
ack_timeout = 10000

abbrev pub connect_timeout : ℕ
connect_timeout = 5000000

abbrev pub time_wait_timeout : ℕ
time_wait_timeout = 1000000

-- The timeouts of the out-of-order queue, of a window of 0 and of a retransmission are the same.
abbrev pub resend_timeout : ℕ
resend_timeout = 300000

abbrev pub min : ℕ → ℕ → ℕ
min a b = if ltb a b then a else b

-- `tcp_is_snd_full`
unfoldable pub is_snd_full : TcpConn → Bool
is_snd_full c = wraps_lte (add32 c.pcb.snd_una c.pcb.snd_wnd) c.pcb.snd_nxt

-- The time at which the first segment that has been sent is sent again
resend_time : List Sent → ℕ → ℕ
resend_time [] t = t
resend_time (m ∷ ms) t = min t (add64 m.timestamp resend_timeout)

-- `tcp_timer_update`, the time that it stores
unfoldable pub earliest_timeout : TcpConn → ℕ → ℕ
unfolding resend_time
earliest_timeout c now =
    let t₀ =
      if is_state c.pcb.state time_wait then add64 c.wait_ts time_wait_timeout else uint64_max in
    let t₁ =
      if ltb (rank c.pcb.state) (rank established) then add64 c.wait_ts connect_timeout else t₀ in
    let t₂ = if c.ack_delayed then min t₁ (add64 c.ack_ts ack_timeout) else t₁ in
    let t₃ = if c.zero_wnd then min t₂ (add64 c.zero_wnd_ts resend_timeout) else t₂ in
    let t₄ = if c.tx_exclusive then t₃ else resend_time c.txq t₃ in
    if is_nil c.ingress.rxq_ooo then t₄ else min t₄ (add64 now resend_timeout)

unfoldable pub timer_update : TcpConn → ℕ → TcpConn
timer_update c now = record c { next_timeout = earliest_timeout c now }

-- The loop of `tcp_conn_ack`: the segments that stay, and those that are acknowledged.
unfoldable pub split_acked : List Sent → ℕ → List Sent × List Seg
split_acked [] una = ([], [])
split_acked (m ∷ ms) una =
    let (q, done) = split_acked ms una in
    if wraps_gt m.seg.seg_end una then (m ∷ ms, []) else (q, m.seg ∷ done)

-- `tcp_conn_ack`, with what it puts on the list of buffers to free.
unfoldable pub conn_ack : TcpConn → TcpConn × List Seg
conn_ack c =
    let (q, done) = split_acked c.txq c.pcb.snd_una in
    if c.tx_exclusive then (c, []) else (record c { txq = q }, done)

-- `tcp_conn_set_state`
unfoldable pub set_state : TcpConn → TcpState → ℕ → TcpConn × List Effect
set_state c s now =
    let opens = ltb (rank c.pcb.state) (rank established) && leb (rank established) (rank s) in
    (
      timer_update
          (record c { pcb = record c.pcb { state = s }; tx_wq = if opens then [] else c.tx_wq })
          now,
      if opens then readies c.tx_wq ∷ [] else [],
    )

-- `tcp_conn_put`
unfoldable pub conn_put : TcpConn → TcpConn × List Effect
conn_put c = (record c { refs = c.refs - 1 }, if c.refs == 1 then destroys ∷ [] else [])

-- `tcp_conn_shutdown_rx`
unfoldable pub shutdown_rx : TcpConn → TcpConn × List Effect
shutdown_rx c =
    if c.rx_closed
    then (c, [])
    else (record c { rx_closed = true; rx_wq = [] }, readies c.rx_wq ∷ [])

pending_segs : Option Seg → List Seg
pending_segs none = []
pending_segs (some m) = m ∷ []

sent_segs : List Sent → List Seg
sent_segs [] = []
sent_segs (m ∷ ms) = m.seg ∷ sent_segs ms

-- The second half of `tcp_conn_fail`: egress is closed, and the buffers are freed that nobody uses;
-- the count of the out-of-order queue is left.
unfoldable pub drop_buffers : TcpConn → TcpConn × List Effect
unfolding pending_segs sent_segs
drop_buffers c = (
  record c {
    tx_closed = true;
    tx_wq = if c.tx_closed then c.tx_wq else [];
    txq = if c.tx_exclusive then c.txq else [];
    tx_pending = if c.tx_exclusive then c.tx_pending else none;
    ingress = record c.ingress { rxq = if c.rx_exclusive then c.ingress.rxq else []; rxq_ooo = [] };
  },
  (if c.tx_closed then [] else readies c.tx_wq ∷ [])
      ++ (if c.tx_exclusive then [] else frees (sent_segs c.txq ++ pending_segs c.tx_pending) ∷ [])
      ++ (if c.rx_exclusive then [] else frees c.ingress.rxq ∷ [])
      ++ frees c.ingress.rxq_ooo ∷ [],
)

-- `tcp_conn_fail`
unfoldable pub conn_fail : TcpConn → ℕ → ℕ → TcpConn × List Effect
conn_fail c err now =
    let (c₁, e₁) = set_state (record c { err = err }) closed now in
    let (c₂, e₂) = shutdown_rx c₁ in
    let (c₃, e₃) = drop_buffers c₂ in
    let (c₄, e₄) = if is_state c.pcb.state closed then (c₃, []) else conn_put c₃ in
    (c₄, e₁ ++ e₂ ++ e₃ ++ e₄)
