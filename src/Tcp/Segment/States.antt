-- ===== src/Tcp/Segment/States.antt =====
-- The states of a connection against the diagram of RFC 793 (runtime/net/tcp_in.c).
pub mod Acks
pub mod Moves
use caladan.Common.{
  ℕ, ◌≡◌, refl, sym, ap, ◌⊎◌, inl, inr, ◌∙◌, subst, Bool, true, false, ◌&&◌, ◌||◌, ◌==◌,
  if◌then◌else◌, List, [], ◌∷◌, Option, none, some, arith, Bool-cases,
}
use caladan.Tcp.{add32, wraps_lte, wraps_gt, Seg}
use caladan.Tcp.Text.Fins.{has_fin}
use caladan.Tcp.Conn.{
  TcpState, syn_sent, syn_received, established, fin_wait1, fin_wait2, close_wait, closing,
  last_ack, time_wait, closed, rank, is_state, TcpPcb, TcpConn, readies, split_acked, timer_update,
  econnreset, set_state, conn_fail, conn_put, conn_ack, shutdown_rx, drop_buffers,
}
use caladan.Tcp.Options.{TcpOptions, Scaling}
use caladan.Tcp.Segment.{
  CtlOutcome, no_memory, Arrival, Local, Step, goes_on, jumps, never, ◌>>=◌, start, tx_ctl,
  in_closed,
}
use caladan.Tcp.Segment.Syn.{
  with_options, with_scaling, answer_syn, open_syn, read_syn, in_syn_sent,
}
use caladan.Tcp.Segment.Ack.{
  check_segment, ack_opens, take_ack, take_window, process_ack, resend, count_acks, ack_moves,
  fast_retransmit_start,
}
use caladan.Tcp.Segment.Handler.{
  take_text, with_text, take_fin, handle, at_done, rx_conn_slow, Reply, after_text,
}

-- The peer's FIN is on the segment or on one that waits out of order.
abbrev pub FinComes : TcpConn → Arrival → Type 0
FinComes c a = (a.seg.flags.fin || has_fin c.ingress.rxq_ooo) ≡ true

-- Our SYN is acknowledged by the segment or was before.
abbrev pub SynAcked : TcpConn → Arrival → Type 0
SynAcked c a = (wraps_gt a.ack c.pcb.iss ≡ true) ⊎ (wraps_gt c.pcb.snd_una c.pcb.iss ≡ true)

-- All that we have sent, the FIN included, is acknowledged by the segment or was before.
abbrev pub AllAcked : TcpConn → Arrival → Type 0
AllAcked c a = (a.ack ≡ a.snd_nxt) ⊎ (c.pcb.snd_una ≡ a.snd_nxt)

-- The edges of the diagram that a segment takes in a connection: a SYN while the connection opens,
-- the ACK of our SYN, the peer's FIN, the ACK of our FIN, and a reset.
pub data Edge (c : TcpConn) (a : Arrival) : TcpState → TcpState → Type 0 where
  syn_comes : a.seg.flags.syn ≡ true → Edge c a syn_sent syn_received
  syn_ack_comes : a.seg.flags.syn ≡ true → SynAcked c a → Edge c a syn_sent established
  syn_acked :
      a.seg.flags.ack ≡ true
      → (wraps_lte c.pcb.snd_una a.ack && wraps_lte a.ack a.snd_nxt) ≡ true
      → Edge c a syn_received established
  fin_comes : FinComes c a → Edge c a established close_wait
  fin_comes_first : FinComes c a → Edge c a fin_wait1 closing
  fin_comes_last : FinComes c a → Edge c a fin_wait2 time_wait
  fin_acked : AllAcked c a → Edge c a fin_wait1 fin_wait2
  fin_acked_closing : AllAcked c a → Edge c a closing time_wait
  fin_acked_last : AllAcked c a → Edge c a last_ack closed
  reset_comes : {s : TcpState} → (a.seg.flags.rst || a.seg.flags.syn) ≡ true → Edge c a s closed

pub data Reaches (c : TcpConn) (a : Arrival) : TcpState → TcpState → Type 0 where
  here : {s : TcpState} → Reaches c a s s
  along : {s t u : TcpState} → Edge c a s t → Reaches c a t u → Reaches c a s u

abbrev state_of : Local → TcpState
state_of l = l.conn.pcb.state

module _ (c₀ : TcpConn) (a : Arrival) where
  Reaches-trans : {s t u : TcpState} → Reaches c₀ a s t → Reaches c₀ a t u → Reaches c₀ a s u
  Reaches-trans here k = k
  Reaches-trans (along e h) k = along e (Reaches-trans h k)

  one : {s s' t t' : TcpState} → Edge c₀ a s t → s' ≡ s → t' ≡ t → Reaches c₀ a s' t'
  one e h k = rw (h, k) (along e here)

  stays : {s t : TcpState} → t ≡ s → Reaches c₀ a s t
  stays h = rw h here

  -- A part takes edges only, and where it goes on `P` holds.
  abbrev Follows : (Local → Type 0) → TcpState → Step → Type 0
  Follows P s never = Unit {0}
  Follows P s (goes_on l) = Reaches c₀ a s (state_of l) × P l
  Follows P s (jumps l) = Reaches c₀ a s (state_of l)

  extend-Follows :
      (P : Local → Type 0) (s t : TcpState) (p : Step)
      → Reaches c₀ a s t
      → Follows P t p
      → Follows P s p
  extend-Follows P s t never h k = k
  extend-Follows P s t (goes_on l) h k = (Reaches-trans h k.0, k.1)
  extend-Follows P s t (jumps l) h k = Reaches-trans h k

  bind-Follows :
      (P Q : Local → Type 0) (s : TcpState) (p : Step) (g : Local → Step)
      → Follows P s p
      → ((l : Local) → P l → Follows Q (state_of l) (g l))
      → Follows Q s (p >>= g)
  bind-Follows P Q s never g h k = h
  bind-Follows P Q s (jumps l) g h k = h
  bind-Follows P Q s (goes_on l) g h k = extend-Follows Q s (state_of l) (g l) h.0 (k l h.1)

unrank : ℕ → TcpState
unrank n =
    if n == 0
    then syn_sent
    else if n == 1
    then syn_received
    else if n == 2
    then established
    else if n == 3
    then fin_wait1
    else if n == 4
    then fin_wait2
    else if n == 5
    then close_wait
    else if n == 6
    then closing
    else if n == 7
    then last_ack
    else if n == 8
    then time_wait
    else closed

unrank-rank : (s : TcpState) → unrank (rank s) ≡ s
unfolding unrank
unrank-rank syn_sent = refl
unrank-rank syn_received = refl
unrank-rank established = refl
unrank-rank fin_wait1 = refl
unrank-rank fin_wait2 = refl
unrank-rank close_wait = refl
unrank-rank closing = refl
unrank-rank last_ack = refl
unrank-rank time_wait = refl
unrank-rank closed = refl

pub is_state_lem : (s t : TcpState) → is_state s t ≡ true → s ≡ t
is_state_lem s t h =
    let e : rank s ≡ rank t = ground (arith, h) in sym (unrank-rank s) ∙ ap unrank e ∙ unrank-rank t

if-pcb {ℓ} :
    {A : Type ℓ}
    → (p : TcpPcb) (b : Bool) (x y : TcpConn × A) → x.0.pcb ≡ p
    → y.0.pcb ≡ p
    → (if b then x else y).0.pcb ≡ p
if-pcb p true x y h k = h
if-pcb p false x y h k = k

shutdown_rx-pcb : (c : TcpConn) → (shutdown_rx c).0.pcb ≡ c.pcb
unfolding shutdown_rx
shutdown_rx-pcb c =
    if-pcb c.pcb c.rx_closed (c, [])
      (record c { rx_closed = true; rx_wq = [] }, readies c.rx_wq ∷ []) refl refl

drop_buffers-pcb : (c : TcpConn) → (drop_buffers c).0.pcb ≡ c.pcb
unfolding drop_buffers
drop_buffers-pcb c = refl

conn_put-pcb : (c : TcpConn) → (conn_put c).0.pcb ≡ c.pcb
unfolding conn_put
conn_put-pcb c = refl

set_state-state : (c : TcpConn) (s : TcpState) (now : ℕ) → (set_state c s now).0.pcb.state ≡ s
unfolding set_state timer_update
set_state-state c s now = refl

pub fail-closed : (c : TcpConn) (e now : ℕ) → (conn_fail c e now).0.pcb.state ≡ closed
unfolding conn_fail
fail-closed c e now =
    let c₁ = (set_state (record c { err = e }) closed now).0 in
    let c₂ = (shutdown_rx c₁).0 in
    let c₃ = (drop_buffers c₂).0 in
    let eq : (conn_fail c e now).0.pcb ≡ c₁.pcb =
      if-pcb c₁.pcb (is_state c.pcb.state closed) (c₃, []) (conn_put c₃)
        (drop_buffers-pcb c₂ ∙ shutdown_rx-pcb c₁)
        (conn_put-pcb c₃ ∙ drop_buffers-pcb c₂ ∙ shutdown_rx-pcb c₁) in
    ap (λ (p : TcpPcb). p.state) eq ∙ set_state-state (record c { err = e }) closed now

conn_ack-pcb : (c : TcpConn) → (conn_ack c).0.pcb ≡ c.pcb
unfolding conn_ack
conn_ack-pcb c =
    if-pcb c.pcb c.tx_exclusive (c, [])
      (record c { txq = (split_acked c.txq c.pcb.snd_una).0 }, (split_acked c.txq c.pcb.snd_una).1)
      refl refl

conn_ack-ingress : (c : TcpConn) → (conn_ack c).0.ingress ≡ c.ingress
unfolding conn_ack
conn_ack-ingress c = elim (Bool-cases c.tx_exclusive) [ inl e ↦ rw e refl | inr e ↦ rw e refl ]
