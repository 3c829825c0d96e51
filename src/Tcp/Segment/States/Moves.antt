-- ===== src/Tcp/Segment/States/Moves.antt =====
-- The parts of the handler of a segment take edges of the diagram only (runtime/net/tcp_in.c).
use caladan.Common.{
  ℕ, ◌≡◌, refl, sym, ap, ◌∙◌, ◌⊎◌, inl, inr, subst, Bool, true, false, ◌&&◌, ◌||◌, ltb,
  if◌then◌else◌, List, [], Option, none, some, arith, Bool-cases,
}
use caladan.Tcp.{add32, wraps_lte, wraps_gt, Flags, Seg}
use caladan.Tcp.Text.{rx_text, Drained}
use caladan.Tcp.Text.Fins.{has_fin, Told, rx_text-Told}
use caladan.Tcp.Conn.{
  TcpState, syn_sent, syn_received, closed, is_state, TcpPcb, TcpConn, conn_ack, timer_update,
  econnreset, set_state, conn_fail,
}
use caladan.Tcp.Options.{TcpOptions, Scaling}
use caladan.Tcp.Segment.{
  CtlOutcome, no_memory, Arrival, Local, Step, goes_on, jumps, never, start, tx_ctl, in_closed,
  seg_len,
}
use caladan.Tcp.Segment.Syn.{
  with_options, with_scaling, answer_syn, open_syn, read_syn, in_syn_sent,
}
use caladan.Tcp.Segment.Ack.{check_segment, ack_opens, process_ack, count_acks, ack_moves}
use caladan.Tcp.Segment.Handler.{
  take_text, with_text, take_fin, handle, at_done, rx_conn_slow, Reply, after_text, reads,
}
use caladan.Tcp.Segment.States.{
  Edge, syn_comes, syn_ack_comes, syn_acked, fin_comes, fin_comes_first, fin_comes_last,
  reset_comes, Reaches, here, one, stays, state_of, Follows, bind-Follows, is_state_lem,
  fail-closed, conn_ack-pcb, FinComes, SynAcked,
}
use caladan.Tcp.Segment.States.Acks.{
  Ready, process_ack-Follows, count_acks-Follows, ack_moves-Follows,
}

-- The parts in order
module _ (c₀ : TcpConn) (a : Arrival) where
  abbrev f : Flags
  f = a.seg.flags

  moves :
      {s t : TcpState} (c : TcpConn)
      → Edge c₀ a s t
      → c.pcb.state ≡ s
      → Reaches c₀ a c.pcb.state (set_state c t a.now).0.pcb.state
  unfolding set_state timer_update
  moves c e h = one c₀ a e h refl

  fails :
      (c : TcpConn) (s : TcpState)
      → (f.rst || f.syn) ≡ true
      → Reaches c₀ a s (conn_fail c econnreset a.now).0.pcb.state
  fails c s h = one c₀ a (reset_comes h) refl (fail-closed c econnreset a.now)

  -- The connection is as it was.
  abbrev Fresh : Local → Type 0
  Fresh l = (l.conn ≡ c₀) × (l.fin ≡ false) × (f.ack ≡ true)

  -- A FIN is told of only if there is one.
  abbrev FinTold : Local → Type 0
  FinTold l = (l.fin ≡ false) ⊎ FinComes c₀ a

  abbrev Any : Local → Type 0
  Any l = Unit {0}

  check_segment-Follows :
      (l : Local)
      → l.conn ≡ c₀
      → l.fin ≡ false
      → Follows c₀ a Fresh (state_of l) (check_segment a l)
  unfolding check_segment
  check_segment-Follows l h k = grind (arith, here, fails, h, k)

  ack_opens-Follows : (l : Local) → Fresh l → Follows c₀ a (Ready c₀ a) (state_of l) (ack_opens a l)
  unfolding ack_opens set_state timer_update
  ack_opens-Follows l h =
      let ready : Ready c₀ a l = record {
        text = ap (λ (c : TcpConn). c.ingress) h.0;
        no_fin = h.1;
        una = inr (ap (λ (c : TcpConn). c.pcb.snd_una) h.0);
      } in
      elim (Bool-cases (is_state (state_of l) syn_received)) [
        | inr e ↦ rw e (here, ready)
        | inl e ↦
            elim (Bool-cases (wraps_lte l.conn.pcb.snd_una a.ack && wraps_lte a.ack a.snd_nxt)) [
              | inr k ↦ rw (e, k) here
              | inl k ↦
                  (let k' =
                      subst
                        (λ (c : TcpConn).
                          (wraps_lte c.pcb.snd_una a.ack && wraps_lte a.ack a.snd_nxt) ≡ true)
                        h.0 k in
                    rw (e, k)
                      (
                        one c₀ a (syn_acked h.2 k') (is_state_lem _ _ e) refl,
                        record { text = ready.text; no_fin = h.1; una = ready.una },
                      ))
            ]
      ]

  with_text-Follows :
      (l : Local) (o : Option (Bool × Drained))
      → Told (a.seg.flags.fin || has_fin c₀.ingress.rxq_ooo) o
      → Follows c₀ a FinTold (state_of l) (with_text a l o)
  unfolding with_text after_text
  with_text-Follows l none h = tt
  with_text-Follows l (some (used, d)) h =
      (here, elim (Bool-cases d.fin) [ inl e ↦ inr (h e) | inr e ↦ inl e ])

  take_text-Follows : (l : Local) → Ready c₀ a l → Follows c₀ a FinTold (state_of l) (take_text a l)
  unfolding take_text
  take_text-Follows l r =
      let m = record a.seg { seg_end = add32 a.seg.seg_seq (seg_len a.seg) } in
      elim (Bool-cases (ltb 0 (seg_len a.seg) && reads l.conn.pcb.state)) [
        | inr e ↦ rw e (here, inl r.no_fin)
        | inl e ↦
            rw (e, r.no_fin, r.text)
              (with_text-Follows l (rx_text c₀.ingress m false false)
                (rx_text-Told c₀.ingress m false))
      ]

  take_fin-Follows : (l : Local) → FinTold l → Follows c₀ a Any (state_of l) (take_fin a l)
  unfolding take_fin set_state timer_update
  take_fin-Follows l t = elim (Bool-cases l.fin) [
    | inr e ↦ rw e here
    | inl e ↦ elim t [
      | inl e' ↦ cc
      | inr k ↦
          grind (arith, e, here, moves, fin_comes, fin_comes_last, fin_comes_first, is_state_lem)
    ]
  ]

  tx_ctl-state :
      (c : TcpConn) (fl : Flags) (o : TcpOptions) (r : CtlOutcome) (now : ℕ)
      → (tx_ctl c fl o r now).1.0.pcb.state ≡ c.pcb.state
  unfolding tx_ctl
  tx_ctl-state c fl o no_memory now = refl
  tx_ctl-state c fl o _ now = refl

  answer_syn-Follows :
      (l : Local) (o : TcpOptions) (c : TcpConn) (q : List Seg)
      → f.syn ≡ true
      → c.pcb.state ≡ syn_sent
      → (wraps_gt c.pcb.snd_una c.pcb.iss ≡ true → SynAcked c₀ a)
      → Follows c₀ a Any syn_sent (answer_syn a l o c q)
  unfolding answer_syn set_state timer_update
  answer_syn-Follows l o c q h k acked = elim (Bool-cases (wraps_gt c.pcb.snd_una c.pcb.iss)) [
    | inl w ↦ rw w (one c₀ a (syn_ack_comes h (acked w)) refl refl)
    | inr w ↦ rw w (grind (arith, one, stays, syn_comes, tx_ctl-state, h, k))
  ]

  if-Follows :
      (s : TcpState) (b : Bool) (p q : Step)
      → Follows c₀ a Any s p
      → Follows c₀ a Any s q
      → Follows c₀ a Any s (if b then p else q)
  if-Follows s true p q h k = h
  if-Follows s false p q h k = k

  open_syn-Follows :
      (l : Local) (o : TcpOptions) (c : TcpConn)
      → f.syn ≡ true
      → c.pcb.state ≡ syn_sent
      → c.pcb.snd_una ≡ c₀.pcb.snd_una
      → c.pcb.iss ≡ c₀.pcb.iss
      → Follows c₀ a Any syn_sent (open_syn a l o c)
  unfolding open_syn
  open_syn-Follows l o c h k u i =
      let c' = record c { pcb = record c.pcb { snd_una = a.ack } } in
      let p = conn_ack-pcb c' in
      let told = λ (w : wraps_gt (conn_ack c').0.pcb.snd_una (conn_ack c').0.pcb.iss ≡ true).
        subst (λ (n : ℕ). wraps_gt a.ack n ≡ true) i
          (subst (λ (x : TcpPcb). wraps_gt x.snd_una x.iss ≡ true) p w) in
      let before = λ (w : wraps_gt c.pcb.snd_una c.pcb.iss ≡ true).
        subst (λ (n : ℕ). wraps_gt c₀.pcb.snd_una n ≡ true) i
          (subst (λ (n : ℕ). wraps_gt n c.pcb.iss ≡ true) u w) in
      if-Follows syn_sent a.seg.flags.ack _ _
        (answer_syn-Follows l o (conn_ack c').0 (conn_ack c').1 h
          (ap (λ (x : TcpPcb). x.state) p ∙ k) (λ w. inl (told w)))
        (answer_syn-Follows l o c [] h k (λ w. inr (before w)))

  with_options-Follows :
      (l : Local) (c : TcpConn) (o : Option (Scaling × TcpOptions))
      → f.syn ≡ true
      → c.pcb.state ≡ syn_sent
      → c.pcb.snd_una ≡ c₀.pcb.snd_una
      → c.pcb.iss ≡ c₀.pcb.iss
      → Follows c₀ a Any c.pcb.state (with_options a l c o)
  unfolding with_options
  with_options-Follows l c none h k u i = tt
  with_options-Follows l c (some (s, o)) h k u i =
      subst (λ (t : TcpState). Follows c₀ a Any t (open_syn a l o (with_scaling c s))) (sym k)
        (open_syn-Follows l o (with_scaling c s) h k u i)

  read_syn-Follows :
      (l : Local)
      → f.syn ≡ true
      → state_of l ≡ syn_sent
      → l.conn ≡ c₀
      → Follows c₀ a Any (state_of l) (read_syn a l)
  unfolding read_syn
  read_syn-Follows l h k e =
      let c = record l.conn {
        pcb = record l.conn.pcb { irs = a.seg.seg_seq };
        ingress = record l.conn.ingress { rcv_nxt = add32 a.seg.seg_seq 1 };
      } in
      with_options-Follows l c _ h k (ap (λ (x : TcpConn). x.pcb.snd_una) e)
        (ap (λ (x : TcpConn). x.pcb.iss) e)

  in_syn_sent-Follows :
      (l : Local)
      → state_of l ≡ syn_sent
      → l.conn ≡ c₀
      → Follows c₀ a Any (state_of l) (in_syn_sent a l)
  unfolding in_syn_sent
  in_syn_sent-Follows l h e = grind (arith, here, fails, read_syn-Follows)

  in_closed-Follows : (l : Local) → Follows c₀ a Any (state_of l) (in_closed a l)
  in_closed-Follows l = grind (arith, here)

  handle-Follows :
      (l : Local) → l.conn ≡ c₀ → l.fin ≡ false → Follows c₀ a Any (state_of l) (handle a l)
  unfolding handle
  handle-Follows l h₀ k₀ =
      let s = state_of l in
      let chain =
        bind-Follows c₀ a FinTold Any s _ (take_fin a)
          (bind-Follows c₀ a (Ready c₀ a) FinTold s _ (take_text a)
            (bind-Follows c₀ a (Ready c₀ a) (Ready c₀ a) s _ (ack_moves a)
              (bind-Follows c₀ a (Ready c₀ a) (Ready c₀ a) s _ (count_acks a)
                (bind-Follows c₀ a (Ready c₀ a) (Ready c₀ a) s _ (process_ack a)
                  (bind-Follows c₀ a Fresh (Ready c₀ a) s (check_segment a l) (ack_opens a)
                    (check_segment-Follows l h₀ k₀) ack_opens-Follows)
                  (process_ack-Follows c₀ a))
                (count_acks-Follows c₀ a))
              (ack_moves-Follows c₀ a))
            take_text-Follows)
          take_fin-Follows in
      elim (Bool-cases (is_state (state_of l) closed)) [
        | inl h ↦ rw h (in_closed-Follows l)
        | inr h ↦ elim (Bool-cases (is_state (state_of l) syn_sent)) [
          | inl k ↦ rw (h, k) (in_syn_sent-Follows l (is_state_lem _ _ k) h₀)
          | inr k ↦ rw (h, k) chain
        ]
      ]

  at_done-state : (l : Local) → (at_done a l).conn.pcb.state ≡ state_of l
  unfolding at_done timer_update
  at_done-state l = grind arith

  ends :
      (s : TcpState) (p : Step)
      → Follows c₀ a Any s p
      → (r : Reply)
      → (elim p [ never ↦ none | goes_on l ↦ some (at_done a l) | jumps l ↦ some (at_done a l) ])
        ≡ some r
      → Reaches c₀ a s r.conn.pcb.state
  ends s never k r h = grind arith
  ends s (goes_on l) k r h = grind (arith, at_done-state)
  ends s (jumps l) k r h = grind (arith, at_done-state)

-- A segment whose handler returns moves the state of a connection along edges of the diagram of
-- RFC 793 only, in order, and only for the event of each edge: SYN-SENT is left for a SYN or an RST, to
-- ESTABLISHED only with our SYN acknowledged, SYN-RECEIVED for an ACK of what we have sent, a FIN of the peer is on the segment or on one that
-- waits out of order, the ACK of our FIN is that of all that we have sent, and a reset comes with an
-- RST or a SYN.
pub rx_conn_slow-Reaches :
    (c : TcpConn) (a : Arrival) (r : Reply)
    → rx_conn_slow c a ≡ some r
    → Reaches c a c.pcb.state r.conn.pcb.state
unfolding rx_conn_slow
rx_conn_slow-Reaches c a r h =
    ends c a c.pcb.state (handle a (start c)) (handle-Follows c a (start c) refl refl) r h
