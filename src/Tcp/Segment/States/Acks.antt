-- ===== src/Tcp/Segment/States/Acks.antt =====
-- The ACK of a segment, as to the state of its connection (runtime/net/tcp_in.c).
use caladan.Common.{
  ◌≡◌, refl, sym, ap, ◌∙◌, ◌⊎◌, inl, inr, Bool, false, not, ◌&&◌, ◌==◌, arith, Bool-cases,
}
use caladan.Tcp.{wraps_lte, wraps_gt}
use caladan.Tcp.Conn.{
  fin_wait1, closing, last_ack, is_state, is_snd_full, TcpPcb, TcpConn, timer_update, set_state,
  conn_put,
}
use caladan.Tcp.Segment.{Arrival, Local, goes_on}
use caladan.Tcp.Segment.Ack.{
  take_ack, take_window, wakes_senders, process_ack, resend, count_acks, ack_moves,
  fast_retransmit_start,
}
use caladan.Tcp.Segment.States.{
  AllAcked, fin_acked, fin_acked_closing, fin_acked_last, here, one, stays, state_of, Follows,
  is_state_lem, conn_ack-pcb, conn_ack-ingress,
}

module _ (c₀ : TcpConn) (a : Arrival) where
  -- What the text and the ACKs of the segment find
  pub record Ready (l : Local) : Type 0 where
    pub text : l.conn.ingress ≡ c₀.ingress
    pub no_fin : l.fin ≡ false
    pub una : (l.conn.pcb.snd_una ≡ a.ack) ⊎ (l.conn.pcb.snd_una ≡ c₀.pcb.snd_una)

  Ready-same :
      (l l' : Local)
      → Ready l
      → l'.conn.ingress ≡ l.conn.ingress
      → l'.fin ≡ l.fin
      → (l'.conn.pcb.snd_una ≡ a.ack) ⊎ (l'.conn.pcb.snd_una ≡ l.conn.pcb.snd_una)
      → Ready l'
  Ready-same l l' r e e' u = record {
    text = e ∙ r.text;
    no_fin = e' ∙ r.no_fin;
    una = elim u [
      | inl x ↦ inl x
      | inr x ↦ elim r.una [ inl y ↦ inl (x ∙ y) | inr y ↦ inr (x ∙ y) ]
    ];
  }

  -- A part that goes on, in the same state
  keeps :
      (l l' : Local)
      → Ready l
      → state_of l' ≡ state_of l
      → l'.conn.ingress ≡ l.conn.ingress
      → l'.fin ≡ l.fin
      → (l'.conn.pcb.snd_una ≡ a.ack) ⊎ (l'.conn.pcb.snd_una ≡ l.conn.pcb.snd_una)
      → Follows c₀ a Ready (state_of l) (goes_on l')
  keeps l l' r s e e' u = (stays c₀ a s, Ready-same l l' r e e' u)

  take_ack-keeps :
      (l : Local)
      → (state_of (take_ack a l) ≡ state_of l)
        × ((take_ack a l).conn.ingress ≡ l.conn.ingress)
        × ((take_ack a l).fin ≡ l.fin)
        × (((take_ack a l).conn.pcb.snd_una ≡ a.ack)
            ⊎ ((take_ack a l).conn.pcb.snd_una ≡ l.conn.pcb.snd_una))
  unfolding take_ack
  take_ack-keeps l =
      let c' = record l.conn { pcb = record l.conn.pcb { snd_una = a.ack } } in
      let p = conn_ack-pcb c' in
      let i = conn_ack-ingress c' in
      elim (Bool-cases (l.conn.pcb.snd_una == a.ack)) [
        | inl e ↦ rw e (refl, refl, refl, inr refl)
        | inr e ↦
            rw e (ap (λ (q : TcpPcb). q.state) p, i, refl, inl (ap (λ (q : TcpPcb). q.snd_una) p))
      ]

  take_window-keeps :
      (l : Local)
      → (state_of (take_window a l) ≡ state_of l)
        × ((take_window a l).conn.ingress ≡ l.conn.ingress)
        × ((take_window a l).fin ≡ l.fin)
        × ((take_window a l).conn.pcb.snd_una ≡ l.conn.pcb.snd_una)
  unfolding take_window
  take_window-keeps l = (grind arith, grind arith, grind arith, grind arith)

  wakes-keeps :
      (full : Bool) (l : Local)
      → (state_of (wakes_senders full l) ≡ state_of l)
        × ((wakes_senders full l).conn.ingress ≡ l.conn.ingress)
        × ((wakes_senders full l).fin ≡ l.fin)
        × ((wakes_senders full l).conn.pcb.snd_una ≡ l.conn.pcb.snd_una)
  wakes-keeps full l = elim (Bool-cases (full && not (is_snd_full l.conn))) [
    | inl e ↦ rw e (refl, refl, refl, refl)
    | inr e ↦ rw e (refl, refl, refl, refl)
  ]

  pub process_ack-Follows :
      (l : Local) → Ready l → Follows c₀ a Ready (state_of l) (process_ack a l)
  unfolding process_ack
  process_ack-Follows l r =
      elim (Bool-cases (wraps_lte l.conn.pcb.snd_una a.ack && wraps_lte a.ack a.snd_nxt)) [
        | inl t ↦
            (let full = is_snd_full l.conn in
              let x = take_ack-keeps l in
              let w = take_window-keeps (take_ack a l) in
              let v = wakes-keeps full (take_window a (take_ack a l)) in
              rw t (
                keeps l (wakes_senders full (take_window a (take_ack a l))) r (v.0 ∙ w.0 ∙ x.0)
                  (v.1 ∙ w.1 ∙ x.1) (v.2 ∙ w.2 ∙ x.2)
                  (elim x.3 [ inl y ↦ inl (v.3 ∙ w.3 ∙ y) | inr y ↦ inr (v.3 ∙ w.3 ∙ y) ])))
        | inr t ↦ elim (Bool-cases (wraps_gt a.ack a.snd_nxt)) [
          | inl g ↦ rw (t, g) here
          | inr g ↦
              (let full = is_snd_full l.conn in
                let v = wakes-keeps full l in
                rw (t, g) (keeps l (wakes_senders full l) r v.0 v.1 v.2 (inr v.3)))
        ]
      ]

  resend-keeps :
      (l : Local)
      → (state_of (resend a l) ≡ state_of l)
        × ((resend a l).conn.ingress ≡ l.conn.ingress)
        × ((resend a l).fin ≡ l.fin)
        × ((resend a l).conn.pcb.snd_una ≡ l.conn.pcb.snd_una)
  unfolding resend fast_retransmit_start
  resend-keeps l = (grind arith, grind arith, grind arith, grind arith)

  pub count_acks-Follows : (l : Local) → Ready l → Follows c₀ a Ready (state_of l) (count_acks a l)
  unfolding count_acks
  count_acks-Follows l r = let k = resend-keeps l in grind (arith, keeps l, k, r)

  pub ack_moves-Follows : (l : Local) → Ready l → Follows c₀ a Ready (state_of l) (ack_moves a l)
  unfolding ack_moves set_state timer_update conn_put
  ack_moves-Follows l r = elim (Bool-cases (l.conn.pcb.snd_una == a.snd_nxt)) [
    | inr e ↦ rw e (here, r)
    | inl e ↦
        (let eq : l.conn.pcb.snd_una ≡ a.snd_nxt = ground (arith, e) in
          let all : AllAcked c₀ a = elim r.una [
            | inl x ↦ inl (sym x ∙ eq)
            | inr x ↦ inr (sym x ∙ eq)
          ] in
          let ready =
            λ (l' : Local) (i : l'.conn.ingress ≡ l.conn.ingress) (n : l'.fin ≡ l.fin)
                (u : l'.conn.pcb.snd_una ≡ l.conn.pcb.snd_una).
              Ready-same l l' r i n (inr u) in
          elim (Bool-cases (is_state (state_of l) fin_wait1)) [
            | inl s ↦
                rw (e, s)
                  (one c₀ a (fin_acked all) (is_state_lem _ _ s) refl, ready _ refl refl refl)
            | inr s ↦ elim (Bool-cases (is_state (state_of l) closing)) [
              | inl t ↦
                  rw (e, s, t)
                    (
                      one c₀ a (fin_acked_closing all) (is_state_lem _ _ t) refl,
                      ready _ refl refl refl,
                    )
              | inr t ↦ elim (Bool-cases (is_state (state_of l) last_ack)) [
                | inl u ↦ rw (e, s, t, u) (one c₀ a (fin_acked_last all) (is_state_lem _ _ u) refl)
                | inr u ↦ rw (e, s, t, u) (here, r)
              ]
            ]
          ])
  ]
