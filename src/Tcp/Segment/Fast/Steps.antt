-- ===== src/Tcp/Segment/Fast/Steps.antt =====
-- What the slow path does of a segment that the fast path takes (runtime/net/tcp_in.c).
use caladan.Common.{
  ℕ, ◌^◌, ◌<◌, ◌≤◌, ◌≡◌, refl, sym, ap, ◌⊎◌, inl, inr, ◌∙◌, true, false, ◌==◌, ltb, leb,
  if◌then◌else◌, List, [], ◌∷◌, none, arith, Bool-cases,
}
use caladan.Tcp.{word32, add32, wraps_lte, wraps_gt, Seg}
use caladan.Tcp.Text.{rx_text, enqueue, after_append, Drained}
use caladan.Tcp.Text.InOrder.{is_acceptable-next, rx_text-next}
use caladan.Tcp.Conn.{
  established, closed, syn_sent, is_state, TcpConn, readies, frees, is_snd_full, conn_ack,
}
use caladan.Tcp.Segment.{Arrival, Local, goes_on, jumps, start, seg_len}
use caladan.Tcp.Segment.Ack.{
  check_segment, ack_opens, take_ack, take_window, process_ack, count_acks, ack_moves,
}
use caladan.Tcp.Segment.Handler.{Reply, handle, take_text, with_text, take_fin, after_text, reads}
use caladan.Tcp.Segment.Fast.{text_len, fast_ack, fast_window, fast_text, rx_conn_fast}

-- The connection ahead of the text on the fast path, and what it frees.
abbrev pub rx_c : TcpConn → Arrival → TcpConn
rx_c c a = if wraps_lte c.pcb.snd_una a.ack then fast_window (fast_ack c a).0 a else c

abbrev pub rx_q : TcpConn → Arrival → List Seg
rx_q c a = if wraps_lte c.pcb.snd_una a.ack then (fast_ack c a).1 else []

-- What the tests of the fast path leave, with the limits of the segment.
pub record IsFast (c : TcpConn) (a : Arrival) : Type 0 where
  pub not_fin : a.seg.flags.fin ≡ false
  pub not_rst : a.seg.flags.rst ≡ false
  pub not_syn : a.seg.flags.syn ≡ false
  pub acks : a.seg.flags.ack ≡ true
  pub not_empty : 0 < text_len a.seg
  pub not_future : wraps_gt a.ack a.snd_nxt ≡ false
  pub open_ : c.pcb.state ≡ established
  pub not_full : is_snd_full c ≡ false
  pub next : a.seg.seg_seq ≡ c.ingress.rcv_nxt
  pub in_order : c.ingress.rxq_ooo ≡ []
  pub fits : text_len a.seg < c.ingress.rcv_wnd
  pub small : c.ingress.rcv_wnd < 2 ^ 31
  pub word : c.ingress.rcv_nxt < word32
  pub ack_word : a.ack < word32
  pub nxt_word : a.snd_nxt < word32
  pub ends : a.seg.seg_end ≡ add32 a.seg.seg_seq (text_len a.seg)

-- The ACK repeats one with a larger window.
abbrev pub Shrinks : TcpConn → Arrival → Type 0
Shrinks c a = (c.pcb.snd_una ≡ a.ack) × (a.win < c.pcb.snd_wnd)

-- The fields that the two paths treat alike whatever the window: all but the send window, the count
-- of repeated ACKs and the next timeout.
pub record Like (x y : TcpConn) : Type 0 where
  pub states : x.pcb.state ≡ y.pcb.state
  pub unas : x.pcb.snd_una ≡ y.pcb.snd_una
  pub ingresses : x.ingress ≡ y.ingress
  pub readers : x.rx_wq ≡ y.rx_wq
  pub txqs : x.txq ≡ y.txq
  pub delays : x.ack_delayed ≡ y.ack_delayed
  pub counts : x.acks_delayed_cnt ≡ y.acks_delayed_cnt
  pub times : x.ack_ts ≡ y.ack_ts
  pub senders : x.tx_wq ≡ y.tx_wq
  pub last_acks : x.tx_last_ack ≡ y.tx_last_ack
  pub last_wins : x.tx_last_win ≡ y.tx_last_win

-- The two replies: the slow path also frees an empty list and readies nobody.
pub record Agrees (c : TcpConn) (a : Arrival) (slow fast : Reply) : Type 0 where
  pub control : (slow.conn.pcb ≡ fast.conn.pcb) ⊎ Shrinks c a
  pub conns : Like slow.conn fast.conn
  pub uses : slow.used ≡ fast.used
  pub acts_alike : slow.effects ≡ frees [] ∷ readies [] ∷ fast.effects

-- Nothing of the local variables but the connection and the list `q` has changed.
pub record IsClean (l : Local) (q : List Seg) : Type 0 where
  pub no_ack : l.do_ack ≡ false
  pub no_fin : l.fin ≡ false
  pub acked : l.q ≡ q
  pub no_waiters : l.waiters ≡ []
  pub no_retransmit : l.retransmit ≡ none
  pub no_effects : l.effects ≡ []

not_after : (x y : ℕ) → x < word32 → y < word32 → wraps_gt x y ≡ false → wraps_lte x y ≡ true
unfolding wraps_gt wraps_lte
not_after x y p q h = ground arith

module _ (c : TcpConn) (a : Arrival) (h : IsFast c a) where
  seg_len-text : seg_len a.seg ≡ text_len a.seg
  seg_len-text = rw h.not_fin refl

  not_zero : (seg_len a.seg == 0) ≡ false
  not_zero = let p = h.not_empty in rw seg_len-text (ground (arith, p))

  check : check_segment a (start c) ≡ goes_on (start c)
  unfolding check_segment
  check =
      let some_text : 0 < seg_len a.seg = rw seg_len-text h.not_empty in
      let fits : seg_len a.seg ≤ c.ingress.rcv_wnd = rw seg_len-text (omega (arith, h.fits)) in
      let ok =
        is_acceptable-next a.seg.seg_seq c.ingress.rcv_nxt c.ingress.rcv_wnd (seg_len a.seg)
          a.seg.flags h.next h.word h.small some_text fits in
      rw (ok, h.not_rst, h.not_syn, h.acks) refl

  opens : ack_opens a (start c) ≡ goes_on (start c)
  unfolding ack_opens
  opens = rw h.open_ refl

  abbrev pub processed : Local
  processed =
      if wraps_lte c.pcb.snd_una a.ack then take_window a (take_ack a (start c)) else start c

  process : process_ack a (start c) ≡ goes_on processed
  unfolding process_ack
  process =
      let due = not_after a.ack a.snd_nxt h.ack_word h.nxt_word h.not_future in
      elim (Bool-cases (wraps_lte c.pcb.snd_una a.ack)) [
        | inl e ↦ rw (e, due, h.not_full) refl
        | inr e ↦ rw (e, h.not_full, h.not_future) refl
      ]

  processed-IsClean : IsClean processed (rx_q c a)
  unfolding take_ack take_window fast_ack conn_ack
  processed-IsClean = record {
    no_ack = grind arith;
    no_fin = grind arith;
    acked = grind arith;
    no_waiters = grind arith;
    no_retransmit = grind arith;
    no_effects = grind arith;
  }

  processed-Like : Like processed.conn (rx_c c a)
  unfolding take_ack take_window fast_ack fast_window conn_ack
  processed-Like = record {
    states = grind arith;
    unas = grind arith;
    ingresses = grind arith;
    readers = grind arith;
    txqs = grind arith;
    delays = grind arith;
    counts = grind arith;
    times = grind arith;
    senders = grind arith;
    last_acks = grind arith;
    last_wins = grind arith;
  }

  -- Unless the window shrinks, the control block is the same.
  processed-pcb : (processed.conn.pcb ≡ (rx_c c a).pcb) ⊎ Shrinks c a
  unfolding take_ack take_window fast_ack fast_window conn_ack
  processed-pcb = elim (Bool-cases (c.pcb.snd_una == a.ack)) [
    | inr e ↦ inl (grind (arith, e))
    | inl e ↦ elim (Bool-cases (leb c.pcb.snd_wnd a.win)) [
      | inl w ↦ inl (grind (arith, e, w))
      | inr w ↦ inr (ground (arith, e), ground (arith, w))
    ]
  ]

  abbrev pub counted : Local → Local
  counted l =
      if l.conn.pcb.snd_una == a.ack then record l { conn = record l.conn { rep_acks = 0 } } else l

  counted-same : (l : Local) → (counted l).conn.pcb ≡ l.conn.pcb
  counted-same l = elim (Bool-cases (l.conn.pcb.snd_una == a.ack)) [
    | inl e ↦ rw e refl
    | inr e ↦ rw e refl
  ]

  count : (l : Local) → count_acks a l ≡ goes_on (counted l)
  unfolding count_acks
  count l = let z = not_zero in grind (arith, z)

  moved : (l : Local) → l.conn.pcb.state ≡ established → ack_moves a l ≡ goes_on l
  unfolding ack_moves
  moved l e = grind (arith, e)

  pub rx_c-same : ((rx_c c a).ingress ≡ c.ingress) × ((rx_c c a).pcb.state ≡ established)
  unfolding fast_ack fast_window conn_ack
  rx_c-same = let e = h.open_ in (grind arith, grind (arith, e))

  pub counted-IsClean : IsClean (counted processed) (rx_q c a)
  counted-IsClean =
      let k = processed-IsClean in
      record {
        no_ack = grind (arith, k.no_ack);
        no_fin = grind (arith, k.no_fin);
        acked = grind (arith, k.acked);
        no_waiters = grind (arith, k.no_waiters);
        no_retransmit = grind (arith, k.no_retransmit);
        no_effects = grind (arith, k.no_effects);
      }

  pub counted-Like : Like (counted processed).conn (rx_c c a)
  counted-Like =
      let k = processed-Like in
      record {
        states = grind (arith, k.states);
        unas = grind (arith, k.unas);
        ingresses = grind (arith, k.ingresses);
        readers = grind (arith, k.readers);
        txqs = grind (arith, k.txqs);
        delays = grind (arith, k.delays);
        counts = grind (arith, k.counts);
        times = grind (arith, k.times);
        senders = grind (arith, k.senders);
        last_acks = grind (arith, k.last_acks);
        last_wins = grind (arith, k.last_wins);
      }

  pub counted-pcb : ((counted processed).conn.pcb ≡ (rx_c c a).pcb) ⊎ Shrinks c a
  counted-pcb = elim processed-pcb [ inr s ↦ inr s | inl e ↦ inl (counted-same processed ∙ e) ]

  -- What `tcp_rx_text` gives
  abbrev pub text_read : Drained
  text_read =
      after_append c.ingress (record (enqueue c.ingress a.seg) { rxq_ooo = [] }) a.seg false false

  whole : record a.seg { seg_end = add32 a.seg.seg_seq (seg_len a.seg) } ≡ a.seg
  whole = ap (λ (x : ℕ). record a.seg { seg_end = x }) (rw seg_len-text (sym h.ends))

  take :
      (l : Local)
      → l.conn.ingress ≡ c.ingress
      → l.conn.pcb.state ≡ established
      → l.fin ≡ false
      → take_text a l ≡ goes_on (after_text a l true text_read)
  unfolding take_text with_text
  take l i s f =
      let m = record a.seg { seg_end = add32 a.seg.seg_seq (seg_len a.seg) } in
      let some_text : ltb 0 (seg_len a.seg) ≡ true =
        rw seg_len-text (let p = h.not_empty in ground (arith, p)) in
      let r =
        rx_text-next c.ingress a.seg (text_len a.seg) false false h.word h.small h.next h.ends
          h.fits h.in_order in
      let reading : reads l.conn.pcb.state ≡ true = rw s refl in
      let arg : rx_text l.conn.ingress m false l.fin ≡ rx_text c.ingress a.seg false false =
        rw (i, f, whole) refl in
      rw (some_text, reading) (ap (with_text a l) (arg ∙ r))

  end :
      (l : Local)
      → l.fin ≡ false
      → take_fin a (after_text a l true text_read) ≡ jumps (after_text a l true text_read)
  unfolding take_fin after_text
  end l f = let e = h.not_fin in grind (arith, e)

  abbrev pub last : Local
  last = after_text a (counted processed) true text_read

  pub chain : handle a (start c) ≡ jumps last
  unfolding handle
  chain =
      let same = rx_c-same in
      let k = counted-Like in
      let here = k.states ∙ same.1 in
      let text_here = take (counted processed) (k.ingresses ∙ same.0) here counted-IsClean.no_fin in
      let stop : is_state (start c).conn.pcb.state closed ≡ false = rw h.open_ refl in
      let not_sent : is_state (start c).conn.pcb.state syn_sent ≡ false = rw h.open_ refl in
      rw (stop, not_sent, check)
        (rw opens (
          rw process (
            rw (count processed) (
              rw (moved (counted processed) here)
                (rw text_here (end (counted processed) counted-IsClean.no_fin))))))

  pub fast-text : rx_conn_fast c a ≡ fast_text (rx_c c a) a (rx_q c a)
  unfolding rx_conn_fast
  fast-text = elim (Bool-cases (wraps_lte c.pcb.snd_una a.ack)) [
    | inl e ↦ rw e refl
    | inr e ↦ rw e refl
  ]
