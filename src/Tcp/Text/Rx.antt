-- ===== src/Tcp/Text/Rx.antt =====
-- The whole of `tcp_rx_text` on a segment that is acceptable (runtime/net/tcp_in.c).
use caladan.Common.{
  ℕ, ◌+◌, ◌-◌, ◌%◌, ◌^◌, ◌≤◌, ◌<◌, ◌≡◌, ◌↔◌, refl, sym, ap, ◌∙◌, subst, ◌⊎◌, inl, inr, Bool, true,
  false, not, ◌&&◌, ◌||◌, ◌==◌, leb, if◌then◌else◌, List, none, some, arith, Bool-cases,
}
use caladan.Tcp.{word32, add32, sub32, wraps_lte, Flags, Seg, Ingress}
use caladan.Tcp.Seq.{Near, wraps_lt-Near, wraps_lte-Near}
use caladan.Tcp.Text.{
  is_acceptable, append_text, Drained, drain, finish, insert_ooo, rx_text, after_append, unchanged,
  is_nil,
}
use caladan.Tcp.Text.Stream.{reach}
use caladan.Tcp.Text.Drain.{
  Gap, reaches_fin, fin_step, none_reached, Kept, Pending, IsValid, Advances, Advances-refl,
  Advances-trans, append-Advances, drain_lem,
}
use caladan.Tcp.Text.Queue.{Inserted, Refuses, insert_ooo_lem}

-- The window from `n` up to `edge` and the segment from `s` up to `e` have a position in common.
abbrev pub Overlaps : ℕ → ℕ → ℕ → ℕ → Type 0
Overlaps n edge s e = (n < edge) × (s < edge) × (n < e)

-- On a segment that is not empty, from position `s` up to `e`, near the window from `n` up to
-- `edge`, `is_acceptable` holds exactly if the two overlap and the segment does not stick out of the
-- window at both ends.
pub is_acceptable_iff :
    (n edge s e : ℕ) (flags : Flags)
    → s < e
    → e < s + 2 ^ 30
    → n ≤ edge
    → edge < n + 2 ^ 30
    → edge ≤ s + 2 ^ 30
    → e ≤ edge + 2 ^ 30
    → (is_acceptable (n % word32) (edge - n) (e - s) (s % word32) flags ≡ true)
      ↔ (Overlaps n edge s e × ((n ≤ s) ⊎ (e ≤ edge)))
unfolding is_acceptable
is_acceptable_iff n edge s e flags se near le small old new =
    let last : sub32 (add32 (s % word32) (e - s)) 1 ≡ (e - 1) % word32 = omega (arith, se) in
    let right : add32 (n % word32) (edge - n) ≡ edge % word32 = omega (arith, le) in
    let t₁ = wraps_lte-Near n s (omega (arith, se, near, le, small, old, new)) in
    let t₂ = wraps_lt-Near s edge (omega (arith, se, near, le, small, old, new)) in
    let t₃ = wraps_lte-Near n (e - 1) (omega (arith, se, near, le, small, old, new)) in
    let t₄ = wraps_lt-Near (e - 1) edge (omega (arith, se, near, le, small, old, new)) in
    rw (last, right, t₁, t₂, t₃, t₄) (ground (arith, se, le))

module _ (stream : ℕ → ℕ) (fin_at : ℕ) where
  -- What a segment `m` from `s` up to `e` does to the ingress path. The reader's queue gains the
  -- stream; the FIN is reached exactly if its position is passed; a refused segment changes nothing;
  -- one that starts at or before the next octet is used and read up to its end or that of the window,
  -- and any other that is used is put among those that wait, which are read from the front on, as
  -- far as there is no gap.
  pub record Received (r : Ingress) (m : Seg) (fin : Bool) (n n' edge s e : ℕ) (used : Bool)
      (d : Drained) : Type 0 where
    pub advances : Advances stream fin_at r d.ingress n n' edge
    pub fins : d.fin ≡ (fin || reaches_fin fin_at n n')
    pub drained : used ≡ true → Gap d.ingress.rcv_nxt d.ingress.rxq_ooo
    pub refused : used ≡ false → (d.ingress ≡ r) × Refuses r m
    pub in_order :
        s ≤ n
        → (used ≡ true)
          × (reach edge e ≤ n')
          × Kept stream fin_at edge n' r.rxq_ooo d.ingress.rxq_ooo
    pub out_of_order :
        n < s
        → used ≡ true
        → (q : List Seg) × Inserted m r.rxq_ooo q × Kept stream fin_at edge n' q d.ingress.rxq_ooo

  rx_text_in_order :
      (r r' : Ingress) (m : Seg) (wake fin : Bool) (d : Drained)
      → (r.rcv_wnd == 0) ≡ false
      → wraps_lte m.seg_seq r.rcv_nxt ≡ true
      → append_text r m ≡ some r'
      → drain r'.rxq_ooo (after_append r r' m wake fin) ≡ some d
      → rx_text r m wake fin ≡ finish (some d)
  unfolding rx_text
  rx_text_in_order r r' m wake fin d open_ ordered e h = rw (open_, ordered, e) (ap finish h)

  rx_text_out_of_order :
      (r r' : Ingress) (m : Seg) (wake fin : Bool) (d : Drained)
      → (r.rcv_wnd == 0) ≡ false
      → wraps_lte m.seg_seq r.rcv_nxt ≡ false
      → insert_ooo r m ≡ some r'
      → drain r'.rxq_ooo (unchanged r' wake fin) ≡ some d
      → rx_text r m wake fin ≡ finish (some d)
  unfolding rx_text
  rx_text_out_of_order r r' m wake fin d open_ late e h = rw (open_, late, e) (ap finish h)

  rx_text_dropped :
      (r : Ingress) (m : Seg) (wake fin : Bool)
      → (r.rcv_wnd == 0) ≡ false
      → wraps_lte m.seg_seq r.rcv_nxt ≡ false
      → insert_ooo r m ≡ none
      → rx_text r m wake fin ≡ some (false, unchanged r wake fin)
  unfolding rx_text
  rx_text_dropped r m wake fin open_ late e = rw (open_, late, e)

  finish_lem :
      (d : Drained)
      → (d' : Drained) × (finish (some d) ≡ some (true, d'))
        × (d'.ingress ≡ d.ingress)
        × (d'.fin ≡ d.fin)
  unfolding finish
  finish_lem d =
      (record d { wake = if d.ingress.rcv_wnd == 0 then true else d.wake }, refl, refl, refl)

  -- A reader is woken for a segment with a FIN.
  fin_noted : (fin p f x : Bool) → (fin || ((p || f || x) && f)) ≡ (fin || f)
  fin_noted fin p f x = ground arith

  -- `tcp_rx_text` on a segment of the stream that overlaps the window, with no FIN behind the window,
  -- never stops. It hands the reader the stream from the next octet on, in order and with no gap or
  -- repeat, keeps the end of the window and the order and the count of the out-of-order queue, and
  -- tells of the FIN exactly if its position is passed. A segment that starts at or before the next
  -- octet is read, up to its end or that of the window; any other is put into the out-of-order
  -- queue, or refused, which changes nothing, if that is full or has a segment with all of it. If
  -- the segment is used, those that wait are read from the front, up to the first that starts behind
  -- the next octet.
  pub rx_text_lem :
      (r : Ingress) (m : Seg) (n edge : ℕ) (wake fin : Bool)
      → IsValid stream fin_at r n edge
      → (p : Pending stream fin_at edge m) → Overlaps n edge p.first p.last
      → (used : Bool) × (d : Drained) × (rx_text r m wake fin ≡ some (used, d))
        × (n' : ℕ) × Received r m fin n n' edge p.first p.last used d
  rx_text_lem r m n edge wake fin v p o =
      let near : Near p.first n =
        omega (arith, v.window, v.small, p.not_old, p.not_new, p.carries.forward) in
      let test : wraps_lte m.seg_seq r.rcv_nxt ≡ leb p.first n =
        rw (p.carries.starts, v.position.next) (wraps_lte-Near p.first n near) in
      let size = v.position.window in
      let some_room = o.0 in
      let open_ : (r.rcv_wnd == 0) ≡ false = ground (arith, size, some_room) in
      elim (Bool-cases (leb p.first n)) [
        | inl early ↦
            (let le : p.first ≤ n = ground (arith, early) in
              let (r', e, a, same) =
                append-Advances stream fin_at r r.rxq_ooo m n edge v p le o.2 in
              let far = reach edge p.last in
              let w : IsValid stream fin_at (record r' { rxq_ooo = r'.rxq_ooo }) far edge =
                subst (λ (q : List Seg). IsValid stream fin_at (record r' { rxq_ooo = q }) far edge)
                  (sym same) a.valid in
              let (d, e', n', b) =
                drain_lem stream fin_at r'.rxq_ooo (after_append r r' m wake fin) far edge w in
              let (d', f, i, j) = finish_lem d in
              let c = b.advances in
              let g =
                Advances-trans stream fin_at r (record r' { rxq_ooo = r.rxq_ooo }) d.ingress n far
                  n' edge a (record { forward = c.forward; valid = c.valid; queued = c.queued }) in
              (
                true,
                d',
                rx_text_in_order r r' m wake fin d open_ (test ∙ early) e e' ∙ f,
                n',
                record {
                  advances =
                      subst (λ (x : Ingress). Advances stream fin_at r x n n' edge) (sym i) g;
                  fins =
                      j
                      ∙ b.fins
                      ∙ fin_step stream fin_at fin m.flags.fin (after_append r r' m wake fin).fin n
                          p.last n' edge
                          (fin_noted fin m.flags.push m.flags.fin (not (is_nil r.rxq)))
                          p.carries.marked v.window o.2 p.room c.forward;
                  drained = λ h. subst (λ (x : Ingress). Gap x.rcv_nxt x.rxq_ooo) (sym i) b.gap;
                  refused = λ h. absurd (cc);
                  in_order = λ h. (
                    refl,
                    c.forward,
                    subst (λ (q : List Seg). Kept stream fin_at edge n' q d'.ingress.rxq_ooo) same
                        (subst (λ (x : Ingress). Kept stream fin_at edge n' r'.rxq_ooo x.rxq_ooo)
                          (sym i) b.kept),
                  );
                  out_of_order = λ h u. absurd (omega (arith, le, h));
                },
              ))
        | inr late ↦
            (let after : n < p.first = ground (arith, late) in
              elim (insert_ooo_lem stream fin_at r m n edge v p) [
                | inl e ↦ (
                  false,
                  unchanged r wake fin,
                  rx_text_dropped r m wake fin open_ (test ∙ late) e.0,
                  n,
                  record {
                    advances = Advances-refl stream fin_at r r n edge v refl;
                    fins = none_reached stream fin_at fin n;
                    drained = λ h. absurd (cc);
                    refused = λ h. (refl, e.1);
                    in_order = λ h. absurd (omega (arith, after, h));
                    out_of_order = λ h u. absurd (cc);
                  },
                )
                | inr (r', e, w) ↦
                    (let (d, e', n', b) =
                        drain_lem stream fin_at r'.rxq_ooo (unchanged r' wake fin) n edge w.valid in
                      let (d', f, i, j) = finish_lem d in
                      let c = b.advances in
                      let g =
                        Advances-trans stream fin_at r r' d.ingress n n n' edge
                          (Advances-refl stream fin_at r r' n edge w.valid w.same)
                          (record { forward = c.forward; valid = c.valid; queued = c.queued }) in
                      (
                        true,
                        d',
                        rx_text_out_of_order r r' m wake fin d open_ (test ∙ late) e e' ∙ f,
                        n',
                        record {
                          advances =
                              subst (λ (x : Ingress). Advances stream fin_at r x n n' edge) (sym i)
                                g;
                          fins = j ∙ b.fins;
                          drained =
                              λ h. subst (λ (x : Ingress). Gap x.rcv_nxt x.rxq_ooo) (sym i) b.gap;
                          refused = λ h. absurd (cc);
                          in_order = λ h. absurd (omega (arith, after, h));
                          out_of_order = λ h u. (
                            r'.rxq_ooo,
                            w.inserted,
                            subst (λ (x : Ingress). Kept stream fin_at edge n' r'.rxq_ooo x.rxq_ooo)
                                (sym i) b.kept,
                          );
                        },
                      ))
              ])
      ]
