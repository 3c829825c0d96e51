-- ===== src/Tcp/Text/Fins.antt =====
-- Where the FIN comes from that `tcp_rx_text` tells of (runtime/net/tcp_in.c).
use caladan.Common.{
  ◌≡◌, refl, ap, inl, inr, Bool, true, false, ◌||◌, ◌==◌, leb, if◌then◌else◌, List, [], ◌∷◌, ◌++◌,
  Option, none, some, arith, Bool-cases,
}
use caladan.Tcp.{add32, sub32, wraps_lte, wraps_gt, wraps_gte, Seg, Ingress}
use caladan.Tcp.Text.{
  append_text, clip_head, clip_tail, enqueue, Place, covered, ahead, placed, find_place, Drained,
  drain, finish, insert_ooo, ooo_max_size, rx_text, after_append, unchanged,
}

-- Whether a segment of the queue has a FIN
abbrev pub has_fin : List Seg → Bool
has_fin [] = false
has_fin (m ∷ ms) = m.flags.fin || has_fin ms

abbrev Same : Ingress → Option Ingress → Type 0
Same r none = Unit {0}
Same r (some r') = r'.rxq_ooo ≡ r.rxq_ooo

append_text-Same : (r : Ingress) (m : Seg) → Same r (append_text r m)
unfolding append_text enqueue
append_text-Same r m = go (clip_head r.rcv_nxt m)
  where
    end : (o : Option Seg) → Same r (elim o [ none ↦ none | some m'' ↦ some (enqueue r m'') ])
    end none = tt
    end (some m'') = refl

    go :
        (o : Option Seg)
        → Same r (elim o [
          | none ↦ none
          | some m' ↦ elim (clip_tail (add32 r.rcv_nxt r.rcv_wnd) m') [
            | none ↦ none
            | some m'' ↦ some (enqueue r m'')
          ]
        ])
    go none = tt
    go (some m') = end (clip_tail (add32 r.rcv_nxt r.rcv_wnd) m')

-- A FIN is told of only if `b` holds.
abbrev Tells : Bool → Option Drained → Type 0
Tells b none = Unit {0}
Tells b (some d) = d.fin ≡ true → b ≡ true

weaken : (b b' : Bool) (o : Option Drained) → Tells b o → (b ≡ true → b' ≡ true) → Tells b' o
weaken b b' none h k = tt
weaken b b' (some d) h k = λ e. k (h e)

drain-Tells : (ps : List Seg) (d : Drained) → Tells (d.fin || has_fin ps) (drain ps d)
unfolding drain
drain-Tells [] d = λ e. ground (arith, e)
drain-Tells (pos ∷ ps) d =
    let r = record d.ingress { rxq_ooo_len = sub32 d.ingress.rxq_ooo_len 1 } in
    elim (Bool-cases (wraps_lte pos.seg_end d.ingress.rcv_nxt)) [
      | inl old ↦ rw old (
          weaken (d.fin || has_fin ps) (d.fin || (pos.flags.fin || has_fin ps)) _
            (drain-Tells ps (record d { ingress = r; freed = d.freed ++ pos ∷ [] }))
            (λ e. ground (arith, e)))
      | inr late ↦ elim (Bool-cases (wraps_gt pos.seg_seq d.ingress.rcv_nxt)) [
        | inl beyond ↦ rw (late, beyond) (λ e. ground (arith, e))
        | inr ready ↦
            rw (late, ready)
              (go
                (λ r'.
                  drain-Tells ps
                    (record d { ingress = r'; wake = true; fin = d.fin || pos.flags.fin }))
                (append_text r pos))
      ]
    ]
  where
    go :
        ((r' : Ingress)
          → Tells
              ((d.fin || pos.flags.fin) || has_fin ps)
              (drain ps (record d { ingress = r'; wake = true; fin = d.fin || pos.flags.fin })))
        → (o : Option Ingress)
        → Tells (d.fin || (pos.flags.fin || has_fin ps)) (elim o [
          | none ↦ none
          | some r' ↦
              drain ps (record d { ingress = r'; wake = true; fin = d.fin || pos.flags.fin })
        ])
    go h none = tt
    go h (some r') = weaken _ _ _ (h r') (λ e. ground (arith, e))

abbrev Adds : Bool → Place → Type 0
Adds b covered = Unit {0}
Adds b ahead = Unit {0}
Adds b (placed q) = has_fin q ≡ true → b ≡ true

find_place-Adds : (ps : List Seg) (m : Seg) → Adds (m.flags.fin || has_fin ps) (find_place ps m)
unfolding find_place
find_place-Adds [] m = tt
find_place-Adds (pos ∷ ps) m = go (find_place ps m) (find_place-Adds ps m)
  where
    go :
        (r : Place)
        → Adds (m.flags.fin || has_fin ps) r
        → Adds (m.flags.fin || (pos.flags.fin || has_fin ps)) (elim r [
          | covered ↦ covered
          | placed q ↦ placed (pos ∷ q)
          | ahead ↦
              if wraps_gt m.seg_end pos.seg_end
              then placed (pos ∷ m ∷ ps)
              else if wraps_gte m.seg_seq pos.seg_seq
              then covered
              else ahead
        ])
    go covered f = tt
    go (placed q) f = elim (Bool-cases (has_fin q)) [
      | inl e ↦ let k = f e in λ h. ground (arith, k)
      | inr e ↦ λ h. ground (arith, e, h)
    ]
    go ahead f = elim (Bool-cases (wraps_gt m.seg_end pos.seg_end)) [
      | inl later ↦ rw later (λ h. ground (arith, h))
      | inr not_later ↦ rw not_later (elim (Bool-cases (wraps_gte m.seg_seq pos.seg_seq)) [
        | inl within ↦ rw within tt
        | inr before ↦ rw before tt
      ])
    ]

abbrev Grows : Bool → Option Ingress → Type 0
Grows b none = Unit {0}
Grows b (some r') = has_fin r'.rxq_ooo ≡ true → b ≡ true

insert_ooo-Grows :
    (r : Ingress) (m : Seg) → Grows (m.flags.fin || has_fin r.rxq_ooo) (insert_ooo r m)
unfolding insert_ooo
insert_ooo-Grows r m = elim (Bool-cases (leb ooo_max_size r.rxq_ooo_len)) [
  | inl full ↦ rw full tt
  | inr space ↦ rw space (go (find_place r.rxq_ooo m) (find_place-Adds r.rxq_ooo m))
]
  where
    go :
        (c : Place)
        → Adds (m.flags.fin || has_fin r.rxq_ooo) c
        → let o : Option Ingress = elim c [
          | covered ↦ none
          | placed q ↦ some (record r { rxq_ooo = q; rxq_ooo_len = add32 r.rxq_ooo_len 1 })
          | ahead ↦ some (record r { rxq_ooo = m ∷ r.rxq_ooo; rxq_ooo_len = add32 r.rxq_ooo_len 1 })
        ] in
          Grows (m.flags.fin || has_fin r.rxq_ooo) o
    go covered f = tt
    go (placed q) f = f
    go ahead f = λ e. e

-- What the whole of `tcp_rx_text` tells
abbrev pub Told : Bool → Option (Bool × Drained) → Type 0
Told b none = Unit {0}
Told b (some (used, d)) = d.fin ≡ true → b ≡ true

finish-Told : (b : Bool) (o : Option Drained) → Tells b o → Told b (finish o)
unfolding finish
finish-Told b none h = tt
finish-Told b (some d) h = h

-- `tcp_rx_text` tells of a FIN only if the segment has one, or one that waits out of order.
pub rx_text-Told :
    (r : Ingress) (m : Seg) (wake : Bool)
    → Told (m.flags.fin || has_fin r.rxq_ooo) (rx_text r m wake false)
unfolding rx_text
rx_text-Told r m wake = elim (Bool-cases (r.rcv_wnd == 0)) [
  | inl shut ↦ rw shut (λ e. cc)
  | inr open_ ↦ elim (Bool-cases (wraps_lte m.seg_seq r.rcv_nxt)) [
    | inl due ↦ rw (open_, due) (in_order (append_text r m) (append_text-Same r m))
    | inr late ↦ rw (open_, late) (out_of_order (insert_ooo r m) (insert_ooo-Grows r m))
  ]
]
  where
    in_order :
        (o : Option Ingress)
        → Same r o
        → Told (m.flags.fin || has_fin r.rxq_ooo) (elim o [
          | none ↦ none
          | some r' ↦ finish (drain r'.rxq_ooo (after_append r r' m wake false))
        ])
    in_order none s = tt
    in_order (some r') s =
        let q = ap has_fin s in
        finish-Told _ _ (
          weaken _ _ (drain r'.rxq_ooo (after_append r r' m wake false))
            (drain-Tells r'.rxq_ooo (after_append r r' m wake false)) (λ e. ground (arith, e, q)))

    out_of_order :
        (o : Option Ingress)
        → Grows (m.flags.fin || has_fin r.rxq_ooo) o
        → Told (m.flags.fin || has_fin r.rxq_ooo) (elim o [
          | none ↦ some (false, unchanged r wake false)
          | some r' ↦ finish (drain r'.rxq_ooo (unchanged r' wake false))
        ])
    out_of_order none g = λ e. cc
    out_of_order (some r') g = finish-Told _ _ (
        weaken _ _ (drain r'.rxq_ooo (unchanged r' wake false))
          (drain-Tells r'.rxq_ooo (unchanged r' wake false)) (λ e. g (ground (arith, e))))
