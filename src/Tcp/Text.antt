-- ===== src/Tcp/Text.antt =====
-- Text of segments in the ingress path (runtime/net/tcp_in.c). `none` is a stop at the BUG_ON of
-- `mbuf_pull` or `mbuf_trim`.
pub mod Stream
pub mod Drain
pub mod Queue
pub mod Fins
pub mod Rx
pub mod InOrder
use caladan.Common.{
  ℕ, suc, ◌+◌, ◌-◌, ◌%◌, Bool, true, false, not, ◌&&◌, ◌||◌, ◌==◌, ltb, leb, if◌then◌else◌, List,
  [], ◌∷◌, ◌++◌, Option, none, some, length, take, drop,
}
use caladan.Tcp.{
  word32, add32, sub32, wraps_lt, wraps_lte, wraps_gt, wraps_gte, Flags, Seg, Ingress,
}

-- `is_acceptable`
unfoldable pub is_acceptable : ℕ → ℕ → ℕ → ℕ → Flags → Bool
is_acceptable rcv_nxt rcv_wnd len seq flags =
    if len == 0 && rcv_wnd == 0
    then (if flags.ack || flags.urg || flags.rst then true else seq == rcv_nxt)
    else if len == 0
    then wraps_lte rcv_nxt seq && wraps_lt seq (add32 rcv_nxt rcv_wnd)
    else if rcv_wnd == 0
    then false
    else (wraps_lte rcv_nxt seq && wraps_lt seq (add32 rcv_nxt rcv_wnd))
      || (wraps_lte rcv_nxt (sub32 (add32 seq len) 1)
          && wraps_lt (sub32 (add32 seq len) 1) (add32 rcv_nxt rcv_wnd))

-- The head of the text is clipped at the next octet.
unfoldable pub clip_head : ℕ → Seg → Option Seg
clip_head rcv_nxt m =
    let len = sub32 rcv_nxt m.seg_seq in
    if wraps_lt m.seg_seq rcv_nxt
    then (if ltb (length m.text) len
        then none
        else some (record m { text = drop len m.text; seg_seq = add32 m.seg_seq len }))
    else some m

-- The tail of the text is clipped at the end of the window.
unfoldable pub clip_tail : ℕ → Seg → Option Seg
clip_tail edge m =
    let len = sub32 m.seg_end edge in
    if wraps_lt edge m.seg_end
    then (if ltb (length m.text) len
        then none
        else some (record m { text = take (length m.text - len) m.text; seg_end = edge }))
    else some m

unfoldable pub enqueue : Ingress → Seg → Ingress
enqueue r m = record r {
  rcv_nxt = m.seg_end;
  rcv_wnd = sub32 r.rcv_wnd (sub32 m.seg_end m.seg_seq);
  rxq = r.rxq ++ m ∷ [];
}

-- `tcp_rx_append_text`
unfoldable pub append_text : Ingress → Seg → Option Ingress
append_text r m = elim (clip_head r.rcv_nxt m) [
  | none ↦ none
  | some m' ↦ elim (clip_tail (add32 r.rcv_nxt r.rcv_wnd) m') [
    | none ↦ none
    | some m'' ↦ some (enqueue r m'')
  ]
]

-- Where the loop over the out-of-order queue, from its last segment on, puts a segment: nowhere, in
-- the list as it is then, or ahead of all that it has passed.
pub data Place : Type 0 where
  covered ahead : Place
  placed : List Seg → Place

pub find_place : List Seg → Seg → Place
find_place [] m = ahead
find_place (pos ∷ ps) m = elim (find_place ps m) [
  | covered ↦ covered
  | placed q ↦ placed (pos ∷ q)
  | ahead ↦
      if wraps_gt m.seg_end pos.seg_end
      then placed (pos ∷ m ∷ ps)
      else if wraps_gte m.seg_seq pos.seg_seq
      then covered
      else ahead
]

-- What the drain loop has done: the state, whether to wake a reader, whether a FIN is reached, and
-- the segments that were freed.
pub record Drained : Type 0 where
  pub ingress : Ingress
  pub wake : Bool
  pub fin : Bool
  pub freed : List Seg

-- The loop at the label `drain`, over the out-of-order queue.
unfoldable pub drain : List Seg → Drained → Option Drained
drain [] d = some (record d { ingress = record d.ingress { rxq_ooo = [] } })
drain (pos ∷ ps) d =
    let r = record d.ingress { rxq_ooo_len = sub32 d.ingress.rxq_ooo_len 1 } in
    let old = drain ps (record d { ingress = r; freed = d.freed ++ pos ∷ [] }) in
    let next = λ (r' : Ingress).
      drain ps (record d { ingress = r'; wake = true; fin = d.fin || pos.flags.fin }) in
    if wraps_lte pos.seg_end d.ingress.rcv_nxt
    then old
    else if wraps_gt pos.seg_seq d.ingress.rcv_nxt
    then some (record d { ingress = record d.ingress { rxq_ooo = pos ∷ ps } })
    else elim (append_text r pos) [ none ↦ none | some r' ↦ next r' ]

abbrev pub ooo_max_size : ℕ
ooo_max_size = 2048

-- Behind the loop: a reader is also woken if the window is closed.
unfoldable pub finish : Option Drained → Option (Bool × Drained)
finish none = none
finish (some d) = some (true, record d { wake = if d.ingress.rcv_wnd == 0 then true else d.wake })

-- An out-of-order segment is put into its queue; `none` if the segment is dropped.
pub insert_ooo : Ingress → Seg → Option Ingress
insert_ooo r m = if leb ooo_max_size r.rxq_ooo_len then none else elim (find_place r.rxq_ooo m) [
  | covered ↦ none
  | placed q ↦ some (record r { rxq_ooo = q; rxq_ooo_len = add32 r.rxq_ooo_len 1 })
  | ahead ↦ some (record r { rxq_ooo = m ∷ r.rxq_ooo; rxq_ooo_len = add32 r.rxq_ooo_len 1 })
]

abbrev pub is_nil : List Seg → Bool
is_nil [] = true
is_nil (x ∷ xs) = false

-- What holds ahead of the drain loop, behind an append of `m` to `r`, which gave `r'`, or with no
-- append.
abbrev pub after_append : Ingress → Ingress → Seg → Bool → Bool → Drained
after_append r r' m wake fin =
    let wakes = m.flags.push || m.flags.fin || not (is_nil r.rxq) in
    record { ingress = r'; wake = wake || wakes; fin = fin || (wakes && m.flags.fin); freed = [] }

abbrev pub unchanged : Ingress → Bool → Bool → Drained
unchanged r wake fin = record { ingress = r; wake = wake; fin = fin; freed = [] }

-- `tcp_rx_text`: whether the segment is used; `wake` and `fin` as the caller holds them.
unfoldable pub rx_text : Ingress → Seg → Bool → Bool → Option (Bool × Drained)
unfolding finish
rx_text r m wake fin =
    let drop_it = some (false, unchanged r wake fin) in
    if r.rcv_wnd == 0
    then drop_it
    else if wraps_lte m.seg_seq r.rcv_nxt
    then elim (append_text r m) [
      | none ↦ none
      | some r' ↦ finish (drain r'.rxq_ooo (after_append r r' m wake fin))
    ]
    else elim (insert_ooo r m) [
      | none ↦ drop_it
      | some r' ↦ finish (drain r'.rxq_ooo (unchanged r' wake fin))
    ]
