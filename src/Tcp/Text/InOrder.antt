-- ===== src/Tcp/Text/InOrder.antt =====
-- `tcp_rx_text` on the segment that comes next, with no other that waits (runtime/net/tcp_in.c).
use caladan.Common.{ℕ, ◌^◌, ◌<◌, ◌≤◌, ◌≡◌, refl, ap, ◌∙◌, Bool, true, false, ◌==◌, [], some, arith}
use caladan.Tcp.{word32, add32, sub32, wraps_lt, wraps_lte, Flags, Seg, Ingress}
use caladan.Tcp.Text.{
  is_acceptable, rx_text, append_text, clip_head, clip_tail, enqueue, drain, finish, after_append,
}

-- From the next octet, text that ends before the window does
pub is_acceptable-next :
    (s n w len : ℕ) (f : Flags)
    → s ≡ n
    → n < word32
    → w < 2 ^ 31
    → 0 < len
    → len ≤ w
    → is_acceptable n w len s f ≡ true
unfolding is_acceptable wraps_lte wraps_lt
is_acceptable-next s n w len f e h k p q = ground arith

not_behind : (s n : ℕ) → n < word32 → s ≡ n → wraps_lt s n ≡ false
unfolding wraps_lt
not_behind s n h e = ground arith

not_beyond :
    (n w len e : ℕ)
    → n < word32
    → w < 2 ^ 31
    → e ≡ add32 n len
    → len ≤ w
    → wraps_lt (add32 n w) e ≡ false
unfolding wraps_lt
not_beyond n w len e h k q le = ground arith

clip_head-next : (n : ℕ) (m : Seg) → n < word32 → m.seg_seq ≡ n → clip_head n m ≡ some m
unfolding clip_head
clip_head-next n m h e = rw (not_behind m.seg_seq n h e) refl

clip_tail-next : (edge : ℕ) (m : Seg) → wraps_lt edge m.seg_end ≡ false → clip_tail edge m ≡ some m
unfolding clip_tail
clip_tail-next edge m h = rw h refl

append_text-next :
    (r : Ingress) (m : Seg) (len : ℕ)
    → r.rcv_nxt < word32
    → r.rcv_wnd < 2 ^ 31
    → m.seg_seq ≡ r.rcv_nxt
    → m.seg_end ≡ add32 m.seg_seq len
    → len ≤ r.rcv_wnd
    → append_text r m ≡ some (enqueue r m)
unfolding append_text
append_text-next r m len h k s e q =
    let head = clip_head-next r.rcv_nxt m h s in
    let tail =
      clip_tail-next (add32 r.rcv_nxt r.rcv_wnd) m
        (not_beyond r.rcv_nxt r.rcv_wnd len m.seg_end h k (e ∙ ap (λ (x : ℕ). add32 x len) s) q) in
    rw (head, append_text) (rw (tail, append_text) refl)

pub rx_text-next :
    (r : Ingress) (m : Seg) (len : ℕ) (wake fin : Bool)
    → r.rcv_nxt < word32
    → r.rcv_wnd < 2 ^ 31
    → m.seg_seq ≡ r.rcv_nxt
    → m.seg_end ≡ add32 m.seg_seq len
    → len < r.rcv_wnd
    → r.rxq_ooo ≡ []
    → rx_text r m wake fin
      ≡ some (true, after_append r (record (enqueue r m) { rxq_ooo = [] }) m wake fin)
unfolding rx_text drain finish enqueue wraps_lte
rx_text-next r m len wake fin h k s e q o =
    let open_ : (r.rcv_wnd == 0) ≡ false = ground arith in
    let left : (sub32 r.rcv_wnd (sub32 m.seg_end m.seg_seq) == 0) ≡ false = ground arith in
    let due : wraps_lte m.seg_seq r.rcv_nxt ≡ true = ground arith in
    rw (open_, due, rx_text)
      (rw (append_text-next r m len h k s e (omega arith), rx_text) (rw (o, left) refl))
