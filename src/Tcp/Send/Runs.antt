-- ===== src/Tcp/Send/Runs.antt =====
-- The numbers of what the segmenter sends (runtime/net/tcp_out.c).
use caladan.Common.{
  ℕ, ◌<◌, ◌≡◌, refl, sym, subst, List, [], ◌∷◌, ◌++◌, Option, none, some, length, arith,
}
use caladan.Tcp.{word32, add32, Seg}
use caladan.Tcp.Conn.{TcpConn, Sent}
use caladan.Tcp.Send.{buffer}

-- The sequence number of the first byte that is not in a segment that has been sent
abbrev pub first_of : Option Seg → ℕ → ℕ
first_of none nxt = nxt
first_of (some m) nxt = m.seg_seq

-- From a sequence number on, the segments that are sent, and behind them the one that waits, are
-- numbered by their bytes with no gap, up to the next number.
abbrev pub Runs : ℕ → List Sent → Option Seg → ℕ → Type 0
Runs a [] none nxt = a ≡ nxt
Runs a [] (some m) nxt = (m.seg_seq ≡ a) × (m.seg_end ≡ add32 a (length m.text)) × (m.seg_end ≡ nxt)
Runs a (s ∷ ss) p nxt =
    (s.seg.seg_seq ≡ a)
    × (s.seg.seg_end ≡ add32 a (length s.seg.text))
    × Runs s.seg.seg_end ss p nxt

pub Runs-append :
    (a : ℕ) (xs ys : List Sent) (p p' : Option Seg) (nxt nxt' : ℕ)
    → Runs a xs p nxt
    → Runs (first_of p nxt) ys p' nxt'
    → Runs a (xs ++ ys) p' nxt'
Runs-append a [] ys none p' nxt nxt' h k = subst (λ (i : ℕ). Runs i ys p' nxt') (sym h) k
Runs-append a [] ys (some m) p' nxt nxt' h k = subst (λ (i : ℕ). Runs i ys p' nxt') h.0 k
Runs-append a (x ∷ xs) ys p p' nxt nxt' h k =
    (h.0, h.1, Runs-append x.seg.seg_end xs ys p p' nxt nxt' h.2 k)

-- The segments sent between two states, which are numbered with no gap
abbrev pub Adds : TcpConn → TcpConn → Type 0
Adds c c' =
    (new : List Sent) × (c'.txq ≡ c.txq ++ new)
    × Runs (first_of c.tx_pending c.pcb.snd_nxt) new c'.tx_pending c'.pcb.snd_nxt

pub buffer-run :
    (c : TcpConn) (o : Option Seg)
    → c.pcb.snd_nxt < word32
    → Runs (first_of o c.pcb.snd_nxt) [] o c.pcb.snd_nxt
    → let b = buffer c o in
      (b.seg_seq ≡ first_of o c.pcb.snd_nxt)
      × (b.seg_end ≡ add32 (first_of o c.pcb.snd_nxt) (length b.text))
      × (b.seg_end ≡ c.pcb.snd_nxt)
buffer-run c none w h = (refl, omega (arith, w), refl)
buffer-run c (some m) w h = h
