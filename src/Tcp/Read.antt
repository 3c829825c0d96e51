-- ===== src/Tcp/Read.antt =====
-- Reads of a connection (`tcp_read`, `tcp_read_wait` and `tcp_read_finish` of runtime/net/tcp.c). A
-- read is one function: between the two times that it holds the lock, a segment that it reads in
-- part keeps other readers out.
pub mod Loss
use caladan.Common.{
  ℕ, suc, ◌+◌, ◌-◌, ◌/◌, Bool, true, false, not, ◌&&◌, ◌||◌, ◌==◌, ltb, leb, if◌then◌else◌, List,
  [], ◌∷◌, ◌++◌, Option, none, some, length, take, drop,
}
use caladan.Tcp.{add32, wraps_gte, Flags, Seg, Ingress}
use caladan.Tcp.Text.{is_nil}
use caladan.Tcp.Text.Drain.{text_of}
use caladan.Tcp.Conn.{TcpConn, Effect, readies, frees, sends_ack, shutdown_rx}
use caladan.Tcp.Segment.{stamp}

-- What the loop over the queue leaves: the queue, the segments that it has taken, whether the first
-- of the queue is read in part (`mout`), whether a FIN is met, and how much is read.
pub record Popped : Type 0 where
  pub rest : List Seg
  pub q : List Seg
  pub in_part : Bool
  pub meets_fin : Bool
  pub readlen : ℕ

abbrev pub stops_here : List Seg → ℕ → Popped
stops_here ms readlen = record {
  rest = ms;
  q = [];
  in_part = false;
  meets_fin = false;
  readlen = readlen;
}

pub pop : List Seg → ℕ → ℕ → Popped
pop [] len readlen = stops_here [] readlen
pop (m ∷ ms) len readlen =
    let later = pop ms len (readlen + length m.text) in
    if leb len readlen
    then stops_here (m ∷ ms) readlen
    else if m.flags.fin && length m.text == 0
    then record (stops_here (m ∷ ms) readlen) { meets_fin = true }
    else if ltb (len - readlen) (length m.text)
    then record (stops_here (m ∷ ms) len) { in_part = true; meets_fin = m.flags.fin }
    else record later { q = m ∷ later.q; meets_fin = m.flags.fin || later.meets_fin }

-- What is copied of the first segment that stays, and what is left of it.
abbrev pub head_bytes : ℕ → List Seg → List ℕ
head_bytes n [] = []
head_bytes n (m ∷ ms) = take n m.text

abbrev pub pull_head : ℕ → List Seg → List Seg
pull_head n [] = []
pull_head n (m ∷ ms) = record m { text = drop n m.text; seg_seq = add32 m.seg_seq n } ∷ ms

-- With room for `n` bytes
abbrev pub copied : Popped → ℕ → List ℕ
copied p n = text_of p.q ++ (if p.in_part then head_bytes (n - length (text_of p.q)) p.rest else [])

abbrev pub left : Popped → ℕ → List Seg
left p n = if p.in_part then pull_head (n - length (text_of p.q)) p.rest else p.rest

-- What a read comes to: nothing is there for a socket that does not block, or the reader waits, or
-- ingress is closed, with the error, or it reads.
pub data ReadOutcome : Type 0 where
  would_block waits : ReadOutcome
  ends : ℕ → ReadOutcome
  reads : List ℕ → TcpConn → List Effect → ReadOutcome

abbrev shut_if : Bool → TcpConn → TcpConn × List Effect
shut_if fin c = if fin then shutdown_rx c else (c, [])

-- A read that has something to read; `has_buffer` is whether there is one for an ACK.
pub take_read : TcpConn → ℕ → Bool → List ℕ × (TcpConn × List Effect)
unfolding pop
take_read c len has_buffer =
    let p = pop c.ingress.rxq len 0 in
    let (c₁, es) = shut_if p.meets_fin c in
    let wnd = add32 c.ingress.rcv_wnd p.readlen in
    let do_ack =
      wraps_gte (add32 c.ingress.rcv_nxt wnd)
        (add32 (add32 c.tx_last_ack c.tx_last_win) (c.winmax / 4)) in
    let wakes = if p.in_part && ltb 0 p.readlen then readies c₁.rx_wq ∷ [] else [] in
    let c₂ = record c₁ {
      ingress = record c.ingress { rxq = left p len; rcv_wnd = wnd };
      rx_wq = if p.in_part && ltb 0 p.readlen then [] else c₁.rx_wq;
    } in
    (
      copied p len,
      (
        if do_ack && has_buffer then stamp c₂ else c₂,
        es ++ (if do_ack then sends_ack ∷ [] else []) ++ frees p.q ∷ wakes,
      ),
    )

-- `tcp_read`
pub read : TcpConn → ℕ → Bool → ReadOutcome
read c len has_buffer =
    let (bs, (c', es)) = take_read c len has_buffer in
    if c.rx_closed
    then ends c.err
    else if c.rx_exclusive || is_nil c.ingress.rxq
    then (if c.nonblocking then would_block else waits)
    else reads bs c' es
