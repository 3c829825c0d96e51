-- ===== src/Tcp/Send.antt =====
-- The segmenter of the egress path (`tcp_tx_send` of runtime/net/tcp_out.c). The number of a turn
-- picks what the allocator gives: `has_buffer` is whether there is a buffer in that turn. What the
-- device makes of a packet only sets its count of references, which the model leaves out.
pub mod Runs
pub mod Stream
use caladan.Common.{
  ℕ, zero, suc, ◌+◌, ◌-◌, ◌%◌, ◌^◌, Bool, true, false, not, ◌&&◌, ◌||◌, ◌==◌, ltb, leb,
  if◌then◌else◌, List, [], ◌∷◌, ◌++◌, Option, none, some, length, take, drop,
}
use caladan.Tcp.{add32, sub32, Flags, Seg}
use caladan.Tcp.Conn.{TcpConn, Sent, min}
use caladan.Tcp.Segment.{stamp}

abbrev tcp_hdr_size : ℕ
tcp_hdr_size = 20

abbrev ack_only : Flags
ack_only = record { fin = false; syn = false; rst = false; push = false; ack = true; urg = false }

-- The buffer of a turn: the one that waits, or a new one.
abbrev pub new_buffer : TcpConn → Seg
new_buffer c = record {
  seg_seq = c.pcb.snd_nxt;
  seg_end = c.pcb.snd_nxt;
  flags = ack_only;
  text = [];
}

abbrev pub buffer : TcpConn → Option Seg → Seg
buffer c none = new_buffer c
buffer c (some m) = m

-- How much of `len` bytes goes into it.
abbrev pub seg_room : TcpConn → Seg → ℕ → ℕ
seg_room c m len = min len (sub32 c.pcb.snd_mss (length m.text))

abbrev pub fill : Seg → ℕ → List ℕ → Seg
fill m n buf = record m { seg_end = add32 m.seg_end n; text = m.text ++ take n buf }

-- Whether the last buffer is kept for later. The length is that of the text, without a header, and
-- a header's length is taken off it on 64 bits.
abbrev pub keeps : TcpConn → Bool → Bool → Seg → Bool
keeps c push is_last m =
    not push && is_last && ltb ((length m.text + 2 ^ 64 - tcp_hdr_size) % 2 ^ 64) c.pcb.snd_mss

abbrev pushes : Bool → Seg → Seg
pushes p m = record m { flags = record m.flags { push = m.flags.push || p } }

-- What the loop leaves: the connection and how many bytes have been taken.
pub record SendProgress : Type 0 where
  pub conn : TcpConn
  pub taken : ℕ

-- The connection behind one turn with a buffer.
pub send_one : TcpConn → List ℕ → Bool → ℕ → TcpConn
send_one c buf push now =
    let b = buffer c c.tx_pending in
    let n = seg_room c b (length buf) in
    let m = fill b n buf in
    let is_last = n == length buf in
    let c' = record c {
      pcb = record c.pcb { snd_nxt = add32 c.pcb.snd_nxt n };
      tx_pending = none;
    } in
    if keeps c push is_last m then record c' { tx_pending = some m } else record (stamp c') {
      txq = c.txq ++ record { seg = pushes (push && is_last) m; timestamp = now } ∷ [];
    }

-- A new buffer is wanted and there is none.
abbrev pub lacks : Option Seg → Bool → Bool
lacks none has = not has
lacks (some m) has = false

-- The loop; `none` is a run out of fuel.
pub send_loop : ℕ → (ℕ → Bool) → TcpConn → List ℕ → Bool → ℕ → ℕ → Option SendProgress
send_loop zero has_buffer c buf push now done = none
send_loop (suc fuel) has_buffer c buf push now done =
    let n = seg_room c (buffer c c.tx_pending) (length buf) in
    let c' = send_one c buf push now in
    let rest = send_loop fuel has_buffer c' (drop n buf) push now (done + n) in
    if lacks c.tx_pending (has_buffer fuel)
    then some (record { conn = c; taken = done })
    else if n == length buf
    then some (record { conn = c'; taken = done + n })
    else rest

-- `tcp_tx_send`: two turns more than there are bytes.
pub tx_send : (ℕ → Bool) → TcpConn → List ℕ → Bool → ℕ → Option SendProgress
tx_send has_buffer c buf push now = send_loop (length buf + 2) has_buffer c buf push now 0
