-- ===== src/Tcp.antt =====
-- The Transmission Control Protocol (runtime/net/tcp.h, tcp.c, tcp_in.c, tcp_out.c). Sequence numbers
-- are unsigned 32-bit. A segment is what an mbuf in a queue of a connection stands for: the range
-- of sequence numbers, the flags and the text, one number for each byte.
pub mod Seq
pub mod Text
pub mod Options
pub mod Conn
pub mod Segment
pub mod Read
pub mod Send
pub mod Timeouts
mod Tests
pub use caladan.Common.Word32.{word32, add32, sub32, is_negative}
unfoldable pub use caladan.Common.Word32.{wraps_lt, wraps_lte, wraps_gt, wraps_gte}
use caladan.Common.{ℕ, Bool, List}

-- The flags of a header that the code tests
pub record Flags : Type 0 where
  pub fin : Bool
  pub syn : Bool
  pub rst : Bool
  pub push : Bool
  pub ack : Bool
  pub urg : Bool

pub record Seg : Type 0 where
  pub seg_seq : ℕ
  pub seg_end : ℕ
  pub flags : Flags
  pub text : List ℕ

-- The part of `struct tcpconn` that text in the ingress path reads and writes
pub record Ingress : Type 0 where
  pub rcv_nxt : ℕ
  pub rcv_wnd : ℕ
  pub rxq : List Seg
  pub rxq_ooo : List Seg
  pub rxq_ooo_len : ℕ
