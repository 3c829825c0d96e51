-- ===== src/Lrpc.antt =====
-- base/lrpc.c and inc/base/lrpc.h: a ring of messages in shared memory, one sender and one
-- receiver. The sender's and the receiver's struct stand beside the memory that they share, the
-- table and the word `*recv_head_wb`. Each call is one step. Head and tail are 32-bit counters.
pub mod Words
pub mod Rep
pub mod Refine
pub mod Setup
mod Tests
use Prim.Native.Nat.{bit_and, bit_or}
use caladan.Common.{
  ℕ, suc, ◌+◌, ◌-◌, ◌%◌, ◌^◌, Bool, true, false, not, ◌&&◌, Option, none, some, leb, ◌==◌,
  if◌then◌else◌, update,
}

-- `struct lrpc_msg`
pub record Msg : Type 0 where
  pub cmd : ℕ
  pub payload : ℕ

-- `struct lrpc_chan_out`, without the pointers
pub record ChanOut : Type 0 where
  pub send_head : ℕ
  pub send_tail : ℕ
  pub size : ℕ

-- `struct lrpc_chan_in`, without the pointers
pub record ChanIn : Type 0 where
  pub recv_head : ℕ
  pub size : ℕ

pub record Channel : Type 0 where
  pub out : ChanOut
  pub inward : ChanIn
  pub tbl : ℕ → Msg
  pub recv_head_wb : ℕ

abbrev pub u32_mod : ℕ
u32_mod = 2 ^ 32

-- LRPC_DONE_PARITY and LRPC_CMD_MASK
abbrev pub done_parity : ℕ
done_parity = 2 ^ 63

abbrev pub cmd_mask : ℕ
cmd_mask = 2 ^ 63 - 1

-- `uint32_t` subtraction and increment
abbrev pub sub_u32 : ℕ → ℕ → ℕ
sub_u32 a b = (a + u32_mod - b) % u32_mod

abbrev pub inc_u32 : ℕ → ℕ
inc_u32 a = (a + 1) % u32_mod

-- `(head & size) ? 0 : LRPC_DONE_PARITY`
pub parity : ℕ → ℕ → ℕ
parity head size = if bit_and head size == 0 then done_parity else 0

-- The slot of a counter, `head & (size - 1)`.
pub slot : ℕ → ℕ → ℕ
slot head size = bit_and head (size - 1)

-- The write of a message, and the step of `send_head`.
pub store : Channel → ℕ → ℕ → Channel
unfolding slot parity
store c cmd payload =
    let head = c.out.send_head in
    let size = c.out.size in
    let msg : Msg = record { cmd = bit_or cmd (parity head size); payload = payload } in
    record c {
      tbl = update c.tbl (slot head size) msg;
      out = record { send_head = inc_u32 head; send_tail = c.out.send_tail; size = size };
    }

-- `lrpc_poll_send_tail`; returned is the raw send tail.
pub poll_send_tail : Channel → Channel × ℕ
poll_send_tail c =
    let out = c.out in
    (record c { out = record out { send_tail = c.recv_head_wb } }, c.recv_head_wb)

pub get_cached_length : ChanOut → ℕ
get_cached_length o = sub_u32 o.send_head o.send_tail

pub get_cached_send_window : ChanOut → ℕ
get_cached_send_window o = (sub_u32 o.size o.send_head + o.send_tail) % u32_mod

-- `__lrpc_send`, once the cached tail says that the ring is full
pub send_slow : Channel → ℕ → ℕ → Channel × Bool
unfolding store get_cached_length poll_send_tail
send_slow c cmd payload =
    let c' = (poll_send_tail c).0 in
    if get_cached_length c'.out == c'.out.size then (c', false) else (store c' cmd payload, true)

pub send : Channel → ℕ → ℕ → Channel × Bool
unfolding send_slow store get_cached_length
send c cmd payload =
    if leb c.out.size (get_cached_length c.out)
    then send_slow c cmd payload
    else (store c cmd payload, true)

-- `lrpc_empty`
pub is_empty : Channel → Bool
unfolding slot parity
is_empty c =
    let i = c.inward in
    let m = c.tbl (slot i.recv_head i.size) in
    not (bit_and m.cmd done_parity == parity i.recv_head i.size)

-- `lrpc_recv`; what goes through the pointers is `none` where it returns false.
pub recv : Channel → Channel × Option Msg
unfolding slot parity
recv c =
    let i = c.inward in
    let m = c.tbl (slot i.recv_head i.size) in
    let head' = inc_u32 i.recv_head in
    let got : Msg = record { cmd = bit_and m.cmd cmd_mask; payload = m.payload } in
    if bit_and m.cmd done_parity == parity i.recv_head i.size
    then (record c { inward = record i { recv_head = head' }; recv_head_wb = head' }, some got)
    else (c, none)

-- The macro of inc/base/stddef.h. For 0 the test ends at its first half.
pub is_power_of_two : ℕ → Bool
is_power_of_two x = not (x == 0) && bit_and x (x - 1) == 0

-- `lrpc_init_out`; `none` is `-EINVAL`.
pub init_out : ℕ → Option ChanOut
unfolding is_power_of_two
init_out size =
    if is_power_of_two size
    then some (record { send_head = 0; send_tail = 0; size = size })
    else none

-- `lrpc_init_in`
pub init_in : ℕ → Option ChanIn
unfolding is_power_of_two
init_in size = if is_power_of_two size then some (record { recv_head = 0; size = size }) else none
