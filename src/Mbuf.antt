-- ===== src/Mbuf.antt =====
-- Packet buffers (inc/net/mbuf.h). A pointer is an address, and the data stands at an address not
-- below the head but in `push`, which moves it first. Lengths are unsigned 16-bit, arguments
-- unsigned 32-bit; `none` is a stop at BUG_ON, or NULL from `pull_or_null`.
pub mod Window
pub mod Overrun
mod Tests
use caladan.Common.{ℕ, ◌+◌, ◌-◌, ◌*◌, ◌^◌, ◌%◌, Bool, ltb, leb, if◌then◌else◌, Option, some, none}

abbrev pub word16 : ℕ
word16 = 65536

abbrev pub word32 : ℕ
word32 = 4294967296

abbrev pub word64 : ℕ
word64 = 18446744073709551616

-- `struct mbuf`, the fields of its buffer and the two header offsets
pub record Mbuf : Type 0 where
  pub head : ℕ
  pub data_ptr : ℕ
  pub head_len : ℕ
  pub len : ℕ
  pub transport_off : ℕ
  pub network_off : ℕ

-- `m->len -= len` on 16 bits
abbrev sub_len : ℕ → ℕ → ℕ
sub_len l n = (l + word32 - n) % word16

-- `__mbuf_pull`
abbrev raw_pull : Mbuf → ℕ → Mbuf × ℕ
raw_pull m n =
    (record m { len = sub_len m.len n; data_ptr = (m.data_ptr + n) % word64 }, m.data_ptr)

pub pull : Mbuf → ℕ → Option (Mbuf × ℕ)
pull m n = if ltb m.len n then none else some (raw_pull m n)

pub pull_or_null : Mbuf → ℕ → Option (Mbuf × ℕ)
pull_or_null m n = if leb n m.len then some (raw_pull m n) else none

-- The pointer moves before the test, so the test is on the address that has moved.
pub push : Mbuf → ℕ → Option (Mbuf × ℕ)
push m n =
    let data' = (m.data_ptr + word64 - n) % word64 in
    if ltb data' m.head
    then none
    else some (record m { data_ptr = data'; len = (m.len + n) % word16 }, data')

pub put : Mbuf → ℕ → Option (Mbuf × ℕ)
put m n =
    let len' = (m.len + n) % word16 in
    if ltb m.head_len len'
    then none
    else some (record m { len = len' }, (m.data_ptr + m.len) % word64)

pub trim : Mbuf → ℕ → Option (Mbuf × ℕ)
trim m n =
    let len' = sub_len m.len n in
    if ltb m.len n then none else some (record m { len = len' }, (m.data_ptr + len') % word64)

-- The difference of two pointers on 64 bits
abbrev distance : ℕ → ℕ → ℕ
distance a b = (a + word64 - b) % word64

pub reset : Mbuf → ℕ → Option Mbuf
reset m offset =
    let total_len = (distance m.data_ptr m.head + m.len) % word32 in
    if ltb total_len offset
    then none
    else some
        (record m { data_ptr = (m.head + offset) % word64; len = (total_len - offset) % word16 })

pub headroom : Mbuf → ℕ
headroom m = distance m.data_ptr m.head % word32

pub tailroom : Mbuf → ℕ
tailroom m = distance (distance (m.head + m.head_len) m.data_ptr) m.len % word32

-- The assertion that the offset fits stands in debug builds only.
pub mark_network_offset : Mbuf → Mbuf
mark_network_offset m = record m { network_off = distance m.data_ptr m.head % word16 }

pub mark_transport_offset : Mbuf → Mbuf
mark_transport_offset m = record m { transport_off = distance m.data_ptr m.head % word16 }

pub network_offset : Mbuf → ℕ
network_offset m = (m.head + m.network_off) % word64

pub transport_offset : Mbuf → ℕ
transport_offset m = (m.head + m.transport_off) % word64

-- The other fields keep what the allocator left in them.
pub init : Mbuf → ℕ → ℕ → ℕ → Mbuf
init m head head_len reserve_len = record m {
  head = head;
  head_len = head_len % word16;
  data_ptr = (head + reserve_len) % word64;
  len = 0;
}
