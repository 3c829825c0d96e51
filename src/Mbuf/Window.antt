-- ===== src/Mbuf/Window.antt =====
-- The window of data within the buffer of an mbuf (inc/net/mbuf.h): how each operation moves it.
use caladan.Common.{ℕ, ◌+◌, ◌-◌, ◌^◌, ◌≤◌, ◌<◌, ◌≡◌, ◌⊎◌, Option, some, none, arith}
use caladan.Mbuf.{
  Mbuf, word16, word32, pull, pull_or_null, push, put, trim, reset, headroom, tailroom, init,
  mark_network_offset, network_offset,
}

-- The data stands within the buffer, `room` bytes behind its start, and the buffer below 2^63, where
-- user space ends.
pub record IsValid (m : Mbuf) (room : ℕ) : Type 0 where
  pub placed : m.data_ptr ≡ m.head + room
  pub fits : room + m.len ≤ m.head_len
  pub sized : m.head_len < word16
  pub user : m.head + m.head_len < 2 ^ 63

-- The operation stops exactly if `fails`; else it yields the mbuf and the address.
abbrev pub Gives : Option (Mbuf × ℕ) → Type 0 → Mbuf → ℕ → Type 0
Gives r fails m a = (fails × (r ≡ none)) ⊎ (¬ fails × (r ≡ some (m, a)))

-- `mbuf_pull` of n bytes stops exactly if there are fewer; else it moves the start of the data up by
-- n, the end stays, and it returns the old start. `mbuf_pull_or_null` does the same.
pub pull_lem :
    (m : Mbuf) (room n : ℕ)
    → IsValid m room
    → n < word32
    → Gives
        (pull m n)
        (m.len < n)
        (record m { data_ptr = m.head + (room + n); len = m.len - n })
        m.data_ptr
      × (pull_or_null m n ≡ pull m n)
      × (n ≤ m.len
          → IsValid (record m { data_ptr = m.head + (room + n); len = m.len - n }) (room + n))
unfolding pull pull_or_null
pull_lem m room n v b = ground arith

-- `mbuf_push` of n bytes, at most the address of the data, stops exactly if there is less headroom;
-- else the data starts n bytes earlier, the end stays, and it returns the new start.
pub push_lem :
    (m : Mbuf) (room n : ℕ)
    → IsValid m room
    → n ≤ m.data_ptr
    → Gives
        (push m n)
        (room < n)
        (record m { data_ptr = m.head + (room - n); len = m.len + n })
        (m.head + (room - n))
      × (n ≤ room
          → IsValid (record m { data_ptr = m.head + (room - n); len = m.len + n }) (room - n))
unfolding push
push_lem m room n v b = ground arith

-- `mbuf_trim` of n bytes stops exactly if there are fewer; else the data ends n bytes earlier, and it
-- returns the new end.
pub trim_lem :
    (m : Mbuf) (room n : ℕ)
    → IsValid m room
    → n < word32
    → Gives (trim m n) (m.len < n) (record m { len = m.len - n }) (m.data_ptr + (m.len - n))
      × (n ≤ m.len → IsValid (record m { len = m.len - n }) room)
unfolding trim
trim_lem m room n v b = ground arith

-- `mbuf_put` of n bytes that fit behind the data never stops: it returns the old end, and the data
-- ends n bytes later.
pub put_lem :
    (m : Mbuf) (room n : ℕ)
    → IsValid m room
    → room + m.len + n ≤ m.head_len
    → (put m n ≡ some (record m { len = m.len + n }, m.data_ptr + m.len))
      × IsValid (record m { len = m.len + n }) room
unfolding put
put_lem m room n v b = ground arith

-- `mbuf_reset` stops exactly if the offset lies behind the end of the data; else the data starts at
-- the offset, and its end stays.
pub reset_lem :
    (m : Mbuf) (room offset : ℕ)
    → IsValid m room
    → ((room + m.len < offset) × (reset m offset ≡ none))
      ⊎ ((offset ≤ room + m.len)
          × (reset m offset
              ≡ some (record m { data_ptr = m.head + offset; len = room + m.len - offset }))
          × IsValid (record m { data_ptr = m.head + offset; len = room + m.len - offset }) offset)
unfolding reset
reset_lem m room offset v = ground arith

-- Headroom, data and tailroom are together the whole buffer.
pub rooms_lem :
    (m : Mbuf) (room : ℕ)
    → IsValid m room
    → (headroom m ≡ room) × (headroom m + m.len + tailroom m ≡ m.head_len)
unfolding headroom tailroom
rooms_lem m room v = ground arith

-- After `mbuf_init` the data is empty and starts behind the bytes reserved.
pub init_lem :
    (m : Mbuf) (head head_len reserve_len : ℕ)
    → reserve_len < head_len
    → head_len < word16
    → head + head_len < 2 ^ 63
    → IsValid (init m head head_len reserve_len) reserve_len
      × ((init m head head_len reserve_len).len ≡ 0)
      × (tailroom (init m head head_len reserve_len) ≡ head_len - reserve_len)
unfolding init tailroom
init_lem m head head_len reserve_len r b u = ground arith

-- A header pushed and then pulled: the mbuf is as before, and the pull returns where the push wrote.
pub pull-push :
    (m : Mbuf) (room n : ℕ)
    → IsValid m room
    → n ≤ room
    → (m' : Mbuf) × (a : ℕ) × (push m n ≡ some (m', a)) × (pull m' n ≡ some (m, a))
unfolding push pull
pull-push m room n v h = (
  record m { data_ptr = m.head + (room - n); len = m.len + n },
  m.head + (room - n),
  ground arith,
  ground arith,
)

-- Bytes that are put and then trimmed: the mbuf is as before, at the same address.
pub trim-put :
    (m : Mbuf) (room n : ℕ)
    → IsValid m room
    → room + m.len + n ≤ m.head_len
    → (m' : Mbuf) × (a : ℕ) × (put m n ≡ some (m', a)) × (trim m' n ≡ some (m, a))
unfolding put trim
trim-put m room n v h =
    (record m { len = m.len + n }, m.data_ptr + m.len, ground arith, ground arith)

-- A marked header is found again after any number of pulls: its offset gives the address that the
-- data had when it was marked.
pub offset-mark :
    (m : Mbuf) (room n : ℕ)
    → IsValid m room
    → n ≤ m.len
    → (m' : Mbuf) × (a : ℕ) × (pull (mark_network_offset m) n ≡ some (m', a))
      × (network_offset m' ≡ m.data_ptr)
unfolding pull mark_network_offset network_offset
offset-mark m room n v h = (
  record (mark_network_offset m) { data_ptr = m.head + (room + n); len = m.len - n },
  m.data_ptr,
  ground arith,
  ground arith,
)
