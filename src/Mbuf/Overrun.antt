-- ===== src/Mbuf/Overrun.antt =====
-- `mbuf_put` compares the length of the data with that of the whole buffer, not with what is left
-- behind the start of the data (inc/net/mbuf.h).
use caladan.Common.{
  ℕ, ◌+◌, ◌<◌, ◌≤◌, ◌≡◌, refl, ◌↔◌, ◌⊎◌, inl, inr, some, none, arith, Bool-cases, leb,
}
use caladan.Mbuf.{Mbuf, word16, put}
use caladan.Mbuf.Window.{IsValid}

-- On a valid mbuf, while the sum of the old length and n is below 2^16, `mbuf_put` of n bytes stops
-- exactly if the sum is more than the length of the whole buffer. Else it gives back where the data
-- ended and the data is n bytes longer; it ends behind the buffer exactly if headroom and sum
-- together are more than that length.
pub put_overruns :
    (m : Mbuf) (room n : ℕ)
    → IsValid m room
    → m.len + n < word16
    → ((m.head_len < m.len + n) × (put m n ≡ none))
      ⊎ ((m' : Mbuf) × (a : ℕ) × (put m n ≡ some (m', a))
          × (m.len + n ≤ m.head_len)
          × (m'.len ≡ m.len + n)
          × (a ≡ m.data_ptr + m.len)
          × ((m.head_len < room + m.len + n) ↔ (m'.head + m'.head_len < m'.data_ptr + m'.len)))
unfolding put
put_overruns m room n v b = elim (Bool-cases (leb (m.len + n) m.head_len)) [
  | inl fits ↦ inr (
    record m { len = m.len + n },
    m.data_ptr + m.len,
    ground arith,
    ground (arith, fits),
    refl,
    refl,
    (λ h. ground arith, λ h. ground arith),
  )
  | inr over ↦ inl (ground arith, ground arith)
]
