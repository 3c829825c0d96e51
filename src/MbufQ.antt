-- ===== src/MbufQ.antt =====
-- Queues of packets (inc/net/mbufq.h). The store gives each mbuf's `next`; an mbuf is its address,
-- and NULL is 0. An operation takes the store and the queue and returns both.
pub mod Refine
mod Tests
use caladan.Common.{
  ℕ, zero, suc, Bool, List, [], ◌∷◌, ◌==◌, if◌then◌else◌, update, Option, none, some,
}

abbrev pub Store : Type 0
Store = ℕ → ℕ

abbrev pub null : ℕ
null = 0

-- `struct mbufq`
pub record MbufQ : Type 0 where
  pub head : ℕ
  pub tail : ℕ

pub push_tail : Store → MbufQ → ℕ → Store × MbufQ
push_tail next q m =
    let next' = update next m null in
    if q.head == null
    then (next', record { head = m; tail = m })
    else (update next' q.tail m, record q { tail = m })

-- The mbuf, or NULL, stands second.
pub pop_head : Store → MbufQ → MbufQ × ℕ
pop_head next q = if q.head == null then (q, null) else (record q { head = next q.head }, q.head)

pub peak_head : MbufQ → ℕ
peak_head q = q.head

-- The destination stands second, the source third.
pub merge_to_tail : Store → MbufQ → MbufQ → Store × MbufQ × MbufQ
merge_to_tail next dst src =
    if src.head == null
    then (next, dst, src)
    else if dst.head == null
    then (next, src, record src { head = null })
    else (update next dst.tail src.head, record dst { tail = src.tail }, record src { head = null })

pub is_empty : MbufQ → Bool
is_empty q = q.head == null

-- The tail keeps what it was.
pub init : MbufQ → MbufQ
init q = record q { head = null }

-- What `mbuf_free` does, through a function pointer of the mbuf, to the store.
module _ (mbuf_free : Store → ℕ → Store) where
  -- The loop on fuel: the mbufs freed, in order, and the queue. `none` is a run out of fuel.
  pub release : ℕ → Store → MbufQ → Option (Store × MbufQ × List ℕ)
  release zero next q = none
  release (suc fuel) next q =
      let (q', m) = pop_head next q in
      let rest = release fuel (mbuf_free next m) q' in
      if m == null
      then some (next, q', [])
      else elim rest [ none ↦ none | some (next', q'', freed) ↦ some (next', q'', m ∷ freed) ]
