-- ===== src/Lrpc/Refine.antt =====
-- A channel behaves as a bounded queue of messages (base/lrpc.c).
use native.Mathlib.Nat.{pow-le-pow_right}
use caladan.Common.{
  ℕ, ◌+◌, ◌-◌, ◌^◌, ◌≤◌, ◌<◌, ◌≡◌, refl, inl, inr, Bool, true, false, arith, leb, ◌==◌,
  if◌then◌else◌, List, [], ◌∷◌, ◌++◌, length, Option, Bool-cases, some, none,
}
use caladan.Lrpc.{
  Msg, Channel, done_parity, store, send, send_slow, recv, get_cached_length, poll_send_tail,
}
use caladan.Lrpc.Words.{distance}
use caladan.Lrpc.Rep.{Rep, message, store-Rep, recv-Rep, recv-empty}

-- The ring of 2^k messages holds the queue `q`, oldest first.
pub record Queue (c : Channel) (k : ℕ) (q : List Msg) : Type 0 where
  pub received : ℕ
  pub sent : ℕ
  pub known : ℕ
  pub rep : Rep c k received sent known q

module _ (c : Channel) (k r s t : ℕ) (q : List Msg) (v : Rep c k r s t q) where
  pub size_small : 2 ^ k ≤ 2 ^ 31
  size_small = pow-le-pow_right (omega arith) v.small

  pub cached_length : get_cached_length c.out ≡ s - t
  unfolding get_cached_length
  cached_length =
      rw (v.head, v.tail)
        (distance t s (omega (arith, v.behind, v.count)) (omega (arith, v.fits, size_small)))

  pub poll-Rep : Rep (poll_send_tail c).0 k r s r q
  unfolding poll_send_tail
  poll-Rep = record {
    small = v.small;
    out_size = v.out_size;
    in_size = v.in_size;
    head = v.head;
    tail = v.written_back;
    recv_head = v.recv_head;
    written_back = v.written_back;
    behind = omega arith;
    count = v.count;
    fits = omega (arith, v.fits, v.behind);
    filled = v.filled;
    stale = v.stale;
  }

-- A queue of at most `cap` messages.
abbrev pub push : ℕ → List Msg → Msg → List Msg × Bool
push cap q m = if leb cap (length q) then (q, false) else (q ++ m ∷ [], true)

abbrev pub pop : List Msg → List Msg × Option Msg
pop [] = ([], none)
pop (m ∷ q) = (q, some m)

-- `send` with the tests taken out.
send_fast :
    (c : Channel) (cmd payload : ℕ)
    → leb c.out.size (get_cached_length c.out) ≡ false
    → send c cmd payload ≡ (store c cmd payload, true)
unfolding send
send_fast c cmd payload h = rw h

send_full :
    (c : Channel) (cmd payload : ℕ)
    → leb c.out.size (get_cached_length c.out) ≡ true
    → get_cached_length (poll_send_tail c).0.out == (poll_send_tail c).0.out.size ≡ true
    → send c cmd payload ≡ ((poll_send_tail c).0, false)
unfolding send send_slow
send_full c cmd payload h g = rw (h, g)

send_polled :
    (c : Channel) (cmd payload : ℕ)
    → leb c.out.size (get_cached_length c.out) ≡ true
    → get_cached_length (poll_send_tail c).0.out == (poll_send_tail c).0.out.size ≡ false
    → send c cmd payload ≡ (store (poll_send_tail c).0 cmd payload, true)
unfolding send send_slow
send_polled c cmd payload h g = rw (h, g)

-- `send` pushes: it fails exactly if the ring holds 2^k messages, whatever the sender last knew of
-- the receiver.
pub send_refines :
    (c : Channel) (k cmd payload : ℕ) (q : List Msg)
    → Queue c k q
    → cmd < done_parity
    → let (q', pushed) = push (2 ^ k) q (message cmd payload) in
      ((send c cmd payload).1 ≡ pushed) × Queue (send c cmd payload).0 k q'
send_refines c k cmd payload q w small =
    elim (Bool-cases (leb c.out.size (get_cached_length c.out))) [
      | inr free ↦
          let room : s < t + 2 ^ k = ground (arith, cached_length c k r s t q v, v.out_size) in
          let short : leb (2 ^ k) (length q) ≡ false = ground (arith, v.count, v.behind) in
          rw (send_fast c cmd payload free, short)
            (
              refl,
              record {
                received = r;
                sent = s + 1;
                known = t;
                rep = store-Rep c k r s t q cmd payload v room small;
              },
            )
      | inl maybe ↦
          elim (Bool-cases
            (get_cached_length (poll_send_tail c).0.out == (poll_send_tail c).0.out.size)) [
              | inl full ↦
                  let long : leb (2 ^ k) (length q) ≡ true =
                    ground (arith, cached_length c1 k r s r q v1, v1.out_size, v.count) in
                  rw (send_full c cmd payload maybe full, long)
                    (refl, record { received = r; sent = s; known = r; rep = v1 })
              | inr free ↦
                  let room : s < r + 2 ^ k =
                    ground (arith, cached_length c1 k r s r q v1, v1.out_size, v.count, v1.fits) in
                  let short : leb (2 ^ k) (length q) ≡ false = ground (arith, v.count) in
                  rw (send_polled c cmd payload maybe free, short)
                    (
                      refl,
                      record {
                        received = r;
                        sent = s + 1;
                        known = r;
                        rep = store-Rep c1 k r s r q cmd payload v1 room small;
                      },
                    )
            ]
    ]
  where
    open w use {received as r, sent as s, known as t, rep as v}

    c1 : Channel
    c1 = (poll_send_tail c).0

    v1 : Rep c1 k r s r q
    v1 = poll-Rep c k r s t q v

-- `recv` pops the oldest message, and returns false exactly if there is none.
pub recv_refines :
    (c : Channel) (k : ℕ) (q : List Msg)
    → Queue c k q
    → let (q', popped) = pop q in ((recv c).1 ≡ popped) × Queue (recv c).0 k q'
recv_refines c k [] w = rw (recv-empty c k w.received w.sent w.known w.rep) (refl, w)
recv_refines c k (m ∷ q) w =
    let (e, v) = recv-Rep c k w.received w.sent w.known m q w.rep in
    rw e (refl, record { received = w.received + 1; sent = w.sent; known = w.known; rep = v })

-- The calls of both sides, in one order, and what each returns.
pub data Op : Type 0 where
  put : ℕ → ℕ → Op
  get : Op

pub data Reply : Type 0 where
  sent : Bool → Reply
  got : Option Msg → Reply

unfoldable pub run : Channel → List Op → List Reply
run c [] = []
run c (put cmd payload ∷ ops) = let (c', b) = send c cmd payload in sent b ∷ run c' ops
run c (get ∷ ops) = let (c', m) = recv c in got m ∷ run c' ops

unfoldable pub run_queue : ℕ → List Msg → List Op → List Reply
run_queue cap q [] = []
run_queue cap q (put cmd payload ∷ ops) =
    let (q', b) = push cap q (message cmd payload) in sent b ∷ run_queue cap q' ops
run_queue cap q (get ∷ ops) = let (q', m) = pop q in got m ∷ run_queue cap q' ops

-- Commands leave the top bit free, as `lrpc_send` asserts.
abbrev pub AllSmall : List Op → Type 0
AllSmall [] = Unit {0}
AllSmall (put cmd payload ∷ ops) = (cmd < done_parity) × AllSmall ops
AllSmall (get ∷ ops) = AllSmall ops

-- No order of sends and receives tells a channel from the queue of at most 2^k messages that it
-- holds, if the commands leave the parity bit free: the counters may wrap, and the parities tell
-- the new messages from the old.
pub run_refines :
    (c : Channel) (k : ℕ) (q : List Msg) (ops : List Op)
    → Queue c k q
    → AllSmall ops
    → run c ops ≡ run_queue (2 ^ k) q ops
unfolding run run_queue
run_refines c k q [] w small = refl
run_refines c k q (put cmd payload ∷ ops) w (h, small) =
    let (b, w') = send_refines c k cmd payload q w h in
    rw (
      b,
      run_refines (send c cmd payload).0 k (push (2 ^ k) q (message cmd payload)).0 ops w' small,
    )
run_refines c k q (get ∷ ops) w small =
    let (m, w') = recv_refines c k q w in rw (m, run_refines (recv c).0 k (pop q).0 ops w' small)
