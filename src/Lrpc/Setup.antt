-- ===== src/Lrpc/Setup.antt =====
-- How a channel starts, and what the sender knows of the free slots (base/lrpc.c,
-- inc/base/lrpc.h, and `is_power_of_two` of inc/base/stddef.h).
use Prim.Native.Nat.{bit_and}
use native.Mathlib.Nat.{one-le-pow, pow-le-pow_right, pow-suc, mod_self, div-eq_of_lt}
use caladan.Common.{
  ℕ, zero, suc, ◌+◌, ◌-◌, ◌*◌, ◌/◌, ◌%◌, ◌^◌, ◌≤◌, ◌<◌, ◌≡◌, ◌↔◌, refl, ◌⊎◌, inl, inr, true, false,
  arith, leb, ◌==◌, ap, sym, subst, List, [], ◌∷◌, length, Bool-cases, some, none,
}
use caladan.Common.Bits.{bit_and-mask, bit_and_halves}
use caladan.Lrpc.{
  Msg, ChanOut, ChanIn, Channel, get_cached_length, get_cached_send_window, poll_send_tail,
  init_out, init_in, is_power_of_two, is_empty, recv,
}
use caladan.Lrpc.Rep.{Rep}
use caladan.Lrpc.Refine.{Queue, cached_length, size_small, poll-Rep, recv_refines}

bit_and_self_below : (n a : ℕ) → a ≤ n → bit_and a a ≡ a
bit_and_self_below n zero h = refl
bit_and_self_below zero (suc a) h = absurd (omega arith)
bit_and_self_below (suc n) (suc a) h =
    omega (arith, bit_and_halves (suc a) (suc a), bit_and_self_below n (suc a / 2) (omega arith))

-- A number is 0, odd or twice a positive number; the test goes with it.
masked_odd : (y : ℕ) → bit_and (2 * y + 1) (2 * y + 1 - 1) ≡ 2 * y
masked_odd y =
    ground (arith, bit_and_halves (2 * y + 1) (2 * y + 1 - 1), bit_and_self_below y y (omega arith))

masked_even : (y : ℕ) → 0 < y → bit_and (2 * y) (2 * y - 1) ≡ 2 * bit_and y (y - 1)
masked_even y h = ground (arith, bit_and_halves (2 * y) (2 * y - 1))

power_below : (n x : ℕ) → x ≤ n → 0 < x → bit_and x (x - 1) ≡ 0 → (k : ℕ) × (x ≡ 2 ^ k)
power_below zero x h pos e = absurd (omega arith)
power_below (suc n) x h pos e = elim (Bool-cases (x % 2 == 0)) [
  | inl even ↦
      let twice : x ≡ 2 * (x / 2) = ground arith in
      let (k, p) =
        power_below n (x / 2) (omega arith) (omega arith)
          (ground (arith, masked_even (x / 2), ap (λ (t : ℕ). bit_and t (t - 1)) twice)) in
      (suc k, omega (arith, pow-suc 2 k, p, twice))
  | inr odd ↦
      let more : x ≡ 2 * (x / 2) + 1 = ground arith in
      (0, ground (arith, masked_odd (x / 2), ap (λ (t : ℕ). bit_and t (t - 1)) more))
]

-- `is_power_of_two` holds exactly of the powers of two.
pub is_power_of_two_iff : (x : ℕ) → (is_power_of_two x ≡ true) ↔ ((k : ℕ) × (x ≡ 2 ^ k))
unfolding is_power_of_two
is_power_of_two_iff x = (
  λ h. power_below x x (omega arith) (ground arith) (ground arith),
  λ (k, e). rw e (ground (arith, bit_and-mask k (2 ^ k), mod_self (2 ^ k), one-le-pow k 2)),
)

abbrev pub no_msg : Msg
no_msg = record { cmd = 0; payload = 0 }

-- The two ends over one zeroed table and head word.
abbrev pub connect : ChanOut → ChanIn → Channel
connect o i = record { out = o; inward = i; tbl = λ j. no_msg; recv_head_wb = 0 }

exponent_small : (k : ℕ) → 2 ^ k ≤ 2 ^ 31 → k ≤ 31
exponent_small k h = elim (Bool-cases (leb k 31)) [
  | inl le ↦ ground arith
  | inr gt ↦
      absurd (omega (arith, pow-le-pow_right {n = 2} (omega arith) {i = 32} {j = k} (ground arith)))
]

abbrev fresh_out : ℕ → ChanOut
fresh_out size = record { send_head = 0; send_tail = 0; size = size }

abbrev fresh_in : ℕ → ChanIn
fresh_in size = record { recv_head = 0; size = size }

fresh-Rep : (k : ℕ) → k ≤ 31 → Rep (connect (fresh_out (2 ^ k)) (fresh_in (2 ^ k))) k 0 0 0 []
fresh-Rep k h = record {
  small = h;
  out_size = refl;
  in_size = refl;
  head = refl;
  tail = refl;
  recv_head = refl;
  written_back = refl;
  behind = omega arith;
  count = refl;
  fits = omega arith;
  filled = tt;
  stale = λ j h0 h1. (omega arith, omega (arith, div-eq_of_lt {n = j} {m = 2 ^ k} (omega arith)));
}

-- Both inits refuse exactly the sizes that are no power of two, and a channel that they set up
-- over zeroed memory, of at most 2^31 messages, holds the empty queue.
pub init_refines :
    (size : ℕ)
    → size ≤ 2 ^ 31
    → ((init_out size ≡ none) × (init_in size ≡ none) × (is_power_of_two size ≡ false))
      ⊎ ((o : ChanOut) × (i : ChanIn) × (k : ℕ) × (init_out size ≡ some o)
          × (init_in size ≡ some i)
          × (size ≡ 2 ^ k)
          × Queue (connect o i) k [])
unfolding init_out init_in
init_refines size h = elim (Bool-cases (is_power_of_two size)) [
  | inr bad ↦ inl (rw bad, rw bad, bad)
  | inl good ↦
      let (k, e) = (is_power_of_two_iff size).0 good in
      let small = exponent_small k (omega arith) in
      let rep = fresh-Rep k small in
      inr (
        fresh_out size,
        fresh_in size,
        k,
        rw good,
        rw good,
        e,
        record {
          received = 0;
          sent = 0;
          known = 0;
          rep = subst (λ x. Rep (connect (fresh_out x) (fresh_in x)) k 0 0 0 []) (sym e) rep;
        },
      )
]

-- The sender's cached length and window make up the size; the length is never less than what is
-- queued, so the window is never more than what is free. After a poll the length is what is
-- queued.
pub send_window_lem :
    (c : Channel) (k : ℕ) (q : List Msg)
    → Queue c k q
    → (get_cached_send_window c.out + get_cached_length c.out ≡ 2 ^ k)
      × (length q ≤ get_cached_length c.out)
      × (get_cached_length (poll_send_tail c).0.out ≡ length q)
      × ((poll_send_tail c).1 ≡ (poll_send_tail c).0.out.send_tail)
unfolding get_cached_send_window
send_window_lem c k q w = (
  rw (cached_length c k r s t q v, v.head, v.tail, v.out_size)
      (omega (arith, v.fits, v.behind, v.count, size_small c k r s t q v)),
  omega (arith, cached_length c k r s t q v, v.count, v.behind),
  omega (arith, cached_length (poll_send_tail c).0 k r s r q (poll-Rep c k r s t q v), v.count),
  (unfold poll_send_tail in refl),
)
  where
    open w use {received as r, sent as s, known as t, rep as v}

empty_none : (c : Channel) → (recv c).1 ≡ none → is_empty c ≡ true
unfolding is_empty recv
empty_none c h = ground (arith, h)

not_empty_some : (c : Channel) (m : Msg) → (recv c).1 ≡ some m → is_empty c ≡ false
unfolding is_empty recv
not_empty_some c m h = ground (arith, h)

-- `lrpc_empty` is true exactly if nothing is queued.
pub is_empty_lem :
    (c : Channel) (k : ℕ) (q : List Msg) → Queue c k q → (is_empty c ≡ true) ↔ (q ≡ [])
is_empty_lem c k [] w = (λ h. refl, λ h. empty_none c (recv_refines c k [] w).0)
is_empty_lem c k (m ∷ q) w =
    let full = not_empty_some c m (recv_refines c k (m ∷ q) w).0 in (λ h. cc, λ h. cc)
