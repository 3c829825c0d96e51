-- ===== src/Lrpc/Rep.antt =====
-- When a ring of 2^k messages holds a queue, and that a store appends to it (base/lrpc.c).
use Prim.Native.Nat.{bit_and, bit_or}
use native.Mathlib.Nat.{one-le-pow, add-div_right, add-mod_right}
use caladan.Common.{
  ℕ, ◌+◌, ◌-◌, ◌*◌, ◌/◌, ◌%◌, ◌^◌, ◌≤◌, ◌<◌, ◌≡◌, inl, inr, Bool, true, false, arith, ◌==◌, ap, ◌∙◌,
  sym, List, [], ◌∷◌, ◌++◌, length, length-append, Bool-cases, some, none, update, update_self,
  update_ne,
}
use caladan.Common.Mod.{mod-ne-mod}
use caladan.Lrpc.{Msg, Channel, u32_mod, done_parity, cmd_mask, inc_u32, store, parity, slot, recv}
use caladan.Lrpc.Words.{round, slot_lem, parity_lem, increment, encode, decode_parity, decode_cmd}

-- A message as it stands in the table, sent at position `i`.
abbrev pub sealed : ℕ → ℕ → Msg → Msg
sealed k i m = record { cmd = m.cmd + (1 - round k i) * done_parity; payload = m.payload }

-- The table holds the messages from position `r` on.
abbrev pub Filled : (ℕ → Msg) → ℕ → ℕ → List Msg → Type 0
Filled tbl k r [] = Unit {0}
Filled tbl k r (m ∷ ms) =
    (m.cmd < done_parity) × (tbl (r % 2 ^ k) ≡ sealed k r m) × Filled tbl k (r + 1) ms

-- `s` messages have been sent, `r` received, and the sender knows of `t` of these. The slots that
-- are free have the parity of the round before.
pub record Rep (c : Channel) (k r s t : ℕ) (q : List Msg) : Type 0 where
  pub small : k ≤ 31
  pub out_size : c.out.size ≡ 2 ^ k
  pub in_size : c.inward.size ≡ 2 ^ k
  pub head : c.out.send_head ≡ s % u32_mod
  pub tail : c.out.send_tail ≡ t % u32_mod
  pub recv_head : c.inward.recv_head ≡ r % u32_mod
  pub written_back : c.recv_head_wb ≡ r % u32_mod
  pub behind : t ≤ r
  pub count : r + length q ≡ s
  pub fits : s ≤ t + 2 ^ k
  pub filled : Filled c.tbl k r q
  pub stale :
      (j : ℕ)
      → s ≤ j
      → j < r + 2 ^ k
      → ((c.tbl (j % 2 ^ k)).cmd < 2 ^ 64) × ((c.tbl (j % 2 ^ k)).cmd / done_parity ≡ round k j)

Filled-store :
    (tbl : ℕ → Msg) (k r s : ℕ) (q : List Msg) (m v : Msg)
    → r + length q ≡ s
    → s < r + 2 ^ k
    → m.cmd < done_parity
    → v ≡ sealed k s m
    → Filled tbl k r q
    → Filled (update tbl (s % 2 ^ k) v) k r (q ++ m ∷ [])
Filled-store tbl k r s [] m v e lt small at f =
    let e' : r ≡ s = omega arith in rw e' (small, update_self tbl (s % 2 ^ k) v ∙ at, tt)
Filled-store tbl k r s (x ∷ xs) m v e lt small at f = (
  f.0,
  update_ne tbl v (λ same. mod-ne-mod r s (2 ^ k) (omega arith) lt (sym same)) ∙ f.1,
  Filled-store tbl k (r + 1) s xs m v (omega arith) (omega arith) small at f.2,
)

abbrev pub message : ℕ → ℕ → Msg
message cmd payload = record { cmd = cmd; payload = payload }

-- A store appends its message, if the sender knows of a free slot.
pub store-Rep :
    (c : Channel) (k r s t : ℕ) (q : List Msg) (cmd payload : ℕ)
    → Rep c k r s t q
    → s < t + 2 ^ k
    → cmd < done_parity
    → Rep (store c cmd payload) k r (s + 1) t (q ++ message cmd payload ∷ [])
unfolding store
store-Rep c k r s t q cmd payload v room small = record {
  small = v.small;
  out_size = v.out_size;
  in_size = v.in_size;
  head = rw v.head (increment s);
  tail = v.tail;
  recv_head = v.recv_head;
  written_back = v.written_back;
  behind = v.behind;
  count = omega (arith, v.count, length-append {0} q (message cmd payload ∷ []));
  fits = omega arith;
  filled = rw at_slot (
      Filled-store c.tbl k r s q (message cmd payload) _ v.count (omega (arith, v.behind)) small
        encoded v.filled);
  stale = λ j h0 h1.
      let other = mod-ne-mod s j (2 ^ k) (omega arith) (omega (arith, v.behind)) in
      rw at_slot (ground (arith, other, v.stale j));
}
  where
    at_slot : slot c.out.send_head c.out.size ≡ s % 2 ^ k
    at_slot = rw (v.head, v.out_size) (slot_lem k s v.small)

    marked : parity c.out.send_head c.out.size ≡ (1 - round k s) * done_parity
    marked = rw (v.head, v.out_size) (parity_lem k s v.small)

    encoded :
        ◌≡◌ {A = Msg}
          (record { cmd = bit_or cmd (parity c.out.send_head c.out.size); payload = payload })
          (sealed k s (message cmd payload))
    encoded =
        ap (λ (x : ℕ). record { cmd = x; payload = payload })
          (ap (bit_or cmd) marked ∙ encode cmd (1 - round k s) small (omega arith))

-- What the receiver reads: its slot, and the parity that it waits for.
module _ (c : Channel) (k r s t : ℕ) (q : List Msg) (v : Rep c k r s t q) where
  next_slot : slot c.inward.recv_head c.inward.size ≡ r % 2 ^ k
  next_slot = rw (v.recv_head, v.in_size) (slot_lem k r v.small)

  next_parity : parity c.inward.recv_head c.inward.size ≡ (1 - round k r) * done_parity
  next_parity = rw (v.recv_head, v.in_size) (parity_lem k r v.small)

  abbrev next_msg : Msg
  next_msg = c.tbl (slot c.inward.recv_head c.inward.size)

  abbrev ready : Bool
  ready = bit_and next_msg.cmd done_parity == parity c.inward.recv_head c.inward.size

abbrev received : Channel → Channel
received c = record c {
  inward = record { recv_head = inc_u32 c.inward.recv_head; size = c.inward.size };
  recv_head_wb = inc_u32 c.inward.recv_head;
}

module _ (c : Channel) (k r s t : ℕ) (m : Msg) (q : List Msg) (v : Rep c k r s t (m ∷ q)) where
  next_sealed : next_msg c k r s t (m ∷ q) v ≡ sealed k r m
  next_sealed = ap c.tbl (next_slot c k r s t (m ∷ q) v) ∙ v.filled.1

  next_ready : ready c k r s t (m ∷ q) v ≡ true
  next_ready = rw next_sealed (
      ground (
        arith,
        next_parity c k r s t (m ∷ q) v,
        decode_parity (m.cmd + (1 - round k r) * done_parity) (omega (arith, v.filled.0)),
        v.filled.0,
      ))

  next_cmd : bit_and (next_msg c k r s t (m ∷ q) v).cmd cmd_mask ≡ m.cmd
  next_cmd =
      rw next_sealed (omega (arith, decode_cmd (m.cmd + (1 - round k r) * done_parity), v.filled.0))

  next_payload : (next_msg c k r s t (m ∷ q) v).payload ≡ m.payload
  next_payload = rw next_sealed

  received-stale :
      (j : ℕ)
      → s ≤ j
      → j < r + 1 + 2 ^ k
      → ((c.tbl (j % 2 ^ k)).cmd < 2 ^ 64) × ((c.tbl (j % 2 ^ k)).cmd / done_parity ≡ round k j)
  received-stale j h0 h1 = elim (Bool-cases (j == r + 2 ^ k)) [
    | inl e ↦
        let e' : j ≡ r + 2 ^ k = ground arith in
        rw
          (
            e',
            add-mod_right r (2 ^ k),
            v.filled.1,
            add-div_right r {k = 2 ^ k} (one-le-pow k 2 (omega arith)),
          )
          (omega (arith, v.filled.0))
    | inr ne ↦ v.stale j h0 (ground arith)
  ]

  received-Rep : Rep (received c) k (r + 1) s t q
  received-Rep = record {
    small = v.small;
    out_size = v.out_size;
    in_size = v.in_size;
    head = v.head;
    tail = v.tail;
    recv_head = rw v.recv_head (increment r);
    written_back = rw v.recv_head (increment r);
    behind = omega (arith, v.behind);
    count = omega (arith, v.count);
    fits = v.fits;
    filled = v.filled.2;
    stale = received-stale;
  }

-- A receive takes the message at the front.
pub recv-Rep :
    (c : Channel) (k r s t : ℕ) (m : Msg) (q : List Msg)
    → Rep c k r s t (m ∷ q)
    → (recv c ≡ (received c, some m)) × Rep (received c) k (r + 1) s t q
unfolding recv
recv-Rep c k r s t m q v = (
  rw (next_ready c k r s t m q v, next_cmd c k r s t m q v, next_payload c k r s t m q v),
  received-Rep c k r s t m q v,
)

-- A receive from an empty ring finds the parity of the round before.
pub recv-empty : (c : Channel) (k r s t : ℕ) → Rep c k r s t [] → recv c ≡ (c, none)
unfolding recv
recv-empty c k r s t v = rw not_ready
  where
    not_ready : ready c k r s t [] v ≡ false
    not_ready = ground (
      arith,
      ap (λ x. (c.tbl x).cmd) (next_slot c k r s t [] v),
      next_parity c k r s t [] v,
      v.stale r (omega (arith, v.count)) (omega (arith, one-le-pow k 2)),
      decode_parity (c.tbl (r % 2 ^ k)).cmd,
    )
