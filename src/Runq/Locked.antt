-- ===== src/Runq/Locked.antt =====
-- The thread goes behind the others under the lock of the kthread (`thread_ready_locked` of
-- runtime/sched.c).
use caladan.Common.{
  ℕ, ◌≡◌, ◌⊎◌, refl, sym, ap, ◌∙◌, subst, inl, inr, true, leb, if◌then◌else◌, List, [], ◌∷◌, ◌++◌,
  length, arith, Bool-cases,
}
use mathlib.Core.List.{append_assoc}
use caladan.Common.Word32.{add32}
use caladan.Runq.{
  rq_size, Threads, Runq, in_ring, show_one, put_last, drain_overflow, is_empty_list, ready_locked,
}
use caladan.Runq.Ring.{slots, queue, InRing, drain_from_lem}
use caladan.Runq.Refine.{Fresh, IsShown, queue-some, Fresh-snoc, Grows, put_last-Grows}

-- What moving threads from the list to the ring changes: nothing of the queue.
pub record Settled (s : Threads) (k k' : Runq) : Type 0 where
  pub ring : InRing k'
  pub same : queue k' ≡ queue k
  pub full : (is_empty_list k'.overflow ≡ true) ⊎ (in_ring k' ≡ rq_size)
  pub first : k'.rq_tail ≡ k.rq_tail
  pub count :
      (k'.shown_head ≡ k.shown_head)
      × (k'.shown_tail ≡ k.shown_tail)
      × (k'.oldest_tsc ≡ k.oldest_tsc)

pub drain_overflow_lem :
    (s : Threads) (k : Runq)
    → InRing k
    → Settled s k (if is_empty_list k.overflow then k else drain_overflow k)
unfolding queue
drain_overflow_lem s k v = elim (Bool-cases (is_empty_list k.overflow)) [
  | inl e ↦
      rw e
        (record { ring = v; same = refl; full = inl e; first = refl; count = (refl, refl, refl) })
  | inr e ↦
      (let d = drain_from_lem k.overflow k v in
        rw e (record {
          ring = d.valid;
          same = d.same;
          full = d.full;
          first = d.first;
          count = d.shown;
        }))
]

pub Settled-IsShown : (s : Threads) (k k' : Runq) → IsShown s k → Settled s k k' → IsShown s k'
Settled-IsShown s k k' v d =
    let q = sym d.same in
    let n = ap length q in
    record {
      ring = d.ring;
      shown_word = omega (arith, v.shown_word, d.count.1);
      counted = omega (arith, v.counted, d.count.0, d.count.1, n);
      no_gap = elim d.full [ inl e ↦ inl e | inr e ↦ inr (omega (arith, e)) ];
      fresh =
          subst (λ (t : ℕ). Fresh s.ready_tsc t (queue k')) (sym d.count.2)
            (subst (λ (ths : List ℕ). Fresh s.ready_tsc k.oldest_tsc ths) q v.fresh);
    }

Settled-Grows :
    (s : Threads) (k k' k'' : Runq) (th : ℕ)
    → Settled s k k'
    → Grows s k' k'' (queue k' ++ th ∷ [])
    → Grows s k k'' (queue k ++ th ∷ [])
Settled-Grows s k k' k'' th d g =
    let e = ap (λ (q : List ℕ). q ++ th ∷ []) d.same in
    record {
      ring = g.ring;
      grown = g.grown ∙ e;
      count = g.count ∙ ap (λ (c : ℕ). add32 c 1) d.count.0;
      tail = g.tail ∙ d.count.1;
      no_gap = g.no_gap;
      fresh = subst (λ (q : List ℕ). Fresh s.ready_tsc k''.oldest_tsc q) e g.fresh;
    }

-- A thread behind the list of a full ring
full-Grows :
    (s : Threads) (k : Runq) (th : ℕ)
    → IsShown s k
    → in_ring k ≡ rq_size
    → Grows s k (show_one (record k { overflow = k.overflow ++ th ∷ [] })) (queue k ++ th ∷ [])
unfolding queue
full-Grows s k th v full = record {
  ring = record { head_word = v.ring.head_word; tail_word = v.ring.tail_word; fits = v.ring.fits };
  grown = sym (append_assoc (slots k.rq k.rq_tail (in_ring k)) k.overflow (th ∷ []));
  count = refl;
  tail = refl;
  no_gap = inr (omega (arith, full));
  fresh =
      Fresh-snoc s.ready_tsc k.oldest_tsc (queue k) th (queue-some k (omega (arith, full))) v.fresh;
}

drained_locked-Grows :
    (s : Threads) (k : Runq) (th : ℕ)
    → IsShown s k
    → (is_empty_list k.overflow ≡ true) ⊎ (in_ring k ≡ rq_size)
    → Grows s k
        (if leb rq_size (in_ring k)
          then show_one (record k { overflow = k.overflow ++ th ∷ [] })
          else put_last s k th)
        (queue k ++ th ∷ [])
drained_locked-Grows s k th v d = elim (Bool-cases (leb rq_size (in_ring k))) [
  | inl full ↦ rw full (full-Grows s k th v (ground (arith, full, v.ring.fits)))
  | inr room ↦
      (let e : is_empty_list k.overflow ≡ true = elim d [
        | inl e ↦ e
        | inr n ↦ absurd (ground (arith, room, n))
      ] in
        rw room (put_last-Grows s k th v.ring (ground (arith, room)) e v.fresh))
]

pub ready_locked-Grows :
    (s : Threads) (k : Runq) (th : ℕ)
    → IsShown s k
    → Grows s k (ready_locked s k th) (queue k ++ th ∷ [])
unfolding ready_locked
ready_locked-Grows s k th v =
    let d = drain_overflow_lem s k v.ring in
    let v' = Settled-IsShown s k _ v d in
    Settled-Grows s k _ _ th d (drained_locked-Grows s _ th v' d.full)
