-- ===== src/Runq/Ring.antt =====
-- The threads that a queue holds, in order: those of the ring and those of the list
-- (runtime/sched.c).
use caladan.Common.{
  ℕ, zero, suc, ◌%◌, ◌≤◌, ◌<◌, ◌≡◌, ◌≢◌, refl, ap, ◌∙◌, subst, inl, inr, ◌⊎◌, true, ltb, List, [],
  ◌∷◌, ◌++◌, length, update, update_self, update_ne, arith, Bool-cases,
}
use caladan.Common.Word32.{word32, add32, sub32}
use caladan.Runq.{rq_size, Runq, in_ring, put_slot, drain_from, is_empty_list}
use mathlib.Core.List.{append_assoc}

-- `n` threads of the ring from a slot on
unfoldable pub slots : (ℕ → ℕ) → ℕ → ℕ → List ℕ
slots rq t zero = []
slots rq t (suc n) = rq (t % rq_size) ∷ slots rq (add32 t 1) n

unfoldable pub queue : Runq → List ℕ
unfolding slots
queue k = slots k.rq k.rq_tail (in_ring k) ++ k.overflow

-- The counters are words, and the ring is not overfull.
pub record InRing (k : Runq) : Type 0 where
  pub head_word : k.rq_head < word32
  pub tail_word : k.rq_tail < word32
  pub fits : in_ring k ≤ rq_size

pub length-slots : (rq : ℕ → ℕ) (t n : ℕ) → length (slots rq t n) ≡ n
unfolding slots
length-slots rq t zero = refl
length-slots rq t (suc n) = ap suc (length-slots rq (add32 t 1) n)

-- A slot that is not among the first 32 from `t` on, or is but behind the first `n`
pub slots-update :
    (rq : ℕ → ℕ) (t n p v : ℕ)
    → t < word32
    → p < word32
    → n ≤ sub32 p t
    → sub32 p t < rq_size
    → slots (update rq (p % rq_size) v) t n ≡ slots rq t n
unfolding slots
slots-update rq t zero p v a b h k = refl
slots-update rq t (suc n) p v a b h k =
    let apart : p % rq_size ≢ t % rq_size = omega arith in
    let e = update_ne rq v apart in
    let rest = slots-update rq (add32 t 1) n p v (omega arith) b (omega arith) (omega arith) in
    rw (e, rest) refl

pub slots-snoc :
    (rq : ℕ → ℕ) (t n v : ℕ)
    → t < word32
    → n < rq_size
    → slots (update rq (add32 t n % rq_size) v) t (suc n) ≡ slots rq t n ++ v ∷ []
unfolding slots
slots-snoc rq t zero v a h =
    let e : add32 t 0 % rq_size ≡ t % rq_size = omega arith in
    ap (λ (x : ℕ). x ∷ []) (rw e (update_self rq (t % rq_size) v))
slots-snoc rq t (suc n) v a h =
    let apart : add32 t (suc n) % rq_size ≢ t % rq_size = omega arith in
    let same : add32 (add32 t 1) n ≡ add32 t (suc n) = omega arith in
    let rest =
      subst
        (λ (p : ℕ).
          slots (update rq (p % rq_size) v) (add32 t 1) (suc n) ≡ slots rq (add32 t 1) n ++ v ∷ [])
        same (slots-snoc rq (add32 t 1) n v (omega arith) (omega arith)) in
    ap (λ (x : ℕ). x ∷ slots (update rq (add32 t (suc n) % rq_size) v) (add32 t 1) (suc n))
      (update_ne rq v apart)
    ∙ ap (λ (l : List ℕ). rq (t % rq_size) ∷ l) rest

-- A thread written behind the last
pub queue-put_slot :
    (k : Runq) (th : ℕ)
    → InRing k
    → in_ring k < rq_size
    → (slots (put_slot k th).rq k.rq_tail (in_ring (put_slot k th))
        ≡ slots k.rq k.rq_tail (in_ring k) ++ th ∷ [])
      × InRing (put_slot k th)
      × (in_ring (put_slot k th) ≡ suc (in_ring k))
queue-put_slot k th v h =
    let a = v.head_word in
    let b = v.tail_word in
    let grown : in_ring (put_slot k th) ≡ suc (in_ring k) = omega arith in
    let at : add32 k.rq_tail (in_ring k) ≡ k.rq_head = omega arith in
    let put =
      subst
        (λ (p : ℕ).
          slots (update k.rq (p % rq_size) th) k.rq_tail (suc (in_ring k))
          ≡ slots k.rq k.rq_tail (in_ring k) ++ th ∷ [])
        at (slots-snoc k.rq k.rq_tail (in_ring k) th b h) in
    (
      ap (slots (update k.rq (k.rq_head % rq_size) th) k.rq_tail) grown ∙ put,
      record { head_word = omega arith; tail_word = b; fits = omega (arith, grown, h) },
      grown,
    )

-- What a drain leaves: the same threads, in a ring that is full if any are left over.
pub record Drained (k k' : Runq) (ths : List ℕ) : Type 0 where
  pub valid : InRing k'
  pub same : queue k' ≡ slots k.rq k.rq_tail (in_ring k) ++ ths
  pub full : (is_empty_list k'.overflow ≡ true) ⊎ (in_ring k' ≡ rq_size)
  pub first : k'.rq_tail ≡ k.rq_tail
  pub shown :
      (k'.shown_head ≡ k.shown_head)
      × (k'.shown_tail ≡ k.shown_tail)
      × (k'.oldest_tsc ≡ k.oldest_tsc)

pub drain_from_lem : (ths : List ℕ) (k : Runq) → InRing k → Drained k (drain_from ths k) ths
unfolding drain_from queue
drain_from_lem [] k v = record {
  valid = record { head_word = v.head_word; tail_word = v.tail_word; fits = v.fits };
  same = refl;
  full = inl refl;
  first = refl;
  shown = (refl, refl, refl);
}
drain_from_lem (th ∷ ths) k v = elim (Bool-cases (ltb (in_ring k) rq_size)) [
  | inl room ↦
      (let (put, v', n) = queue-put_slot k th v (ground (arith, room)) in
        let d = drain_from_lem ths (put_slot k th) v' in
        rw room (record {
          valid = d.valid;
          same =
              d.same
              ∙ ap (λ (l : List ℕ). l ++ ths) put
              ∙ append_assoc (slots k.rq k.rq_tail (in_ring k)) (th ∷ []) ths;
          full = d.full;
          first = d.first;
          shown = d.shown;
        }))
  | inr full ↦ rw full (record {
    valid = record { head_word = v.head_word; tail_word = v.tail_word; fits = v.fits };
    same = refl;
    full = inr (ground (arith, full, v.fits));
    first = refl;
    shown = (refl, refl, refl);
  })
]
