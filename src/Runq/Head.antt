-- ===== src/Runq/Head.antt =====
-- The front of the run queue (runtime/sched.c): `thread_ready_head` puts a thread there, and
-- `schedule` and `enter_schedule` take one from it.
use caladan.Common.{
  ℕ, zero, suc, ◌%◌, ◌<◌, ◌≡◌, refl, sym, ap, ◌∙◌, subst, inl, inr, ltb, List, [], ◌∷◌, ◌++◌,
  update, update_self, arith, Bool-cases,
}
use mathlib.Core.List.{append_assoc}
use caladan.Common.Word32.{word32, add32, sub32}
use caladan.Runq.{rq_size, Threads, Runq, in_ring, ready_head}
use caladan.Runq.Ring.{slots, queue, slots-update}
use caladan.Runq.Refine.{IsShown, Grows}

slots-last :
    (rq : ℕ → ℕ) (t n : ℕ)
    → t < word32
    → n < rq_size
    → slots rq t (suc n) ≡ slots rq t n ++ rq (add32 t n % rq_size) ∷ []
unfolding slots
slots-last rq t zero a h =
    let e : t % rq_size ≡ add32 t 0 % rq_size = omega arith in ap (λ (i : ℕ). rq i ∷ []) e
slots-last rq t (suc n) a h =
    let e : add32 (add32 t 1) n % rq_size ≡ add32 t (suc n) % rq_size = omega arith in
    ap (λ (l : List ℕ). rq (t % rq_size) ∷ l)
      (slots-last rq (add32 t 1) n (omega arith) (omega arith)
        ∙ ap (λ (i : ℕ). slots rq (add32 t 1) n ++ rq i ∷ []) e)

-- A thread in the slot ahead of the first
slots-cons :
    (rq : ℕ → ℕ) (t n v : ℕ)
    → t < word32
    → n < rq_size
    → slots (update rq (sub32 t 1 % rq_size) v) (sub32 t 1) (suc n) ≡ v ∷ slots rq t n
unfolding slots
slots-cons rq t n v a h =
    let back : add32 (sub32 t 1) 1 ≡ t = omega arith in
    let wrap : add32 t 31 % rq_size ≡ sub32 t 1 % rq_size = omega arith in
    let same =
      subst (λ (i : ℕ). slots (update rq i v) t n ≡ slots rq t n) wrap
        (slots-update rq t n (add32 t 31) v a (omega arith) (omega arith) (omega arith)) in
    ap (λ (x : ℕ). x ∷ slots (update rq (sub32 t 1 % rq_size) v) (add32 (sub32 t 1) 1) n)
      (update_self rq (sub32 t 1 % rq_size) v)
    ∙ ap (λ (l : List ℕ). v ∷ l)
        (ap (λ (u : ℕ). slots (update rq (sub32 t 1 % rq_size) v) u n) back ∙ same)

-- A full ring, in which the last thread moves to the list
slots-displace :
    (rq : ℕ → ℕ) (t v : ℕ) (ov : List ℕ)
    → t < word32
    → slots (update rq (sub32 t 1 % rq_size) v) (sub32 t 1) 32 ++ rq (sub32 t 1 % rq_size) ∷ ov
      ≡ v ∷ slots rq t 32 ++ ov
slots-displace rq t v ov a =
    let wrap : add32 t 31 % rq_size ≡ sub32 t 1 % rq_size = omega arith in
    let d = rq (sub32 t 1 % rq_size) in
    let last =
      slots-last rq t 31 a (omega arith) ∙ ap (λ (i : ℕ). slots rq t 31 ++ rq i ∷ []) wrap in
    ap (λ (l : List ℕ). l ++ d ∷ ov) (slots-cons rq t 31 v a (omega arith))
    ∙ ap (λ (l : List ℕ). v ∷ l)
        (sym (ap (λ (l : List ℕ). l ++ ov) last ∙ append_assoc (slots rq t 31) (d ∷ []) ov))

pub ready_head-Grows :
    (s : Threads) (k : Runq) (th : ℕ) → IsShown s k → Grows s k (ready_head s k th) (th ∷ queue k)
unfolding ready_head queue
ready_head-Grows s k th v =
    let a = v.ring.head_word in
    let b = v.ring.tail_word in
    let c = v.ring.fits in
    elim (Bool-cases (ltb rq_size (sub32 k.rq_head (sub32 k.rq_tail 1)))) [
      | inl full ↦
          (let n : in_ring k ≡ 32 = ground (arith, full) in
            let m : sub32 (sub32 k.rq_head 1) (sub32 k.rq_tail 1) ≡ 32 = ground (arith, full) in
            rw full (record {
              ring = record {
                head_word = omega arith;
                tail_word = omega arith;
                fits = omega (arith, m);
              };
              grown =
                  ap
                    (λ (i : ℕ).
                      slots (update k.rq (sub32 k.rq_tail 1 % rq_size) th) (sub32 k.rq_tail 1) i
                      ++ k.rq (sub32 k.rq_tail 1 % rq_size) ∷ k.overflow)
                    m
                  ∙ slots-displace k.rq k.rq_tail th k.overflow b
                  ∙ ap (λ (i : ℕ). th ∷ slots k.rq k.rq_tail i ++ k.overflow) (sym n);
              count = refl;
              tail = refl;
              no_gap = inr (omega (arith, m));
              fresh = refl;
            }))
      | inr room ↦
          (let n : in_ring k < 32 = ground (arith, room) in
            let m : sub32 k.rq_head (sub32 k.rq_tail 1) ≡ suc (in_ring k) = ground (arith, room) in
            rw room (record {
              ring = record { head_word = a; tail_word = omega arith; fits = omega (arith, m, n) };
              grown =
                  ap (λ (l : List ℕ). l ++ k.overflow)
                    (ap (slots (update k.rq (sub32 k.rq_tail 1 % rq_size) th) (sub32 k.rq_tail 1)) m
                      ∙ slots-cons k.rq k.rq_tail (in_ring k) th b n);
              count = refl;
              tail = refl;
              no_gap = inr (omega (arith, m));
              fresh = refl;
            }))
    ]
