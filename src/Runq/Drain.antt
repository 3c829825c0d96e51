-- ===== src/Runq/Drain.antt =====
-- Threads are taken from the front of a queue (`drain_threads` of runtime/sched.c).
use caladan.Common.{
  ℕ, zero, suc, ◌-◌, ◌%◌, ◌≤◌, ◌<◌, ◌≡◌, ◌⊎◌, refl, sym, ap, ◌∙◌, inl, inr, true, false, List, [],
  ◌∷◌, ◌++◌, length, arith, Bool-cases,
}
use caladan.Common.Word32.{word32, add32, sub32, wraps_lt}
use caladan.Runq.{rq_size, Runq, is_empty_list, Taken, take_threads}
use caladan.Runq.Ring.{slots}

-- What is taken and what is left make up the queue, from a place in its ring on.
pub record IsTaken (k : Runq) (tail : ℕ) (ov : List ℕ) (nr : ℕ) (t : Taken) : Type 0 where
  pub whole :
      slots k.rq tail (sub32 k.rq_head tail) ++ ov
      ≡ t.threads ++ (slots k.rq t.tail (sub32 k.rq_head t.tail) ++ t.overflow)
  pub tail_word : t.tail < word32
  pub fits : sub32 k.rq_head t.tail ≤ rq_size
  pub most : length t.threads ≤ nr
  pub all :
      (length t.threads ≡ nr) ⊎ ((is_empty_list t.overflow ≡ true) × (sub32 k.rq_head t.tail ≡ 0))
  pub kept :
      ((is_empty_list ov ≡ true) → is_empty_list t.overflow ≡ true)
      × (nr < sub32 k.rq_head tail → 0 < sub32 k.rq_head t.tail)

-- A thread from the ring
slot-IsTaken :
    (k : Runq) (tail : ℕ) (ov : List ℕ) (nr : ℕ) (t : Taken)
    → k.rq_head < word32
    → tail < word32
    → sub32 k.rq_head tail ≤ rq_size
    → wraps_lt tail k.rq_head ≡ true
    → IsTaken k (add32 tail 1) ov nr t
    → IsTaken k tail ov (suc nr) (record t { threads = k.rq (tail % rq_size) ∷ t.threads })
unfolding wraps_lt slots
slot-IsTaken k tail ov nr t a b c e v =
    let n : sub32 k.rq_head tail ≡ suc (sub32 k.rq_head tail - 1) = ground (arith, e) in
    let m : sub32 k.rq_head tail - 1 ≡ sub32 k.rq_head (add32 tail 1) = ground (arith, e) in
    record {
      whole =
          ap (λ (i : ℕ). slots k.rq tail i ++ ov) n
          ∙ ap (λ (l : List ℕ). k.rq (tail % rq_size) ∷ l)
              (ap (λ (i : ℕ). slots k.rq (add32 tail 1) i ++ ov) m ∙ v.whole);
      tail_word = v.tail_word;
      fits = v.fits;
      most = omega (arith, v.most);
      all = elim v.all [ inl h ↦ inl (omega (arith, h)) | inr h ↦ inr h ];
      kept = (v.kept.0, λ p. v.kept.1 (omega (arith, p, m, n)));
    }

-- A thread from the list, behind an empty ring
list-IsTaken :
    (k : Runq) (tail th : ℕ) (ths : List ℕ) (nr : ℕ) (t : Taken)
    → sub32 k.rq_head tail ≡ 0
    → IsTaken k tail ths nr t
    → IsTaken k tail (th ∷ ths) (suc nr) (record t { threads = th ∷ t.threads })
unfolding slots
list-IsTaken k tail th ths nr t n v = record {
  whole =
      ap (λ (i : ℕ). slots k.rq tail i ++ th ∷ ths) n
      ∙ ap (λ (l : List ℕ). th ∷ l) (ap (λ (i : ℕ). slots k.rq tail i ++ ths) (sym n) ∙ v.whole);
  tail_word = v.tail_word;
  fits = v.fits;
  most = omega (arith, v.most);
  all = elim v.all [ inl h ↦ inl (omega (arith, h)) | inr h ↦ inr h ];
  kept = (λ e. cc, λ p. absurd (omega (arith, p, n)));
}

empty_ring :
    (h t : ℕ) → h < word32 → t < word32 → sub32 h t ≤ rq_size → wraps_lt t h ≡ false → sub32 h t ≡ 0
unfolding wraps_lt
empty_ring h t a b c e = ground (arith, e)

ring_after :
    (h t : ℕ)
    → h < word32
    → t < word32
    → sub32 h t ≤ rq_size
    → wraps_lt t h ≡ true
    → sub32 h (add32 t 1) ≤ rq_size
unfolding wraps_lt
ring_after h t a b c e = ground (arith, e)

-- Behind the ring
behind :
    (k : Runq) (tail : ℕ) (ov : List ℕ) (nr : ℕ)
    → tail < word32
    → sub32 k.rq_head tail ≤ rq_size
    → sub32 k.rq_head tail ≡ 0
    → ((ths : List ℕ) → IsTaken k tail ths nr (take_threads nr k tail ths))
    → IsTaken k tail ov (suc nr) (elim ov [
      | [] ↦ record { threads = []; tail = tail; overflow = [] }
      | th ∷ ths ↦ (let t = take_threads nr k tail ths in record t { threads = th ∷ t.threads })
    ])
behind k tail [] nr b c n ih = record {
  whole = refl;
  tail_word = b;
  fits = c;
  most = omega arith;
  all = inr (refl, n);
  kept = (λ e. e, λ p. absurd (omega (arith, p, n)));
}
behind k tail (th ∷ ths) nr b c n ih =
    list-IsTaken k tail th ths nr (take_threads nr k tail ths) n (ih ths)

pub take_threads_lem :
    (nr : ℕ) (k : Runq) (tail : ℕ) (ov : List ℕ)
    → k.rq_head < word32
    → tail < word32
    → sub32 k.rq_head tail ≤ rq_size
    → IsTaken k tail ov nr (take_threads nr k tail ov)
unfolding take_threads
take_threads_lem zero k tail ov a b c = record {
  whole = refl;
  tail_word = b;
  fits = c;
  most = omega arith;
  all = inl refl;
  kept = (λ e. e, λ e. e);
}
take_threads_lem (suc nr) k tail ov a b c = elim (Bool-cases (wraps_lt tail k.rq_head)) [
  | inl more ↦
      rw (more, take_threads)
        (slot-IsTaken k tail ov nr (take_threads nr k (add32 tail 1) ov) a b c more (
          take_threads_lem nr k (add32 tail 1) ov a (omega arith)
            (ring_after k.rq_head tail a b c more)))
  | inr done ↦
      rw (done, take_threads)
        (behind k tail ov nr b c (empty_ring k.rq_head tail a b c done)
          (λ ths. take_threads_lem nr k tail ths a b c))
]
