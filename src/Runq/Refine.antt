-- ===== src/Runq/Refine.antt =====
-- The run queue is a queue (runtime/sched.c): threads that become ready go behind or ahead of the
-- others, and the first is run.
use caladan.Common.{
  ℕ, suc, ◌-◌, ◌%◌, ◌<◌, ◌≡◌, ◌⊎◌, refl, sym, ap, ◌∙◌, subst, inl, inr, true, false, not, ◌||◌,
  ◌==◌, leb, List, [], ◌∷◌, ◌++◌, length, arith, Bool-cases,
}
use mathlib.Core.List.{append_assoc, append-nil}
use caladan.Common.Word32.{word32, add32}
use caladan.Runq.{rq_size, Threads, Runq, in_ring, put_slot, put_last, is_empty_list, ready_tail}
use caladan.Runq.Ring.{slots, queue, InRing, queue-put_slot, drain_from_lem}

-- The time is that of the first.
abbrev pub Fresh : (ℕ → ℕ) → ℕ → List ℕ → Type 0
Fresh f t [] = Unit {0}
Fresh f t (x ∷ xs) = t ≡ f x

-- What holds of the ring and of what is shown to the I/O kernel: the counters differ by the number
-- of threads, and the oldest time is that of the first. The list is not used with an empty ring.
pub record IsShown (s : Threads) (k : Runq) : Type 0 where
  pub ring : InRing k
  pub shown_word : k.shown_tail < word32
  pub counted : k.shown_head ≡ add32 k.shown_tail (length (queue k))
  pub no_gap : (is_empty_list k.overflow ≡ true) ⊎ (0 < in_ring k)
  pub fresh : Fresh s.ready_tsc k.oldest_tsc (queue k)

pub is_empty_list_lem : (xs : List ℕ) → is_empty_list xs ≡ true → xs ≡ []
is_empty_list_lem [] h = refl
is_empty_list_lem (x ∷ xs) h = cc

-- A ring with threads shows the first of the queue.
pub queue-first :
    (k : Runq) (n : ℕ)
    → in_ring k ≡ suc n
    → queue k ≡ k.rq (k.rq_tail % rq_size) ∷ slots k.rq (add32 k.rq_tail 1) n ++ k.overflow
unfolding queue slots
queue-first k n e = ap (λ (m : ℕ). slots k.rq k.rq_tail m ++ k.overflow) e

pub Fresh-snoc :
    (f : ℕ → ℕ) (t : ℕ) (xs : List ℕ) (th : ℕ)
    → is_empty_list xs ≡ false
    → Fresh f t xs
    → Fresh f t (xs ++ th ∷ [])
Fresh-snoc f t [] th e h = cc
Fresh-snoc f t (x ∷ xs) th e h = h

-- The queue has a first thread if the ring has.
pub queue-some : (k : Runq) → 0 < in_ring k → is_empty_list (queue k) ≡ false
queue-some k h =
    let e : in_ring k ≡ suc (in_ring k - 1) = omega (arith, h) in
    ap is_empty_list (queue-first k (in_ring k - 1) e)

pub queue-empty : (k : Runq) → in_ring k ≡ 0 → queue k ≡ k.overflow
unfolding queue slots
queue-empty k e = ap (λ (m : ℕ). slots k.rq k.rq_tail m ++ k.overflow) e

-- From one queue to another with one thread more
pub record Grows (s : Threads) (k k' : Runq) (ths : List ℕ) : Type 0 where
  pub ring : InRing k'
  pub grown : queue k' ≡ ths
  pub count : k'.shown_head ≡ add32 k.shown_head 1
  pub tail : k'.shown_tail ≡ k.shown_tail
  pub no_gap : (is_empty_list k'.overflow ≡ true) ⊎ (0 < in_ring k')
  pub fresh : Fresh s.ready_tsc k'.oldest_tsc ths

pub Grows-IsShown :
    (s s' : Threads) (k k' : Runq) (ths : List ℕ)
    → IsShown s k
    → Grows s' k k' ths
    → length ths ≡ suc (length (queue k))
    → IsShown s' k'
Grows-IsShown s s' k k' ths v g e =
    let l = ap length g.grown ∙ e in
    record {
      ring = g.ring;
      shown_word = omega (arith, v.shown_word, g.tail);
      counted = omega (arith, v.counted, g.count, g.tail, l);
      no_gap = g.no_gap;
      fresh = subst (λ (q : List ℕ). Fresh s'.ready_tsc k'.oldest_tsc q) (sym g.grown) g.fresh;
    }

-- Behind the ring's last
pub put_last-Grows :
    (s : Threads) (k : Runq) (th : ℕ)
    → InRing k
    → in_ring k < rq_size
    → is_empty_list k.overflow ≡ true
    → Fresh s.ready_tsc k.oldest_tsc (queue k)
    → Grows s k (put_last s k th) (queue k ++ th ∷ [])
unfolding queue
put_last-Grows s k th v room none_over f =
    let o = is_empty_list_lem k.overflow none_over in
    let (put, v', n) = queue-put_slot k th v room in
    let same =
      ap (λ (l : List ℕ). l ++ k.overflow) put
      ∙ ap (λ (l : List ℕ). (slots k.rq k.rq_tail (in_ring k) ++ th ∷ []) ++ l) o
      ∙ append-nil (slots k.rq k.rq_tail (in_ring k) ++ th ∷ [])
      ∙ ap (λ (l : List ℕ). l ++ th ∷ []) (sym (append-nil (slots k.rq k.rq_tail (in_ring k))))
      ∙ ap (λ (l : List ℕ). (slots k.rq k.rq_tail (in_ring k) ++ l) ++ th ∷ []) (sym o) in
    elim (Bool-cases (in_ring (put_slot k th) == 1)) [
      | inl first ↦
          (let no_ths : queue k ≡ [] = queue-empty k (ground (arith, first, n)) ∙ o in
            rw first (record {
              ring = record { head_word = v'.head_word; tail_word = v'.tail_word; fits = v'.fits };
              grown = same;
              count = refl;
              tail = refl;
              no_gap = inl none_over;
              fresh =
                  subst (λ (q : List ℕ). Fresh s.ready_tsc (s.ready_tsc th) (q ++ th ∷ []))
                    (sym no_ths) refl;
            }))
      | inr more ↦
          (let some_before : 0 < in_ring k = ground (arith, more, n) in
            rw more (record {
              ring = record { head_word = v'.head_word; tail_word = v'.tail_word; fits = v'.fits };
              grown = same;
              count = refl;
              tail = refl;
              no_gap = inl none_over;
              fresh = Fresh-snoc s.ready_tsc k.oldest_tsc (queue k) th (queue-some k some_before) f;
            }))
    ]

pub ready_tail-Grows :
    (s : Threads) (k : Runq) (th : ℕ)
    → IsShown s k
    → Grows s k (ready_tail s k th) (queue k ++ th ∷ [])
unfolding ready_tail queue
ready_tail-Grows s k th v =
    elim (Bool-cases (leb rq_size (in_ring k) || not (is_empty_list k.overflow))) [
      | inl behind ↦
          (let d =
              drain_from_lem (k.overflow ++ th ∷ []) (record k { overflow = k.overflow ++ th ∷ [] })
                (record {
                  head_word = v.ring.head_word;
                  tail_word = v.ring.tail_word;
                  fits = v.ring.fits;
                }) in
            let some_before : 0 < in_ring k = elim v.no_gap [
              | inl e ↦ ground (arith, behind, e)
              | inr p ↦ p
            ] in
            rw behind (record {
              ring = record {
                head_word = d.valid.head_word;
                tail_word = d.valid.tail_word;
                fits = d.valid.fits;
              };
              grown =
                  d.same
                  ∙ sym (append_assoc (slots k.rq k.rq_tail (in_ring k)) k.overflow (th ∷ []));
              count = ap (λ (c : ℕ). add32 c 1) d.shown.0;
              tail = d.shown.1;
              no_gap = elim d.full [ inl e ↦ inl e | inr e ↦ inr (omega (arith, e)) ];
              fresh =
                  subst (λ (t : ℕ). Fresh s.ready_tsc t (queue k ++ th ∷ [])) (sym d.shown.2)
                    (Fresh-snoc s.ready_tsc k.oldest_tsc (queue k) th (queue-some k some_before)
                      v.fresh);
            }))
      | inr room ↦
          rw room
            (put_last-Grows s k th v.ring (ground (arith, room)) (ground (arith, room)) v.fresh)
    ]
