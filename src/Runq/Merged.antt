-- ===== src/Runq/Merged.antt =====
-- The merge of two queues in the order of their times (`merge_runqueues` of runtime/sched.c)
use caladan.Common.{
  length, ℕ, ◌+◌, ◌≤◌, ◌<◌, ◌≡◌, ◌⊎◌, refl, sym, ap, ◌∙◌, subst, inl, inr, Bool, true, false, ltb,
  leb, List, [], ◌∷◌, ◌++◌, arith, Bool-cases,
}
use mathlib.Core.List.{Perm, perm_middle, append_assoc, append-nil}
use mathlib.Core.List.Perm
use caladan.Runq.{rq_size, Threads, Runq, in_ring, is_empty_list}
use caladan.Runq.Merge.{push_merged, merge_into}
use caladan.Runq.Ring.{slots, queue, InRing, queue-put_slot}
use caladan.Runq.Refine.{is_empty_list_lem}
use caladan.Runq.Order.{AllFrom, AllUpTo, Sorted, AllMarked, AllFrom-before}

-- The merge as a list
unfoldable pub merged : (ℕ → ℕ) → List ℕ → List ℕ → List ℕ
merged f (x ∷ l) (y ∷ r) = elim (ltb (f y) (f x)) [
  | true ↦ y ∷ merged f (x ∷ l) r
  | false ↦ x ∷ merged f l (y ∷ r)
]
merged f [] [] = []
merged f (x ∷ l) [] = x ∷ merged f l []
merged f [] (y ∷ r) = y ∷ merged f [] r

-- A queue whose list is used only with a full ring, and the threads that it holds.
pub record Holds (k : Runq) (ths : List ℕ) : Type 0 where
  pub ring : InRing k
  pub room : (is_empty_list k.overflow ≡ true) ⊎ (in_ring k ≡ rq_size)
  pub same : queue k ≡ ths

push_merged-Holds :
    (k : Runq) (th : ℕ) (ths : List ℕ) → Holds k ths → Holds (push_merged k th) (ths ++ th ∷ [])
unfolding queue
push_merged-Holds k th ths v = elim (Bool-cases (leb rq_size (in_ring k))) [
  | inl full ↦ rw full (record {
    ring = record {
      head_word = v.ring.head_word;
      tail_word = v.ring.tail_word;
      fits = v.ring.fits;
    };
    room = inr (ground (arith, full, v.ring.fits));
    same =
        sym (append_assoc (slots k.rq k.rq_tail (in_ring k)) k.overflow (th ∷ []))
        ∙ ap (λ (q : List ℕ). q ++ th ∷ []) v.same;
  })
  | inr room ↦
      (let (put, v', n) = queue-put_slot k th v.ring (ground (arith, room)) in
        let e = no_overflow v.room (ground (arith, room)) in
        rw room (record {
          ring = v';
          room = inl (ap is_empty_list e);
          same =
              ap (λ (l : List ℕ). l ++ k.overflow) put
              ∙ append_assoc (slots k.rq k.rq_tail (in_ring k)) (th ∷ []) k.overflow
              ∙ ap (λ (l : List ℕ). slots k.rq k.rq_tail (in_ring k) ++ th ∷ l) e
              ∙ sym (append_assoc_nil e)
              ∙ ap (λ (q : List ℕ). q ++ th ∷ []) v.same;
        }))
]
  where
    no_overflow :
        (is_empty_list k.overflow ≡ true) ⊎ (in_ring k ≡ rq_size)
        → in_ring k < rq_size
        → k.overflow ≡ []
    no_overflow (inl e) p = is_empty_list_lem k.overflow e
    no_overflow (inr n) p = absurd (omega (arith, p, n))

    append_assoc_nil :
        k.overflow ≡ []
        → (slots k.rq k.rq_tail (in_ring k) ++ k.overflow) ++ th ∷ []
          ≡ slots k.rq k.rq_tail (in_ring k) ++ th ∷ []
    append_assoc_nil e =
        ap (λ (l : List ℕ). l ++ th ∷ [])
          (ap (λ (l : List ℕ). slots k.rq k.rq_tail (in_ring k) ++ l) e
            ∙ append-nil (slots k.rq k.rq_tail (in_ring k)))

pub merge_into-Holds :
    (s : Threads) (l r : List ℕ) (k : Runq) (ths : List ℕ)
    → Holds k ths
    → Holds (merge_into s l r k) (ths ++ merged s.ready_tsc l r)
unfolding merge_into merged
merge_into-Holds s (x ∷ l) (y ∷ r) k ths v =
    elim (Bool-cases (ltb (s.ready_tsc y) (s.ready_tsc x))) [
      | inl e ↦
          rw (e, merged, merge_into)
            (shift y (merged s.ready_tsc (x ∷ l) r)
              (merge_into-Holds s (x ∷ l) r _ _ (push_merged-Holds k y ths v)))
      | inr e ↦
          rw (e, merged, merge_into)
            (shift x (merged s.ready_tsc l (y ∷ r))
              (merge_into-Holds s l (y ∷ r) _ _ (push_merged-Holds k x ths v)))
    ]
  where
    shift :
        (z : ℕ) (m : List ℕ) {k' : Runq} → Holds k' ((ths ++ z ∷ []) ++ m) → Holds k' (ths ++ z ∷ m)
    shift z m {k'} h = subst (λ (q : List ℕ). Holds k' q) (append_assoc ths (z ∷ []) m) h
merge_into-Holds s [] [] k ths v = subst (λ (q : List ℕ). Holds k q) (sym (append-nil ths)) v
merge_into-Holds s (x ∷ l) [] k ths v =
    subst (λ (q : List ℕ). Holds (merge_into s l [] (push_merged k x)) q)
      (append_assoc ths (x ∷ []) (merged s.ready_tsc l []))
      (merge_into-Holds s l [] _ _ (push_merged-Holds k x ths v))
merge_into-Holds s [] (y ∷ r) k ths v =
    subst (λ (q : List ℕ). Holds (merge_into s [] r (push_merged k y)) q)
      (append_assoc ths (y ∷ []) (merged s.ready_tsc [] r))
      (merge_into-Holds s [] r _ _ (push_merged-Holds k y ths v))

-- The same threads
pub merged-perm : (f : ℕ → ℕ) (l r : List ℕ) → Perm (merged f l r) (l ++ r)
unfolding merged
merged-perm f (x ∷ l) (y ∷ r) = elim (Bool-cases (ltb (f y) (f x))) [
  | inl e ↦
      rw (e, merged)
        (Perm.trans (Perm.cons y (merged-perm f (x ∷ l) r)) (Perm.symm (perm_middle (x ∷ l) r)))
  | inr e ↦ rw (e, merged) (Perm.cons x (merged-perm f l (y ∷ r)))
]
merged-perm f [] [] = Perm.rfl
merged-perm f (x ∷ l) [] = Perm.cons x (merged-perm f l [])
merged-perm f [] (y ∷ r) = Perm.cons y (merged-perm f [] r)

pub length-merged : (f : ℕ → ℕ) (l r : List ℕ) → length (merged f l r) ≡ length l + length r
unfolding merged
length-merged f (x ∷ l) (y ∷ r) = elim (Bool-cases (ltb (f y) (f x))) [
  | inl e ↦ rw (e, merged) (omega (arith, length-merged f (x ∷ l) r))
  | inr e ↦ rw (e, merged) (omega (arith, length-merged f l (y ∷ r)))
]
length-merged f [] [] = refl
length-merged f (x ∷ l) [] = omega (arith, length-merged f l [])
length-merged f [] (y ∷ r) = omega (arith, length-merged f [] r)

push_merged-shown_tail : (k : Runq) (th : ℕ) → (push_merged k th).shown_tail ≡ k.shown_tail
push_merged-shown_tail k th = elim (Bool-cases (leb rq_size (in_ring k))) [
  | inl e ↦ rw e refl
  | inr e ↦ rw e refl
]

pub merge_into-shown_tail :
    (s : Threads) (l r : List ℕ) (k : Runq) → (merge_into s l r k).shown_tail ≡ k.shown_tail
unfolding merge_into
merge_into-shown_tail s (x ∷ l) (y ∷ r) k =
    elim (Bool-cases (ltb (s.ready_tsc y) (s.ready_tsc x))) [
      | inl e ↦
          rw (e, merge_into) (merge_into-shown_tail s (x ∷ l) r _ ∙ push_merged-shown_tail k y)
      | inr e ↦
          rw (e, merge_into) (merge_into-shown_tail s l (y ∷ r) _ ∙ push_merged-shown_tail k x)
    ]
merge_into-shown_tail s [] [] k = refl
merge_into-shown_tail s (x ∷ l) [] k = merge_into-shown_tail s l [] _ ∙ push_merged-shown_tail k x
merge_into-shown_tail s [] (y ∷ r) k = merge_into-shown_tail s [] r _ ∙ push_merged-shown_tail k y

-- What holds of all threads of both holds of all of the merge.
module _ (All : List ℕ → Type 0) (P : ℕ → Type 0) (nil : All [])
    (cons : (x : ℕ) (xs : List ℕ) → P x → All xs → All (x ∷ xs))
    (uncons : (x : ℕ) (xs : List ℕ) → All (x ∷ xs) → P x × All xs) where
  pub merged-all : (f : ℕ → ℕ) (l r : List ℕ) → All l → All r → All (merged f l r)
  unfolding merged
  merged-all f (x ∷ l) (y ∷ r) a b = elim (Bool-cases (ltb (f y) (f x))) [
    | inl e ↦ rw (e, merged) (cons y _ (uncons y r b).0 (merged-all f (x ∷ l) r a (uncons y r b).1))
    | inr e ↦ rw (e, merged) (cons x _ (uncons x l a).0 (merged-all f l (y ∷ r) (uncons x l a).1 b))
  ]
  merged-all f [] [] a b = nil
  merged-all f (x ∷ l) [] a b = cons x _ (uncons x l a).0 (merged-all f l [] (uncons x l a).1 b)
  merged-all f [] (y ∷ r) a b = cons y _ (uncons y r b).0 (merged-all f [] r a (uncons y r b).1)

pub merged-AllMarked :
    (f : ℕ → ℕ) (g : ℕ → Bool) (l r : List ℕ)
    → AllMarked g l
    → AllMarked g r
    → AllMarked g (merged f l r)
merged-AllMarked f g =
    merged-all (AllMarked g) (λ x. g x ≡ true) tt (λ x xs p a. (p, a)) (λ x xs a. a) f

pub merged-AllUpTo :
    (f : ℕ → ℕ) (t : ℕ) (l r : List ℕ) → AllUpTo f t l → AllUpTo f t r → AllUpTo f t (merged f l r)
merged-AllUpTo f t = merged-all (AllUpTo f t) (λ x. f x ≤ t) tt (λ x xs p a. (p, a)) (λ x xs a. a) f

merged-AllFrom :
    (f : ℕ → ℕ) (t : ℕ) (l r : List ℕ) → AllFrom f t l → AllFrom f t r → AllFrom f t (merged f l r)
merged-AllFrom f t = merged-all (AllFrom f t) (λ x. t ≤ f x) tt (λ x xs p a. (p, a)) (λ x xs a. a) f

-- The merge of two queues in order is in order.
pub merged-Sorted : (f : ℕ → ℕ) (l r : List ℕ) → Sorted f l → Sorted f r → Sorted f (merged f l r)
unfolding merged
merged-Sorted f (x ∷ l) (y ∷ r) a b = elim (Bool-cases (ltb (f y) (f x))) [
  | inl e ↦
      (let p : f y ≤ f x = ground (arith, e) in
        rw (e, merged)
          (
            merged-AllFrom f (f y) (x ∷ l) r (p, AllFrom-before f (f x) (f y) l p a.0) b.0,
            merged-Sorted f (x ∷ l) r a b.1,
          ))
  | inr e ↦
      (let p : f x ≤ f y = ground (arith, e) in
        rw (e, merged)
          (
            merged-AllFrom f (f x) l (y ∷ r) a.0 (p, AllFrom-before f (f y) (f x) r p b.0),
            merged-Sorted f l (y ∷ r) a.1 b,
          ))
]
merged-Sorted f [] [] a b = tt
merged-Sorted f (x ∷ l) [] a b = (merged-AllFrom f (f x) l [] a.0 tt, merged-Sorted f l [] a.1 b)
merged-Sorted f [] (y ∷ r) a b = (merged-AllFrom f (f y) [] r tt b.0, merged-Sorted f [] r a b.1)
