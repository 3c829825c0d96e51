-- ===== src/Simple/Counts.antt =====
-- How many cores a process has, and which processes are on a list (iokernel/simple.c).
use caladan.Common.{
  ℕ, zero, suc, ◌+◌, ◌≤◌, ◌<◌, ◌≡◌, ◌≢◌, refl, ap, inl, inr, Bool, true, false, ◌&&◌, ◌||◌, ◌==◌,
  ltb, if◌then◌else◌, List, [], ◌∷◌, update, arith, Bool-cases,
}
use caladan.Simple.{remove}

-- How many of the first `n` cores are a process's
unfoldable pub count : ℕ → (ℕ → ℕ) → ℕ → ℕ
count zero f p = 0
count (suc n) f p = (if f n == p then 1 else 0) + count n f p

count-update_out : (n : ℕ) (f : ℕ → ℕ) (c v p : ℕ) → n ≤ c → count n (update f c v) p ≡ count n f p
unfolding count
count-update_out zero f c v p h = refl
count-update_out (suc n) f c v p h =
    ground (arith, count-update_out n f c v p (omega (arith, h)), h)

-- A core changes hands.
count-update :
    (n : ℕ) (f : ℕ → ℕ) (c v p : ℕ)
    → c < n
    → count n (update f c v) p + (if f c == p then 1 else 0)
      ≡ count n f p + (if v == p then 1 else 0)
unfolding count
count-update zero f c v p h = absurd (omega (arith, h))
count-update (suc n) f c v p h = elim (Bool-cases (c == n)) [
  | inl e ↦
      (let same : c ≡ n = ground (arith, e) in
        ground (arith, same, count-update_out n f c v p (omega (arith, same)), ap f same))
  | inr e ↦
      (let apart : c ≢ n = ground (arith, e) in
        ground (arith, e, count-update n f c v p (omega (arith, h, apart))))
]

pub count_gain :
    (n : ℕ) (f : ℕ → ℕ) (c p : ℕ) → c < n → f c ≢ p → count n (update f c p) p ≡ suc (count n f p)
count_gain n f c p h a = ground (arith, count-update n f c p p h, a)

pub count_loss :
    (n : ℕ) (f : ℕ → ℕ) (c v p : ℕ)
    → c < n
    → f c ≡ p
    → v ≢ p
    → suc (count n (update f c v) p) ≡ count n f p
count_loss n f c v p h a b = ground (arith, count-update n f c v p h, a, b)

pub count_same :
    (n : ℕ) (f : ℕ → ℕ) (c v p : ℕ)
    → c < n
    → f c ≢ p
    → v ≢ p
    → count n (update f c v) p ≡ count n f p
count_same n f c v p h a b = ground (arith, count-update n f c v p h, a, b)

-- The cores of a process are taken from it, and the others keep theirs.
pub count_without :
    (n m : ℕ) (f : ℕ → ℕ) (p q : ℕ)
    → q ≢ p
    → 0 < q
    → count n (λ c. if ltb c m && f c == p then 0 else f c) q ≡ count n f q
unfolding count
count_without zero m f p q a b = refl
count_without (suc n) m f p q a b = ground (arith, count_without n m f p q a b)

-- Nobody has the cores of no one.
pub count_none : (n : ℕ) (f : ℕ → ℕ) (p : ℕ) → ((c : ℕ) → c < n → f c ≢ p) → count n f p ≡ 0
unfolding count
count_none zero f p h = refl
count_none (suc n) f p h =
    ground (arith, h n (omega arith), count_none n f p (λ c k. h c (omega (arith, k))))

abbrev pub elem : ℕ → List ℕ → Bool
elem p [] = false
elem p (q ∷ qs) = q == p || elem p qs

pub elem-remove_self : (p : ℕ) (qs : List ℕ) → elem p (remove p qs) ≡ false
elem-remove_self p [] = refl
elem-remove_self p (q ∷ qs) = elim (Bool-cases (q == p)) [
  | inl e ↦ rw e (elem-remove_self p qs)
  | inr e ↦ rw (e, e) (elem-remove_self p qs)
]

pub elem-remove_ne : (p r : ℕ) (qs : List ℕ) → r ≢ p → elem r (remove p qs) ≡ elem r qs
elem-remove_ne p r [] h = refl
elem-remove_ne p r (q ∷ qs) h = elim (Bool-cases (q == p)) [
  | inl e ↦
      (let other : q == r ≡ false = ground (arith, e, h) in rw (e, other) (elem-remove_ne p r qs h))
  | inr e ↦ rw (e, elem-remove_ne p r qs h) refl
]

pub elem-remove : (p r : ℕ) (qs : List ℕ) → elem r (remove p qs) ≡ true → elem r qs ≡ true
elem-remove p r [] = λ h. h
elem-remove p r (q ∷ qs) = elim (Bool-cases (q == p)) [
  | inl e ↦ rw e (λ h. (let rest = elem-remove p r qs h in ground (arith, rest)))
  | inr e ↦ rw e (λ h. elim (Bool-cases (q == r)) [
    | inl k ↦ rw k refl
    | inr k ↦ (let rest = elem-remove p r qs (ground (arith, h, k)) in ground (arith, rest))
  ])
]
