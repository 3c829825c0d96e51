-- ===== src/Runq/Order.antt =====
-- Lists of threads in the order of the times since which they are ready (runtime/sched.c).
use caladan.Common.{
  ℕ, ◌≤◌, ◌≡◌, ◌≢◌, sym, ap, Bool, true, false, List, [], ◌∷◌, ◌++◌, update, update_ne, arith,
}

-- All are ready since `t` or later, or since `t` or earlier.
abbrev pub AllFrom : (ℕ → ℕ) → ℕ → List ℕ → Type 0
AllFrom f t [] = Unit {0}
AllFrom f t (x ∷ xs) = (t ≤ f x) × AllFrom f t xs

abbrev pub AllUpTo : (ℕ → ℕ) → ℕ → List ℕ → Type 0
AllUpTo f t [] = Unit {0}
AllUpTo f t (x ∷ xs) = (f x ≤ t) × AllUpTo f t xs

abbrev pub Sorted : (ℕ → ℕ) → List ℕ → Type 0
Sorted f [] = Unit {0}
Sorted f (x ∷ xs) = AllFrom f (f x) xs × Sorted f xs

abbrev pub AllMarked : (ℕ → Bool) → List ℕ → Type 0
AllMarked g [] = Unit {0}
AllMarked g (x ∷ xs) = (g x ≡ true) × AllMarked g xs

-- Two functions give the same on a list.
abbrev pub Alike : (ℕ → ℕ) → (ℕ → ℕ) → List ℕ → Type 0
Alike f g [] = Unit {0}
Alike f g (x ∷ xs) = (f x ≡ g x) × Alike f g xs

pub update-Alike :
    (f : ℕ → ℕ) (g : ℕ → Bool) (th v : ℕ) (xs : List ℕ)
    → AllMarked g xs
    → g th ≡ false
    → Alike f (update f th v) xs
update-Alike f g th v [] h k = tt
update-Alike f g th v (x ∷ xs) h k =
    let apart : th ≢ x = λ e. (let m = ap g e in cc) in
    (sym (update_ne f v apart), update-Alike f g th v xs h.1 k)

pub AllMarked-update :
    (g : ℕ → Bool) (th : ℕ) (xs : List ℕ) → AllMarked g xs → AllMarked (update g th true) xs
AllMarked-update g th [] h = tt
AllMarked-update g th (x ∷ xs) h = (ground (arith, h.0), AllMarked-update g th xs h.1)

pub AllMarked-snoc :
    (g : ℕ → Bool) (xs : List ℕ) (th : ℕ)
    → AllMarked g xs
    → g th ≡ true
    → AllMarked g (xs ++ th ∷ [])
AllMarked-snoc g [] th h k = (k, tt)
AllMarked-snoc g (x ∷ xs) th h k = (h.0, AllMarked-snoc g xs th h.1 k)

AllFrom-Alike : (f g : ℕ → ℕ) (t : ℕ) (xs : List ℕ) → Alike f g xs → AllFrom f t xs → AllFrom g t xs
AllFrom-Alike f g t [] a h = tt
AllFrom-Alike f g t (x ∷ xs) a h = (omega (arith, a.0, h.0), AllFrom-Alike f g t xs a.1 h.1)

pub AllUpTo-Alike :
    (f g : ℕ → ℕ) (t : ℕ) (xs : List ℕ) → Alike f g xs → AllUpTo f t xs → AllUpTo g t xs
AllUpTo-Alike f g t [] a h = tt
AllUpTo-Alike f g t (x ∷ xs) a h = (omega (arith, a.0, h.0), AllUpTo-Alike f g t xs a.1 h.1)

pub AllFrom-before : (f : ℕ → ℕ) (t u : ℕ) (xs : List ℕ) → u ≤ t → AllFrom f t xs → AllFrom f u xs
AllFrom-before f t u [] k h = tt
AllFrom-before f t u (x ∷ xs) k h = (omega (arith, k, h.0), AllFrom-before f t u xs k h.1)

pub Sorted-Alike : (f g : ℕ → ℕ) (xs : List ℕ) → Alike f g xs → Sorted f xs → Sorted g xs
Sorted-Alike f g [] a h = tt
Sorted-Alike f g (x ∷ xs) a h = (
  AllFrom-before g (f x) (g x) xs (omega (arith, a.0)) (AllFrom-Alike f g (f x) xs a.1 h.0),
  Sorted-Alike f g xs a.1 h.1,
)

pub AllUpTo-snoc :
    (f : ℕ → ℕ) (t : ℕ) (xs : List ℕ) (th : ℕ)
    → AllUpTo f t xs
    → f th ≤ t
    → AllUpTo f t (xs ++ th ∷ [])
AllUpTo-snoc f t [] th h k = (k, tt)
AllUpTo-snoc f t (x ∷ xs) th h k = (h.0, AllUpTo-snoc f t xs th h.1 k)

AllFrom-snoc :
    (f : ℕ → ℕ) (t : ℕ) (xs : List ℕ) (th : ℕ)
    → AllFrom f t xs
    → t ≤ f th
    → AllFrom f t (xs ++ th ∷ [])
AllFrom-snoc f t [] th h k = (k, tt)
AllFrom-snoc f t (x ∷ xs) th h k = (h.0, AllFrom-snoc f t xs th h.1 k)

pub Sorted-snoc :
    (f : ℕ → ℕ) (xs : List ℕ) (th : ℕ)
    → Sorted f xs
    → AllUpTo f (f th) xs
    → Sorted f (xs ++ th ∷ [])
Sorted-snoc f [] th h k = (tt, tt)
Sorted-snoc f (x ∷ xs) th h k = (AllFrom-snoc f (f x) xs th h.0 k.0, Sorted-snoc f xs th h.1 k.1)

-- A thread with the time of the first goes ahead of all.
pub Sorted-ahead :
    (f : ℕ → ℕ) (x : ℕ) (xs : List ℕ) (th : ℕ)
    → Sorted f (x ∷ xs)
    → f th ≡ f x
    → Sorted f (th ∷ x ∷ xs)
Sorted-ahead f x xs th h e =
    ((omega (arith, e), AllFrom-before f (f x) (f th) xs (omega (arith, e)) h.0), h)
