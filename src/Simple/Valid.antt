-- ===== src/Simple/Valid.antt =====
-- The accounts of the policy and its references to processes stay right (iokernel/simple.c).
use caladan.Common.{
  ℕ, ◌+◌, ◌-◌, ◌<◌, ◌≡◌, ◌≢◌, ◌⊎◌, refl, sym, ap, ◌∙◌, subst, inl, inr, Bool, true, false, ◌||◌,
  ◌==◌, ltb, update, update_self, update-elim, update-field, arith, Bool-cases,
}
use caladan.Simple.{
  ncpu, nhist, SimpleData, Simple, cleanup_core, mark_congested, unmark_congested, own_core, remove,
  push_hist,
}
use caladan.Simple.Counts.{
  count, count_gain, count_loss, count_same, elem, elem-remove_self, elem-remove, elem-remove_ne,
}

-- NULL, or a process that is attached
abbrev pub IsRef : (ℕ → Bool) → ℕ → Type 0
IsRef alive p = (p ≡ 0) ⊎ (alive p ≡ true)

-- What holds between two events, of the processes that are attached: each is counted as many cores
-- as it has; the cores, their history and the list of the congested refer to no other process; who
-- is congested is on the list; and an idle core has no process.
pub record IsValid (alive : ℕ → Bool) (s : Simple) : Type 0 where
  pub nonnull : alive 0 ≡ false
  pub counted : (p : ℕ) → alive p ≡ true → (s.sds p).threads_active ≡ count ncpu s.cores p
  pub owned : (c : ℕ) → c < ncpu → IsRef alive (s.cores c)
  pub past : (c i : ℕ) → c < ncpu → i < nhist → IsRef alive (s.hist c i)
  pub listed : (p : ℕ) → alive p ≡ true → (s.sds p).is_congested ≡ elem p s.congested_procs
  pub members : (p : ℕ) → elem p s.congested_procs ≡ true → alive p ≡ true
  pub idle : (c : ℕ) → s.idle_cores c ≡ true → s.cores c ≡ 0

pub cleanup_core_free : (s : Simple) (c : ℕ) → (cleanup_core s c).cores c ≡ 0
unfolding cleanup_core
cleanup_core_free s c = elim (Bool-cases (s.cores c == 0)) [
  | inl e ↦ rw e (ground (arith, e))
  | inr e ↦ rw e (update_self s.cores c 0)
]

pub unmark_congested-elem :
    (alive : ℕ → Bool) (s : Simple) (p : ℕ)
    → IsValid alive s
    → alive p ≡ true
    → elem p (unmark_congested s p).congested_procs ≡ false
unfolding unmark_congested
unmark_congested-elem alive s p v a = elim (Bool-cases (s.sds p).is_congested) [
  | inr e ↦ rw e (sym (v.listed p a) ∙ e)
  | inl e ↦ rw e (elem-remove_self p s.congested_procs)
]

module _ (alive : ℕ → Bool) (s : Simple) (v : IsValid alive s) where
  pub mark_congested-IsValid : (p : ℕ) → alive p ≡ true → IsValid alive (mark_congested s p)
  unfolding mark_congested
  mark_congested-IsValid p a = elim (Bool-cases (s.sds p).is_congested) [
    | inl e ↦ rw e v
    | inr e ↦ rw e (record {
      nonnull = v.nonnull;
      counted =
          λ q b. update-field (λ (d : SimpleData). d.threads_active) s.sds p q refl ∙ v.counted q b;
      owned = v.owned;
      past = v.past;
      listed = λ q b.
          update-elim (λ (d : SimpleData). d.is_congested ≡ (p == q || elem q s.congested_procs))
            s.sds p q (λ h. ground (arith, h)) (λ h. ground (arith, h, v.listed q b));
      members = λ q b. elim (Bool-cases (p == q)) [
        | inl h ↦ ap alive (ground (arith, h)) ∙ a
        | inr h ↦ v.members q (ground (arith, h, b))
      ];
      idle = v.idle;
    })
  ]

  pub unmark_congested-IsValid : (p : ℕ) → IsValid alive (unmark_congested s p)
  unfolding unmark_congested
  unmark_congested-IsValid p = elim (Bool-cases (s.sds p).is_congested) [
    | inr e ↦ rw e v
    | inl e ↦ rw e (record {
      nonnull = v.nonnull;
      counted =
          λ q b. update-field (λ (d : SimpleData). d.threads_active) s.sds p q refl ∙ v.counted q b;
      owned = v.owned;
      past = v.past;
      listed = λ q b.
          update-elim (λ (d : SimpleData). d.is_congested ≡ elem q (remove p s.congested_procs))
            s.sds p q
            (λ h. sym (
              ap (λ (r : ℕ). elem r (remove p s.congested_procs)) (sym h)
              ∙ elem-remove_self p s.congested_procs))
            (λ h. v.listed q b ∙ sym (elem-remove_ne p q s.congested_procs (λ k. h (sym k))));
      members = λ q b. v.members q (elem-remove p q s.congested_procs b);
      idle = v.idle;
    })
  ]

  pub cleanup_core-IsValid : (c : ℕ) → c < ncpu → IsValid alive (cleanup_core s c)
  unfolding cleanup_core
  cleanup_core-IsValid c h = elim (Bool-cases (s.cores c == 0)) [
    | inl e ↦ rw e v
    | inr e ↦ rw e (record {
      nonnull = v.nonnull;
      counted = λ q b.
          (let some_q : 0 ≢ q = λ k. (let m = ap alive (sym k) ∙ v.nonnull in cc) in
            update-elim (λ (d : SimpleData). d.threads_active ≡ count ncpu (update s.cores c 0) q)
              s.sds (s.cores c) q
              (λ k. omega (
                arith,
                ap (λ (r : ℕ). (s.sds r).threads_active) k ∙ v.counted q b,
                count_loss ncpu s.cores c 0 q h k some_q,
              ))
              (λ k. v.counted q b ∙ sym (count_same ncpu s.cores c 0 q h k some_q)));
      owned = λ d l. update-elim (IsRef alive) s.cores c d (λ k. inl refl) (λ k. v.owned d l);
      past = λ d i l m.
          update-elim (λ (f : ℕ → ℕ). IsRef alive (f i)) s.hist c d
            (λ k. push_hist_ref (s.hist c) (s.cores c) i m (λ j. v.past c j h) (v.owned c h))
            (λ k. v.past d i l m);
      listed = λ q b.
          update-field (λ (d : SimpleData). d.is_congested) s.sds (s.cores c) q refl ∙ v.listed q b;
      members = v.members;
      idle = λ d b. update-elim (λ (p : ℕ). p ≡ 0) s.cores c d (λ k. refl) (λ k. v.idle d b);
    })
  ]
    where
      push_hist_ref :
          (f : ℕ → ℕ) (p i : ℕ)
          → i < nhist
          → ((j : ℕ) → j < nhist → IsRef alive (f j))
          → IsRef alive p
          → IsRef alive (push_hist f p i)
      push_hist_ref f p i m a b = elim (Bool-cases (i == 0)) [
        | inl e ↦ rw e b
        | inr e ↦ elim (Bool-cases (ltb i nhist)) [
          | inl k ↦ rw (e, k) (a (i - 1) (omega (arith, m)))
          | inr k ↦ rw (e, k) (a i m)
        ]
      ]

  pub own_core-IsValid : (p c : ℕ) → alive p ≡ true → c < ncpu → IsValid alive (own_core s p c)
  unfolding own_core
  own_core-IsValid p c a h =
      owned_core (cleanup_core s c) (cleanup_core-IsValid c h) (cleanup_core_free s c)
    where
      owned_core :
          (s' : Simple)
          → IsValid alive s'
          → s'.cores c ≡ 0
          → IsValid alive (record s' {
            sds = update s'.sds p (record (s'.sds p) {
              threads_active = (s'.sds p).threads_active + 1;
              waking = true;
            });
            cores = update s'.cores c p;
            idle_cores = update s'.idle_cores c false;
          })
      owned_core s' w z =
          let some_p : 0 ≢ p = λ k. (let m = ap alive (sym k) ∙ v.nonnull in cc) in
          record {
            nonnull = w.nonnull;
            counted = λ q b.
                (let some_q : 0 ≢ q = λ k. (let m = ap alive (sym k) ∙ v.nonnull in cc) in
                  update-elim
                    (λ (d : SimpleData). d.threads_active ≡ count ncpu (update s'.cores c p) q)
                    s'.sds p q
                    (λ k.
                      subst
                        (λ (r : ℕ).
                          (s'.sds p).threads_active + 1 ≡ count ncpu (update s'.cores c p) r)
                        k
                        (omega (
                          arith,
                          w.counted p a,
                          count_gain ncpu s'.cores c p h (λ e. some_p (sym z ∙ e)),
                        )))
                    (λ k.
                      w.counted q b
                      ∙ sym (count_same ncpu s'.cores c p q h (λ e. some_q (sym z ∙ e)) k)));
            owned = λ d l. update-elim (IsRef alive) s'.cores c d (λ k. inr a) (λ k. w.owned d l);
            past = w.past;
            listed = λ q b.
                update-field (λ (d : SimpleData). d.is_congested) s'.sds p q refl ∙ w.listed q b;
            members = w.members;
            idle = λ d. elim (Bool-cases (c == d)) [
              | inl e ↦ rw e (λ b. cc)
              | inr e ↦ rw e (w.idle d)
            ];
          }
