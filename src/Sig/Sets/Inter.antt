-- ===== src/Sig/Sets/Inter.antt =====
-- `set_inter` counts the distinct common values of two sorted signatures.
use xgossip.Prelude.{ℕ, ◌+◌, ◌≤◌, ◌<◌, ◌≡◌, ◌≢◌, refl, [], ◌∷◌, Bool, not, ◌&&◌, ◌==◌, arith, All}
use xgossip.Sig.{Sig}
use xgossip.Sig.Count.{
  elem, distinct, IsSorted, elem_below, elem-All, distinct_ext, distinct_without,
}
use xgossip.Sig.Sets.{Walk, start, skip_first, skip_second, inter_loop, set_inter}

-- What a walk still has to count: the common values that are neither of the two last ones.
abbrev pub fresh : ℕ → ℕ → Sig → ℕ → Bool
fresh p q s2 v = elem v s2 && (not (v == p) && not (v == q))

module _ (p q x y : ℕ) (s1 s2 : Sig) where
  fresh_first : p ≡ x → distinct (fresh p q (y ∷ s2)) (x ∷ s1) ≡ distinct (fresh x q (y ∷ s2)) s1
  unfolding distinct
  fresh_first e = ground arith

  fresh_second : q ≡ y → distinct (fresh p q (y ∷ s2)) (x ∷ s1) ≡ distinct (fresh p y s2) (x ∷ s1)
  unfolding elem
  fresh_second e = distinct_ext _ _ (x ∷ s1) (λ v m. ground arith)

  fresh_less :
      p ≤ x
      → p ≢ x
      → x < y
      → All (λ z. x ≤ z) s1
      → All (λ z. y ≤ z) s2
      → distinct (fresh p q (y ∷ s2)) (x ∷ s1) ≡ distinct (fresh x q (y ∷ s2)) s1
  unfolding distinct elem
  fresh_less l d h a1 a2 = ground (
    arith,
    elem_below x y s2 a2 h,
    distinct_ext (fresh p q (y ∷ s2)) (fresh x q (y ∷ s2)) s1
        (λ v m. ground (arith, elem-All x v s1 a1 m, elem_below x y s2 a2 h)),
  )

  fresh_greater :
      q ≤ y
      → q ≢ y
      → y < x
      → All (λ z. x ≤ z) s1
      → distinct (fresh p q (y ∷ s2)) (x ∷ s1) ≡ distinct (fresh p y s2) (x ∷ s1)
  unfolding elem
  fresh_greater l d h a1 = distinct_ext _ _ (x ∷ s1) (λ v m. ground (arith, elem-All x v s1 a1))

  fresh_both :
      p ≤ x
      → p ≢ x
      → q ≤ x
      → q ≢ x
      → x ≡ y
      → All (λ z. x ≤ z) s1
      → distinct (fresh p q (y ∷ s2)) (x ∷ s1) ≡ 1 + distinct (fresh x y s2) s1
  unfolding distinct elem
  fresh_both lp dp lq dq e a1 = ground (
    arith,
    distinct_without (fresh p q (y ∷ s2)) x s1,
    distinct_ext (λ v. fresh p q (y ∷ s2) v && not (v == x)) (fresh x y s2) s1
        (λ v m. ground (arith, elem-All x v s1 a1 m)),
  )

fresh_none : (p q : ℕ) (s1 : Sig) → distinct (fresh p q []) s1 ≡ 0
unfolding distinct elem
fresh_none p q [] = refl
fresh_none p q (x ∷ s1) = ground (arith, fresh_none p q s1)

inter_loop-n :
    (w : Walk) (s1 s2 : Sig)
    → IsSorted s1
    → IsSorted s2
    → All (λ z. w.s1prev ≤ z) s1
    → All (λ z. w.s2prev ≤ z) s2
    → (inter_loop w s1 s2).n ≡ w.n + distinct (fresh w.s1prev w.s2prev s2) s1
unfolding inter_loop
inter_loop-n w [] s2 o1 o2 l1 l2 = unfold distinct in omega arith
inter_loop-n w (x ∷ s1) [] o1 o2 l1 l2 = omega (arith, fresh_none w.s1prev w.s2prev (x ∷ s1))
inter_loop-n w (x ∷ s1) (y ∷ s2) o1 o2 l1 l2 = ground (
  arith,
  fresh_first w.s1prev w.s2prev x y s1 s2,
  fresh_second w.s1prev w.s2prev x y s1 s2,
  fresh_less w.s1prev w.s2prev x y s1 s2,
  fresh_greater w.s1prev w.s2prev x y s1 s2,
  fresh_both w.s1prev w.s2prev x y s1 s2,
  inter_loop-n (skip_first (record w { s1prev = x })) s1 (y ∷ s2) o1.1 o2 o1.0 l2,
  inter_loop-n (skip_second (record w { s2prev = y })) (x ∷ s1) s2 o1 o2.1 l1 o2.0,
  inter_loop-n (record w { s1prev = x }) s1 (y ∷ s2) o1.1 o2 o1.0 l2,
  inter_loop-n (record w { s2prev = y }) (x ∷ s1) s2 o1 o2.1 l1 o2.0,
  inter_loop-n (record w { s1prev = x; s2prev = y; n = w.n + 1 }) s1 s2 o1.1 o2.1 o1.0 o2.0,
)

All-zero_le : (s : Sig) → All (λ z. 0 ≤ z) s
All-zero_le [] = tt
All-zero_le (x ∷ s) = (omega arith, All-zero_le s)

-- For sorted signatures, the first without zeros, the number that `set_inter` returns is the number
-- of distinct values that both signatures hold.
pub set_inter-distinct :
    (s1 s2 : Sig)
    → IsSorted s1
    → IsSorted s2
    → All (λ z. 0 < z) s1
    → (set_inter s1 s2).0 ≡ distinct (λ v. elem v s2) s1
unfolding set_inter
set_inter-distinct s1 s2 o1 o2 z = omega (
  arith,
  inter_loop-n start s1 s2 o1 o2 (All-zero_le s1) (All-zero_le s2),
  distinct_ext (fresh 0 0 s2) (λ v. elem v s2) s1 (λ v m. ground (arith, elem-All 1 v s1 z m)),
)
