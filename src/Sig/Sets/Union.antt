-- ===== src/Sig/Sets/Union.antt =====
-- `set_uni` counts the distinct values of two sorted signatures.
use xgossip.Prelude.{
  ℕ, ◌+◌, ◌≤◌, ◌<◌, ◌≡◌, ◌≢◌, refl, some, [], ◌∷◌, Bool, true, not, ◌&&◌, ◌==◌, arith, All,
}
use xgossip.Sig.{Sig}
use xgossip.Sig.Count.{
  elem, distinct, IsSorted, elem_below, elem-All, distinct_ext, distinct_without,
}
use xgossip.Sig.Sets.{
  Walk, start, skip_first, skip_second, uni_loop, drain_first, drain_second, set_uni,
}

abbrev other_than : ℕ → ℕ → ℕ → Bool
other_than p q v = not (v == p) && not (v == q)

abbrev only_second : ℕ → ℕ → Sig → ℕ → Bool
only_second p q s1 v = not (elem v s1) && other_than p q v

-- What a walk with the last values p and q still has to count.
abbrev left : ℕ → ℕ → Sig → Sig → ℕ
left p q s1 s2 = distinct (other_than p q) s1 + distinct (only_second p q s1) s2

-- Each last value is below what is left, and is still ahead only where both are.
record Apart (p q : ℕ) (s1 s2 : Sig) : Type 0 where
  sorted_first : IsSorted s1
  sorted_second : IsSorted s2
  below_first : All (λ z. p ≤ z) s1
  below_second : All (λ z. q ≤ z) s2
  behind_first : elem q s1 ≡ true → p ≡ q
  behind_second : elem p s2 ≡ true → q ≡ p

module _ (p q x y : ℕ) (s1 s2 : Sig) (a : Apart p q (x ∷ s1) (y ∷ s2)) where
  first_same : p ≡ x → Apart p q s1 (y ∷ s2)
  unfolding elem
  first_same e = ground (arith, a.behind_first, a.behind_second)

  left_first : p ≡ x → left p q (x ∷ s1) (y ∷ s2) ≡ left p q s1 (y ∷ s2)
  unfolding distinct elem
  left_first e = ground (
    arith,
    distinct_ext (only_second p q (x ∷ s1)) (only_second p q s1) (y ∷ s2) (λ v m. ground arith),
  )

  second_same : q ≡ y → Apart p q (x ∷ s1) s2
  unfolding elem
  second_same e = ground (arith, a.behind_first, a.behind_second)

  left_second : q ≡ y → left p q (x ∷ s1) (y ∷ s2) ≡ left p q (x ∷ s1) s2
  unfolding distinct elem
  left_second e = ground arith

  less-Apart : p ≢ x → x < y → Apart x q s1 (y ∷ s2)
  unfolding elem
  less-Apart d h = ground (
    arith,
    a.behind_first,
    elem-All x q s1 a.sorted_first.0,
    elem_below x y s2 a.sorted_second.0 h,
  )

  left_less : p ≢ x → q ≢ y → x < y → left p q (x ∷ s1) (y ∷ s2) ≡ 1 + left x q s1 (y ∷ s2)
  unfolding distinct elem
  left_less d f h = ground (
    arith,
    a.behind_first,
    distinct_without (other_than p q) x s1,
    distinct_ext (λ v. other_than p q v && not (v == x)) (other_than x q) s1
        (λ v m. ground (arith, elem-All x v s1 a.sorted_first.0 m)),
    distinct_ext (only_second p q (x ∷ s1)) (only_second x q s1) (y ∷ s2)
        (λ v m. ground (arith, elem-All y v s2 a.sorted_second.0)),
  )

  greater-Apart : q ≢ y → y < x → Apart p y (x ∷ s1) s2
  unfolding elem
  greater-Apart d h = ground (
    arith,
    a.behind_second,
    elem-All y p s2 a.sorted_second.0,
    elem_below y x s1 a.sorted_first.0 h,
  )

  left_greater : p ≢ x → q ≢ y → y < x → left p q (x ∷ s1) (y ∷ s2) ≡ 1 + left p y (x ∷ s1) s2
  unfolding distinct elem
  left_greater d f h = ground (
    arith,
    a.behind_first,
    a.behind_second,
    elem_below y x s1 a.sorted_first.0 h,
    distinct_ext (other_than p q) (other_than p y) (x ∷ s1)
        (λ v m. ground (arith, a.behind_first, elem-All x v s1 a.sorted_first.0)),
    distinct_without (only_second p q (x ∷ s1)) y s2,
    distinct_ext (λ v. only_second p q (x ∷ s1) v && not (v == y)) (only_second p y (x ∷ s1)) s2
        (λ v m. ground (arith, elem-All y v s2 a.sorted_second.0 m)),
  )

  both-Apart : p ≢ x → q ≢ y → x ≡ y → Apart x y s1 s2
  both-Apart d f e = ground arith

  left_both : p ≢ x → q ≢ y → x ≡ y → left p q (x ∷ s1) (y ∷ s2) ≡ 1 + left x y s1 s2
  unfolding distinct elem
  left_both d f e = ground (
    arith,
    distinct_without (other_than p q) x s1,
    distinct_ext (λ v. other_than p q v && not (v == x)) (other_than x y) s1
        (λ v m. ground (arith, elem-All x v s1 a.sorted_first.0 m)),
    distinct_ext (only_second p q (x ∷ s1)) (only_second x y s1) s2
        (λ v m. ground (arith, elem-All y v s2 a.sorted_second.0 m)),
  )

drain_second-n :
    (w : Walk) (s2 : Sig)
    → IsSorted s2
    → All (λ z. w.s2prev ≤ z) s2
    → (drain_second w s2).n ≡ w.n + distinct (λ v. not (v == w.s2prev)) s2
unfolding drain_second distinct
drain_second-n w [] o l = omega arith
drain_second-n w (y ∷ s2) o l = ground (
  arith,
  drain_second-n (skip_second w) s2 o.1 l.1,
  drain_second-n (record w { s2prev = y; n = w.n + 1 }) s2 o.1 o.0,
  distinct_without (λ v. not (v == w.s2prev)) y s2,
  distinct_ext (λ v. not (v == w.s2prev) && not (v == y)) (λ v. not (v == y)) s2
      (λ v m. ground (arith, elem-All y v s2 o.0 m)),
)

drain_first-n :
    (w : Walk) (s1 : Sig)
    → IsSorted s1
    → All (λ z. w.s1prev ≤ z) s1
    → (drain_first w s1).n ≡ w.n + distinct (λ v. not (v == w.s1prev)) s1
unfolding drain_first distinct
drain_first-n w [] o l = omega arith
drain_first-n w (x ∷ s1) o l = ground (
  arith,
  drain_first-n (skip_first w) s1 o.1 l.1,
  drain_first-n (record w { s1prev = x; n = w.n + 1 }) s1 o.1 o.0,
  distinct_without (λ v. not (v == w.s1prev)) x s1,
  distinct_ext (λ v. not (v == w.s1prev) && not (v == x)) (λ v. not (v == x)) s1
      (λ v m. ground (arith, elem-All x v s1 o.0 m)),
)

uni_loop-n :
    (w : Walk) (s1 s2 : Sig)
    → Apart w.s1prev w.s2prev s1 s2
    → (uni_loop w s1 s2).n ≡ w.n + left w.s1prev w.s2prev s1 s2
unfolding uni_loop
uni_loop-n w [] s2 a =
    unfold distinct elem in
    ground (
      arith,
      drain_second-n w s2 a.sorted_second a.below_second,
      distinct_ext (only_second w.s1prev w.s2prev []) (λ v. not (v == w.s2prev)) s2
          (λ v m. ground (arith, a.behind_second)),
    )
uni_loop-n w (x ∷ s1) [] a =
    unfold distinct in
    ground (
      arith,
      drain_first-n w (x ∷ s1) a.sorted_first a.below_first,
      distinct_ext (other_than w.s1prev w.s2prev) (λ v. not (v == w.s1prev)) (x ∷ s1)
          (λ v m. ground (arith, a.behind_first)),
    )
uni_loop-n w (x ∷ s1) (y ∷ s2) a = ground (
  arith,
  left_first w.s1prev w.s2prev x y s1 s2 a,
  left_second w.s1prev w.s2prev x y s1 s2 a,
  left_less w.s1prev w.s2prev x y s1 s2 a,
  left_greater w.s1prev w.s2prev x y s1 s2 a,
  left_both w.s1prev w.s2prev x y s1 s2 a,
  first_same w.s1prev w.s2prev x y s1 s2 a,
  second_same w.s1prev w.s2prev x y s1 s2 a,
  less-Apart w.s1prev w.s2prev x y s1 s2 a,
  greater-Apart w.s1prev w.s2prev x y s1 s2 a,
  both-Apart w.s1prev w.s2prev x y s1 s2 a,
  uni_loop-n (skip_first w) s1 (y ∷ s2),
  uni_loop-n (skip_second w) (x ∷ s1) s2,
  uni_loop-n (record w { s1prev = x; n = w.n + 1 }) s1 (y ∷ s2),
  uni_loop-n (record w { s2prev = y; n = w.n + 1 }) (x ∷ s1) s2,
  uni_loop-n (record w { s1prev = x; s2prev = y; n = w.n + 1 }) s1 s2,
)

All-zero_le : (s : Sig) → All (λ z. 0 ≤ z) s
All-zero_le [] = tt
All-zero_le (x ∷ s) = (omega arith, All-zero_le s)

start-Apart :
    (s1 s2 : Sig)
    → IsSorted s1
    → IsSorted s2
    → All (λ z. 0 < z) s1
    → All (λ z. 0 < z) s2
    → Apart 0 0 s1 s2
start-Apart s1 s2 o1 o2 z1 z2 = record {
  sorted_first = o1;
  sorted_second = o2;
  below_first = All-zero_le s1;
  below_second = All-zero_le s2;
  behind_first = λ e. refl;
  behind_second = λ e. refl;
}

-- For sorted signatures that are not empty and hold no zero, `set_uni` returns, with some flag,
-- the number of distinct values of the first and of those that only the second holds.
pub set_uni-distinct :
    (x y : ℕ) (s1 s2 : Sig)
    → IsSorted (x ∷ s1)
    → IsSorted (y ∷ s2)
    → All (λ z. 0 < z) (x ∷ s1)
    → All (λ z. 0 < z) (y ∷ s2)
    → (multi : Bool) × (set_uni (x ∷ s1) (y ∷ s2)
        ≡ some
            (distinct (λ v. true) (x ∷ s1) + distinct (λ v. not (elem v (x ∷ s1))) (y ∷ s2), multi))
unfolding set_uni
set_uni-distinct x y s1 s2 o1 o2 z1 z2 = (
  not ((uni_loop start (x ∷ s1) (y ∷ s2)).s2skip == 0),
  ground (
    arith,
    uni_loop-n start (x ∷ s1) (y ∷ s2) (start-Apart (x ∷ s1) (y ∷ s2) o1 o2 z1 z2),
    distinct_ext (other_than 0 0) (λ v. true) (x ∷ s1)
        (λ v m. ground (arith, elem-All 1 v (x ∷ s1) z1 m)),
    distinct_ext (only_second 0 0 (x ∷ s1)) (λ v. not (elem v (x ∷ s1))) (y ∷ s2)
        (λ v m. ground (arith, elem-All 1 v (y ∷ s2) z2 m)),
  ),
)
