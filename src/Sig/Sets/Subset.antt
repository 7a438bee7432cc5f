-- ===== src/Sig/Sets/Subset.antt =====
-- `set_inter_noskip` decides whether one sorted signature is a submultiset of another: the test by
-- which `run_query` finds the signatures that match a query.
use xgossip.Prelude.{
  ℕ, ◌+◌, ◌≤◌, ◌<◌, ◌≡◌, ◌↔◌, refl, [], ◌∷◌, ◌==◌, arith, All, length, if◌then◌else◌, ltb,
  Bool-cases, inl, inr, sym,
}
use xgossip.Sig.{Sig}
use xgossip.Sig.Count.{IsSorted}
use xgossip.Sig.Sets.{Walk, start, count_skips, noskip_loop, set_inter_noskip}

unfoldable pub count : ℕ → Sig → ℕ
count a [] = 0
count a (x ∷ s) = (if a == x then 1 else 0) + count a s

-- Every value occurs in the second at least as often as in the first.
abbrev pub Submultiset : Sig → Sig → Type 0
Submultiset s t = (a : ℕ) → count a s ≤ count a t

count_below : (a b : ℕ) (s : Sig) → All (λ y. b ≤ y) s → a < b → count a s ≡ 0
unfolding count
count_below a b [] h l = refl
count_below a b (x ∷ s) h l = ground (arith, count_below a b s h.1 l)

Submultiset-less :
    (x y : ℕ) (s t : Sig) → x < y → All (λ z. y ≤ z) t → Submultiset (x ∷ s) (y ∷ t) → ⊥
unfolding count
Submultiset-less x y s t l o h = ground (arith, h x, count_below x y t o l)

Submultiset-drop :
    (x y : ℕ) (s t : Sig)
    → y < x
    → All (λ z. x ≤ z) s
    → Submultiset (x ∷ s) (y ∷ t)
    → Submultiset (x ∷ s) t
unfolding count
Submultiset-drop x y s t l o h a = ground (arith, h a, count_below y x s o l)

Submultiset-skip : (y : ℕ) (s t : Sig) → Submultiset s t → Submultiset s (y ∷ t)
unfolding count
Submultiset-skip y s t h a = ground (arith, h a)

Submultiset-tail : (x : ℕ) (s t : Sig) → Submultiset (x ∷ s) (x ∷ t) → Submultiset s t
unfolding count
Submultiset-tail x s t h a = ground (arith, h a)

Submultiset-cons : (x : ℕ) (s t : Sig) → Submultiset s t → Submultiset (x ∷ s) (x ∷ t)
unfolding count
Submultiset-cons x s t h a = ground (arith, h a)

pub Submultiset-nil : (x : ℕ) (s : Sig) → Submultiset (x ∷ s) [] → ⊥
unfolding count
Submultiset-nil x s h = ground (arith, h x)

-- How far a walk has counted, against the multiset that is left of the first signature.
record Exact (w v : Walk) (s t : Sig) : Type 0 where
  bound : v.n ≤ w.n + length s
  full : v.n ≡ w.n + length s → Submultiset s t
  only : Submultiset s t → v.n ≡ w.n + length s

count_skips-n : (w : Walk) (x y : ℕ) → (count_skips w x y).n ≡ w.n
unfolding count_skips
count_skips-n w x y = ground arith

module _ (w v : Walk) (x y : ℕ) (s t : Sig) (o : IsSorted (x ∷ s)) (p : IsSorted (y ∷ t)) where
  Exact-less : (u : Walk) → u.n ≡ w.n → x < y → Exact u v s (y ∷ t) → Exact w v (x ∷ s) (y ∷ t)
  Exact-less u e l ex = record {
    bound = let b = ex.bound in omega arith;
    full = λ h. let b = ex.bound in absurd (omega arith);
    only = λ h. absurd (Submultiset-less x y s t l p.0 h);
  }

  Exact-greater : (u : Walk) → u.n ≡ w.n → y < x → Exact u v (x ∷ s) t → Exact w v (x ∷ s) (y ∷ t)
  Exact-greater u e l ex = record {
    bound = let b = ex.bound in omega arith;
    full = λ h. Submultiset-skip y (x ∷ s) t (ex.full (omega arith));
    only = λ h. omega (arith, ex.only (Submultiset-drop x y s t l o.0 h));
  }

  Exact-both : (u : Walk) → u.n ≡ w.n + 1 → x ≡ y → Exact u v s t → Exact w v (x ∷ s) (y ∷ t)
  Exact-both u e l ex = rw (sym l) (record {
    bound = let b = ex.bound in omega arith;
    full = λ h. Submultiset-cons x s t (ex.full (omega arith));
    only = λ h. omega (arith, ex.only (Submultiset-tail x s t h));
  })

count-zero_le : (t : Sig) → Submultiset [] t
unfolding count
count-zero_le t a = omega arith

noskip_loop-Exact :
    (w : Walk) (s t : Sig) → IsSorted s → IsSorted t → Exact w (noskip_loop w s t) s t
unfolding noskip_loop
noskip_loop-Exact w [] t o p = record {
  bound = omega arith;
  full = λ h. count-zero_le t;
  only = λ h. omega arith;
}
noskip_loop-Exact w (x ∷ s) [] o p = record {
  bound = omega arith;
  full = λ h. absurd (omega arith);
  only = λ h. absurd (Submultiset-nil x s h);
}
noskip_loop-Exact w (x ∷ s) (y ∷ t) o p =
    let v = count_skips w x y in
    let e = count_skips-n w x y in
    elim (Bool-cases (ltb x y)) [
      | inl less ↦
          rw (less, noskip_loop)
            (Exact-less w _ x y s t o p (record v { s1prev = x }) e (ground arith)
              (noskip_loop-Exact (record v { s1prev = x }) s (y ∷ t) o.1 p))
      | inr not_less ↦ elim (Bool-cases (ltb y x)) [
        | inl more ↦
            rw (not_less, noskip_loop)
              (rw (more, noskip_loop)
                (Exact-greater w _ x y s t o p (record v { s2prev = y }) e (ground arith)
                  (noskip_loop-Exact (record v { s2prev = y }) (x ∷ s) t o p.1)))
        | inr not_more ↦
            rw (not_less, noskip_loop)
              (rw (not_more, noskip_loop)
                (Exact-both w _ x y s t o p (record v { s1prev = x; s2prev = y; n = v.n + 1 })
                  (omega (arith, e)) (ground arith)
                  (noskip_loop-Exact (record v { s1prev = x; s2prev = y; n = v.n + 1 }) s t o.1
                    p.1)))
      ]
    ]

-- For sorted signatures the number that `set_inter_noskip` returns is at most the length of the
-- first, and equals it exactly when every value occurs in the second at least as often as in the
-- first.
pub set_inter_noskip-Submultiset :
    (s t : Sig)
    → IsSorted s
    → IsSorted t
    → ((set_inter_noskip s t).0 ≤ length s)
      × (((set_inter_noskip s t).0 ≡ length s) ↔ Submultiset s t)
unfolding set_inter_noskip
set_inter_noskip-Submultiset s t o p =
    let ex = noskip_loop-Exact start s t o p in
    let b = ex.bound in
    (omega arith, ((λ h. ex.full (omega arith)), (λ h. omega (arith, ex.only h))))
