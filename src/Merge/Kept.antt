-- ===== src/Merge/Kept.antt =====
-- `mergelists` leaves a list of the form that it expects, so that a node can merge round after
-- round.
use mathlib.Core.Path.{subst}
use xgossip.Prelude.{
  ℕ, zero, suc, ◌<◌, ◌≡◌, refl, sym, ap, ◌∙◌, ◌⊎◌, inl, inr, List, [], ◌∷◌, some, Bool, true, false,
  All, arith, Bool-cases, Option-cases,
}
use xgossip.Doubles.{Doubles}
use xgossip.Scale.{Pair, Freqs, Vecomap}
use xgossip.Sig.{Sig, dummysig, hldsig, sigcmp}
use xgossip.Sig.Order.{sigcmp_trans}
use xgossip.Table.{find, assign, push_pair}
use xgossip.Table.Laws.{assign_after, assign_same, assign-SortedAbove}
use xgossip.Merge.{
  all_done, at_min, step_iters, write_min, write_dummy, entries, first_iter, halve, merge_loop,
  mergelists,
}
use xgossip.Merge.Rounds.{find_min_lem}
use xgossip.Merge.Sums.{
  sum_of, weights_of, sum_lists-sum_of, dummy_weights-weights_of, entries-step_lt,
}
use xgossip.Merge.Ready.{Ready, min_above, Ready-step}
use xgossip.Merge.Loop.{merge_round}
use xgossip.Merge.Lookup.{
  Listed, hld_below, hld_trans, rests, dummies, dummy_of, start-rests, Ready-start,
}

module _ (d : Doubles) where
  -- The dummy and what is above it may be assigned.
  abbrev pub AtLeastDummy : Sig → Type 0
  AtLeastDummy s = (s ≡ dummysig) ⊎ (sigcmp dummysig s ≡ true)

  -- Such an assignment keeps a list well-formed.
  pub assign-Listed :
      (vanilla : Bool) (s : Sig) (p : Pair d) (t : Freqs d)
      → AtLeastDummy s
      → Listed d vanilla t
      → Listed d vanilla (assign s p t)
  assign-Listed true s p [] a l = absurd l
  assign-Listed true s p ((k, q) ∷ m) (inl e) l =
      rw (e, l.0) (subst (Listed d true) (sym (assign_same dummysig p q m)) (refl, l.1))
  assign-Listed true s p ((k, q) ∷ m) (inr a) l = rw (l.0) (
      subst (Listed d true) (sym (assign_after s dummysig p q m a))
        (refl, assign-SortedAbove dummysig s p m l.1 a))
  assign-Listed false s p [] a l = absurd l
  assign-Listed false s p (e ∷ []) a l = absurd l
  assign-Listed false s p ((h, q) ∷ (k, r) ∷ m) (inl e) l =
      rw (e, l.0, l.1)
        (subst (Listed d false)
          (sym (
            assign_after dummysig hldsig p q ((dummysig, r) ∷ m) (hld_below d)
            ∙ ap (λ z. (hldsig, q) ∷ z) (assign_same dummysig p r m)))
          (refl, refl, l.2))
  assign-Listed false s p ((h, q) ∷ (k, r) ∷ m) (inr a) l =
      rw (l.0, l.1)
        (subst (Listed d false)
          (sym (
            assign_after s hldsig p q ((dummysig, r) ∷ m) (hld_trans d s a)
            ∙ ap (λ z. (hldsig, q) ∷ z) (assign_after s dummysig p r m a)))
          (refl, refl, assign-SortedAbove dummysig s p m l.2 a))

  write_min-Listed :
      (vanilla : Bool) (m : Sig) (p : Pair d) (t c : Freqs d)
      → AtLeastDummy m
      → Listed d vanilla t
      → Listed d vanilla (write_min d m p t c)
  unfolding write_min push_pair
  write_min-Listed vanilla m p t c a l = elim (Bool-cases (at_min d m c)) [
    | inl e ↦ rw (e, write_min) (assign-Listed vanilla m p t a l)
    | inr e ↦
        rw (e, write_min)
          (elim (Option-cases (find m t)) [
            | inl g ↦ rw (g, push_pair) (assign-Listed vanilla m p t a l)
            | inr (q, g) ↦ rw (g, push_pair) l
          ])
  ]

  Kept-end :
      (vanilla : Bool) (p0 : Pair d) (ps : List (Pair d)) (t0 : Freqs d) (ts cs : Vecomap d)
      (b : Sig) (fuel : ℕ)
      → Ready d b (p0 ∷ ps) t0 ts cs
      → all_done d cs ≡ true
      → Listed d vanilla t0
      → (t' : Freqs d) × (merge_loop d (suc fuel) t0 ts cs ≡ some t') × Listed d vanilla t'
  unfolding merge_loop write_dummy
  Kept-end vanilla p0 ps t0 ts cs b fuel r e l =
      let h = r.dummies in
      let p : Pair d = (p0.0, d.div_int (weights_of d (p0 ∷ ps) d.zero) 2) in
      (
        assign dummysig p t0,
        rw (e, merge_loop)
            (rw (dummy_weights-weights_of d (p0 ∷ ps) (t0 ∷ ts) d.zero h, merge_loop) (rw (h.0))),
        assign-Listed vanilla dummysig p t0 (inl refl) l,
      )

  merge_loop-Listed :
      (vanilla : Bool) (fuel : ℕ) (b : Sig) (p0 : Pair d) (ps : List (Pair d)) (t0 : Freqs d)
      (ts cs : Vecomap d)
      → Ready d b (p0 ∷ ps) t0 ts cs
      → ((s : Sig) → sigcmp b s ≡ true → sigcmp dummysig s ≡ true)
      → entries d cs < fuel
      → Listed d vanilla t0
      → (t' : Freqs d) × (merge_loop d fuel t0 ts cs ≡ some t') × Listed d vanilla t'
  merge_loop-Listed vanilla zero b p0 ps t0 ts cs r up f l = absurd (omega arith)
  merge_loop-Listed vanilla (suc fuel) b p0 ps t0 ts cs r up f l =
      elim (Bool-cases (all_done d cs)) [
        | inl e ↦ Kept-end vanilla p0 ps t0 ts cs b fuel r e l
        | inr e ↦
            let (m, found, low, here) = find_min_lem d cs e in
            let p = halve d (sum_of d m (p0 ∷ ps) cs (d.zero, d.zero)) in
            let above = min_above d b m (p0 ∷ ps) t0 ts cs r low here in
            let (t', c, l') =
              merge_loop-Listed vanilla fuel m p0 ps (write_min d m p t0 (first_iter d cs)) ts
                (step_iters d m cs) (Ready-step d b m (p0 ∷ ps) t0 ts cs r low here p)
                (λ s h. up s (sigcmp_trans b m s above h))
                (omega (arith, entries-step_lt d m cs here))
                (write_min-Listed vanilla m p t0 (first_iter d cs) (inr (up m above)) l) in
            (
              t',
              merge_round d fuel t0 ts cs e found (
                    sum_lists-sum_of d b m (p0 ∷ ps) (t0 ∷ ts) cs (d.zero, d.zero) r.dummies r.lens
                      r.sorted low)
                  ∙ c,
              l',
            )
      ]

-- For two or more well-formed lists `mergelists` ends with one list, and that list is well-formed
-- again: the dummies first, and then signatures above them, ascending, each once.
pub mergelists-Listed :
    (d : Doubles) (vanilla : Bool) (t0 t1 : Freqs d) (ts : Vecomap d)
    → All (Listed d vanilla) (t0 ∷ t1 ∷ ts)
    → (t' : Freqs d) × (mergelists d vanilla (t0 ∷ t1 ∷ ts) ≡ some (t' ∷ [])) × Listed d vanilla t'
unfolding mergelists
mergelists-Listed d vanilla t0 t1 ts l =
    let cs = rests d vanilla (t0 ∷ t1 ∷ ts) in
    let (t', c, f) =
      merge_loop-Listed d vanilla (suc (entries d cs)) dummysig (dummy_of d vanilla t0)
        (dummies d vanilla (t1 ∷ ts)) t0 (t1 ∷ ts) cs (Ready-start d vanilla t0 (t1 ∷ ts) l)
        (λ s h. h) (omega arith) l.0 in
    (t', rw (start-rests d vanilla (t0 ∷ t1 ∷ ts) l, mergelists) (rw c), f)
