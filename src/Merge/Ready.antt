-- ===== src/Merge/Ready.antt =====
-- What holds at the head of the loop of `mergelists`, and that a round keeps it.
use xgossip.Prelude.{
  ℕ, suc, ◌≡◌, refl, ap, ◌∙◌, [], ◌∷◌, some, true, false, List, All, arith, length, if◌then◌else◌,
}
use xgossip.Doubles.{Doubles}
use xgossip.Scale.{Pair, Freqs, Vecomap}
use xgossip.Sig.{Sig, dummysig, sigcmp}
use xgossip.Sig.Order.{sigcmp_trans}
use xgossip.Table.{same_key, find, SortedAbove}
use xgossip.Table.Laws.{same_key→eq, same_key_greater, find-assign, find-push_pair}
use xgossip.Merge.{step_iters, write_min, first_iter}
use xgossip.Merge.Rounds.{NotBelow, find_min_entry, at_any, step-find}
use xgossip.Merge.Sums.{HasDummies, step-SortedAbove}
use xgossip.Merge.Away.{in_any-SortedAbove, in_any-at_any}

module _ (d : Doubles) where
  -- What holds at the head of the loop: `b` is the last signature that was summed, or the dummy.
  pub record Ready (b : Sig) (ps : List (Pair d)) (t0 : Freqs d) (ts cs : Vecomap d) : Type 0 where
    pub dummies : HasDummies d ps (t0 ∷ ts)
    pub sorted : All (SortedAbove b) cs
    pub lens : length cs ≡ suc (length ts)
    pub above : sigcmp b dummysig ≡ false
    pub ahead : (s : Sig) → sigcmp b s ≡ true → find s t0 ≡ find s (first_iter d cs)

  All-first_iter {ℓ} :
      (P : Freqs d → Type ℓ) (n : ℕ) (cs : Vecomap d)
      → length cs ≡ suc n
      → All P cs
      → P (first_iter d cs)
  unfolding first_iter
  All-first_iter P n [] e a = absurd (omega arith)
  All-first_iter P n (c ∷ cs) e a = a.0

  step-find_first :
      (m s : Sig) (n : ℕ) (cs : Vecomap d)
      → length cs ≡ suc n
      → same_key s m ≡ false
      → find s (first_iter d (step_iters d m cs)) ≡ find s (first_iter d cs)
  step-find_first m s n [] e h = absurd (omega arith)
  step-find_first m s n (c ∷ cs) e h = unfold first_iter in step-find d m s c cs h

  pub length-step : (m : Sig) (cs : Vecomap d) → length (step_iters d m cs) ≡ length cs
  unfolding step_iters
  length-step m [] = refl
  length-step m ([] ∷ cs) = ap suc (length-step m cs)
  length-step m (((k, v) ∷ c) ∷ cs) = ap suc (length-step m cs)

  HasDummies-first :
      (ps : List (Pair d)) (t t' : Freqs d) (ts : Vecomap d)
      → find dummysig t' ≡ find dummysig t
      → HasDummies d ps (t ∷ ts)
      → HasDummies d ps (t' ∷ ts)
  HasDummies-first [] t t' ts e h = absurd h
  HasDummies-first (p ∷ ps) t t' ts e h = (e ∙ h.0, h.1)

  module _ (b m : Sig) (ps : List (Pair d)) (t0 : Freqs d) (ts cs : Vecomap d)
      (r : Ready b ps t0 ts cs) (low : All (NotBelow m) cs) (here : at_any d m cs ≡ true) where
    pub min_above : sigcmp b m ≡ true
    min_above = ground (arith, in_any-SortedAbove d b m cs r.sorted, in_any-at_any d m cs here)

    pub min_ne_dummy : same_key dummysig m ≡ false
    min_ne_dummy = let a = r.above in ground (arith, same_key→eq dummysig m, min_above)

    pub write_min-find :
        (s : Sig) (p : Pair d)
        → find s (write_min d m p t0 (first_iter d cs))
          ≡ (if same_key s m then some p else find s t0)
    unfolding write_min
    write_min-find s p = ground (
      arith,
      find-assign m s p t0,
      find-push_pair m s p t0,
      r.ahead m min_above,
      find_min_entry d b m (first_iter d cs)
          (All-first_iter (SortedAbove b) (length ts) cs r.lens r.sorted)
          (All-first_iter (NotBelow m) (length ts) cs r.lens low),
    )

    HasDummies-write : (p : Pair d) → HasDummies d ps (write_min d m p t0 (first_iter d cs) ∷ ts)
    HasDummies-write p =
        HasDummies-first ps t0 _ ts (ground (arith, write_min-find dummysig p, min_ne_dummy))
          r.dummies

    pub Ready-step :
        (p : Pair d) → Ready m ps (write_min d m p t0 (first_iter d cs)) ts (step_iters d m cs)
    Ready-step p = record {
      dummies = HasDummies-write p;
      sorted = step-SortedAbove d b m cs r.sorted low;
      lens = length-step m cs ∙ r.lens;
      above = let a = r.above in ground (arith, sigcmp_trans b m dummysig, min_above);
      ahead = λ s l. ground (
        arith,
        write_min-find s p,
        step-find_first m s (length ts) cs r.lens,
        same_key_greater s m l,
        r.ahead s,
        sigcmp_trans b m s min_above,
      );
    }
