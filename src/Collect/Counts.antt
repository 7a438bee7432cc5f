-- ===== src/Collect/Counts.antt =====
-- `calcfreq` of chord-0.1-vasil/tools/gpsi.C counts occurrences.
use mathlib.Core.Path.{subst}
use xgossip.Prelude.{
  ℕ, zero, suc, ◌≡◌, refl, ◌∙◌, sym, List, [], ◌∷◌, ◌++◌, Option, some, none, Bool, true, false,
  Bool-cases, ap, inl, inr, if◌then◌else◌, arith, Option-cases,
}
use xgossip.Doubles.{Doubles}
use xgossip.Scale.{Pair, Freqs, Vecomap}
use xgossip.Sig.{Sig}
use xgossip.Table.{find, assign, same_key}
use xgossip.Table.Laws.{find-assign, same_key→eq, same_key_refl}
use xgossip.Collect.{count_sig, count_sigs, unique_sigs, calcfreq}

unfoldable pub occurrences : Sig → List Sig → ℕ
occurrences t [] = 0
occurrences t (s ∷ ss) = let rest = occurrences t ss in if same_key t s then suc rest else rest

module _ (d : Doubles) where
  -- x + 1 + ... + 1, with n ones, added from the left
  unfoldable pub plus_ones : d.Double → ℕ → d.Double
  plus_ones x zero = x
  plus_ones x (suc n) = plus_ones (d.add x d.one) n

  -- The entry of a signature that occurs n times, with the weight 1.
  unfoldable pub counted : ℕ → Option (Pair d)
  unfolding plus_ones
  counted zero = none
  counted (suc n) = some (plus_ones d.one n, d.one)

  -- An entry after n more occurrences.
  recount : ℕ → Option (Pair d) → Option (Pair d)
  recount n none = counted n
  recount n (some (f, w)) = some (plus_ones f n, w)

  find-count_same : (s : Sig) (m : Freqs d) → find s (count_sig d s m) ≡ recount 1 (find s m)
  unfolding count_sig recount counted plus_ones
  find-count_same s m = elim (Option-cases (find s m)) [
    | inl h ↦ rw (h, count_sig) (find-assign s s (d.one, d.one) m ∙ rw (same_key_refl s) refl)
    | inr ((f, w), h) ↦
        rw (h, count_sig) (find-assign s s (d.add f d.one, w) m ∙ rw (same_key_refl s) refl)
  ]

  find-count_sig :
      (t s : Sig) (m : Freqs d)
      → find t (count_sig d s m) ≡ (if same_key t s then recount 1 (find t m) else find t m)
  unfolding count_sig recount counted plus_ones
  find-count_sig t s m = elim (Bool-cases (same_key t s)) [
    | inl e ↦ rw e (
        subst (λ u. find u (count_sig d s m) ≡ recount 1 (find u m)) (sym (same_key→eq t s e))
          (find-count_same s m))
    | inr e ↦ elim (Option-cases (find s m)) [
      | inl h ↦ rw (h, count_sig) (find-assign s t (d.one, d.one) m ∙ rw e refl)
      | inr ((f, w), h) ↦ rw (h, count_sig) (find-assign s t (d.add f d.one, w) m ∙ rw e refl)
    ]
  ]

  recount_zero : (o : Option (Pair d)) → recount 0 o ≡ o
  unfolding recount counted plus_ones
  recount_zero none = refl
  recount_zero (some p) = refl

  recount_next : (n : ℕ) (o : Option (Pair d)) → recount n (recount 1 o) ≡ recount (suc n) o
  unfolding recount counted plus_ones
  recount_next n none = refl
  recount_next n (some p) = refl

  find-count_sigs :
      (t : Sig) (ss : List Sig) (m : Freqs d)
      → find t (count_sigs d ss m) ≡ recount (occurrences t ss) (find t m)
  unfolding count_sigs occurrences
  find-count_sigs t [] m = sym (recount_zero (find t m))
  find-count_sigs t (s ∷ ss) m = ground (
    arith,
    find-count_sigs t ss (count_sig d s m),
    find-count_sig t s m,
    recount_next (occurrences t ss) (find t m),
  )

  recount_dummy :
      (b : Bool) (n : ℕ)
      → recount n (if b then some (d.zero, d.one) else none)
        ≡ (if b then some (plus_ones d.zero n, d.one) else counted n)
  unfolding recount
  recount_dummy true n = refl
  recount_dummy false n = refl

  -- Behind the dummy, which counts as there with the frequency 0.
  find-behind_dummy :
      (t s : Sig) (ss : List Sig)
      → find t (count_sigs d ss (assign s (d.zero, d.one) [])) ≡ (
          if same_key t s
          then some (plus_ones d.zero (occurrences t ss), d.one)
          else counted (occurrences t ss))
  unfolding recount find
  find-behind_dummy t s ss =
      find-count_sigs t ss (assign s (d.zero, d.one) [])
      ∙ ap (recount (occurrences t ss)) (find-assign s t (d.zero, d.one) [])
      ∙ recount_dummy (same_key t s) (occurrences t ss)

  find-count_empty :
      (t : Sig) (ss : List Sig) → find t (count_sigs d ss []) ≡ counted (occurrences t ss)
  unfolding recount find
  find-count_empty t ss = find-count_sigs t ss []

-- The dummy is there if it is to be skipped.
unfoldable pub HasDummy : Bool → List Sig → Type 0
HasDummy true [] = ⊥
HasDummy _ _ = Unit

module _ (d : Doubles) where
  -- What the new list has at t: with the dummy in front, the dummy has the frequency 0 and the weight 1
  -- before the others are counted.
  unfoldable pub expected : Bool → List Sig → Sig → Option (Pair d)
  expected false sigs t = counted d (occurrences t sigs)
  expected true [] t = none
  expected true (s ∷ sigs) t =
      if same_key t s
      then some (plus_ones d d.zero (occurrences t sigs), d.one)
      else counted d (occurrences t sigs)

  -- The proxy signatures come behind a first list, which is made if it is missing.
  unfoldable pub lists_before : Bool → Vecomap d → Vecomap d
  lists_before false all = all
  lists_before true [] = [] ∷ []
  lists_before true (m ∷ ms) = m ∷ ms

  find-unique_sigs :
      (usedummy : Bool) (sigs : List Sig)
      → HasDummy usedummy sigs
      → (u : Freqs d) × (unique_sigs d usedummy sigs ≡ some u)
        × ((t : Sig) → find t u ≡ expected usedummy sigs t)
  unfolding unique_sigs HasDummy expected
  find-unique_sigs false sigs h = (count_sigs d sigs [], refl, λ t. find-count_empty d t sigs)
  find-unique_sigs true [] h = absurd h
  find-unique_sigs true (s ∷ sigs) h =
      (count_sigs d sigs (assign s (d.zero, d.one) []), refl, λ t. find-behind_dummy d t s sigs)

  calcfreq_pushes :
      (all : Vecomap d) (sigs : List Sig) (usedummy proxysigs : Bool) (u : Freqs d)
      → unique_sigs d usedummy sigs ≡ some u
      → calcfreq d all sigs usedummy proxysigs ≡ some (lists_before proxysigs all ++ u ∷ [])
  unfolding calcfreq lists_before
  calcfreq_pushes all sigs usedummy false u e = rw e refl
  calcfreq_pushes [] sigs usedummy true u e = rw e refl
  calcfreq_pushes (m ∷ ms) sigs usedummy true u e = rw e refl

-- `calcfreq` adds one list to `allT`, for proxy signatures behind a first list, which it makes if there
-- is none. A signature that occurs n > 0 times has the frequency 1 + ... + 1 of n ones, added from the
-- left, and the weight 1, and one that does not occur is not in the list. With `usedummy` there is
-- a first signature, the dummy, which is not counted: it has the frequency 0, or that plus 1 + ... + 1
-- if it occurs again, and the weight 1.
pub calcfreq-occurrences :
    (d : Doubles) (all : Vecomap d) (sigs : List Sig) (usedummy proxysigs : Bool)
    → HasDummy usedummy sigs
    → (u : Freqs d) × (calcfreq d all sigs usedummy proxysigs
        ≡ some (lists_before d proxysigs all ++ u ∷ []))
      × ((t : Sig) → find t u ≡ expected d usedummy sigs t)
calcfreq-occurrences d all sigs usedummy proxysigs h =
    let (u, e, f) = find-unique_sigs d usedummy sigs h in
    (u, calcfreq_pushes d all sigs usedummy proxysigs u e, f)
