-- ===== src/Merge/Rounds.antt =====
-- One round of the merge: the least signature, what each list adds, and what is left.
use xgossip.Prelude.{
  ◌≡◌, ◌⊎◌, inl, inr, refl, [], ◌∷◌, Option, none, some, Bool, true, false, ◌||◌, All, arith,
  Bool-cases,
}
use xgossip.Doubles.{Doubles}
use xgossip.Scale.{Pair, Freqs, Vecomap}
use xgossip.Sig.{Sig, dummysig, samesig, sigcmp}
use xgossip.Sig.Order.{samesig-iff_eq, sigcmp_irrefl, sigcmp_trans, sigcmp_total}
use xgossip.Table.{Table, same_key, find, SortedAbove}
use xgossip.Table.Laws.{same_key→eq, same_key_refl, find-SortedAbove}
use xgossip.Merge.{all_done, find_min, at_min, contribution, step_iters, first_iter}

-- A table's entry of a signature, or else the dummy's.
abbrev pub value_or : {V : Type 0} → Option V → V → V
value_or none p = p
value_or (some q) p = q

-- No entry is below `m`, as the first one is not.
abbrev pub NotBelow : {V : Type 0} → Sig → Table V → Type 0
NotBelow m [] = Unit
NotBelow m ((k, v) ∷ c) = sigcmp k m ≡ false

same_refl : (k m : Sig) → samesig k m ≡ true → k ≡ m
same_refl k m = (samesig-iff_eq k m).0

pub samesig_self : (m : Sig) → samesig m m ≡ true
samesig_self m = (samesig-iff_eq m m).1 refl

module _ (d : Doubles) where
  -- Where the first entry is not at the least signature, the table has no entry of it.
  pub find_min_entry :
      (b m : Sig) (c : Freqs d)
      → SortedAbove b c
      → NotBelow m c
      → at_min d m c ≡ false
      → find m c ≡ none
  unfolding find at_min
  find_min_entry b m [] o l h = refl
  find_min_entry b m ((k, v) ∷ c) o l h =
      ground (arith, same_key→eq m k, find-SortedAbove k m c o.1 l, samesig_self m)

  pub contribution_value :
      (b m : Sig) (t c : Freqs d) (p : Pair d)
      → SortedAbove b c
      → NotBelow m c
      → find dummysig t ≡ some p
      → contribution d m t c ≡ some (value_or (find m c) p)
  unfolding contribution find
  contribution_value b m t [] p o l e = e
  contribution_value b m t ((k, v) ∷ c) p o l e = ground (
    arith,
    same_key→eq m k,
    same_key_refl m,
    same_refl k m,
    samesig_self m,
    find-SortedAbove k m c o.1 l,
  )

  -- The least of the next signatures.
  unfoldable pub at_any : Sig → Vecomap d → Bool
  at_any m [] = false
  at_any m (c ∷ cs) = at_min d m c || at_any m cs

  find_min-some :
      (m0 : Sig) (cs : Vecomap d)
      → (m : Sig) × (find_min d (some m0) cs ≡ some m)
        × (sigcmp m0 m ≡ false)
        × All (NotBelow m) cs
        × ((m ≡ m0) ⊎ (at_any m cs ≡ true))
  unfolding find_min at_any at_min
  find_min-some m0 [] = (m0, refl, sigcmp_irrefl m0, tt, inl refl)
  find_min-some m0 ([] ∷ cs) = let (m, e, l, a, w) = find_min-some m0 cs in (m, e, l, (tt, a), w)
  find_min-some m0 (((s, p) ∷ c) ∷ cs) = elim (Bool-cases (sigcmp s m0)) [
    | inl less ↦
        let (m, e, l, a, w) = find_min-some s cs in
        (
          m,
          rw (less, find_min) e,
          ground (arith, sigcmp_trans s m0 m),
          (l, a),
          ground (arith, samesig_self s),
        )
    | inr more ↦
        let (m, e, l, a, w) = find_min-some m0 cs in
        (
          m,
          rw (more, find_min) e,
          l,
          (ground (arith, sigcmp_trans m0 s m, sigcmp_total m0 s), a),
          ground (arith, samesig_self s),
        )
  ]

  -- While a list has an entry left, the loop finds a signature that is next in some list and that
  -- no next signature is below.
  pub find_min_lem :
      (cs : Vecomap d)
      → all_done d cs ≡ false
      → (m : Sig) × (find_min d none cs ≡ some m) × All (NotBelow m) cs × (at_any m cs ≡ true)
  unfolding find_min all_done at_any at_min
  find_min_lem [] h = cc
  find_min_lem ([] ∷ cs) h = let (m, e, a, w) = find_min_lem cs h in (m, e, (tt, a), w)
  find_min_lem (((s, p) ∷ c) ∷ cs) h =
      let (m, e, l, a, w) = find_min-some s cs in (m, e, (l, a), ground (arith, samesig_self s))

  -- What is left after the round, for a signature other than the least.
  pub step-find :
      (m s : Sig) (c : Freqs d) (cs : Vecomap d)
      → same_key s m ≡ false
      → find s (first_iter d (step_iters d m (c ∷ cs))) ≡ find s c
  unfolding step_iters first_iter find
  step-find m s [] cs h = refl
  step-find m s ((k, v) ∷ c) cs h = ground (arith, same_refl k m)
