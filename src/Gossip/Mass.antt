-- ===== src/Gossip/Mass.antt =====
-- What a signature weighs in the lists of a node, and that `mergelists` conserves it,
-- chord-0.1-vasil/tools/gpsi.C.
use mathlib.Core.Option.{some-injective}
use mathlib.Core.Path.{subst, ap₂}
use xgossip.Prelude.{
  ◌≡◌, refl, sym, ap, ◌∙◌, inl, inr, [], ◌∷◌, some, none, Bool, true, false, All, arith, Bool-cases,
  Option-cases, if◌then◌else◌,
}
use xgossip.Doubles.{Doubles}
use xgossip.Scale.{Pair, Freqs, Vecomap}
use xgossip.Sig.{Sig, dummysig, sigcmp}
use xgossip.Table.{find}
use xgossip.Table.Laws.{same_key_greater, same_key_refl}
use xgossip.Merge.{add_pair, halve, mergelists}
use xgossip.Merge.Rounds.{value_or}
use xgossip.Merge.Sums.{in_any, sum_of, weights_of}
use xgossip.Merge.Loop.{merged}
use xgossip.Merge.Kept.{mergelists-Listed}
use xgossip.Merge.Lookup.{
  Listed, rest_of, dummy_of, rests, dummies, find-dummy, find-rest, mergelists-lookup,
}
use xgossip.Gossip.Exact.{Exact, zeros, pair_comm, pair_assoc, zeros_add, pair_halves}

module _ (d : Doubles) where
  -- The entry of a signature, or the dummy's where there is none: what the list stands for.
  unfoldable pub share : Bool → Sig → Freqs d → Pair d
  share vanilla s t = value_or (find s (rest_of d vanilla t)) (dummy_of d vanilla t)

  -- The sums of the shares of some lists.
  unfoldable pub shares : Bool → Sig → Vecomap d → Pair d
  unfolding share
  shares vanilla s [] = zeros d
  shares vanilla s (t ∷ ts) = add_pair d (share vanilla s t) (shares vanilla s ts)

  -- A list as gossip keeps it, whose dummy has no frequency.
  abbrev pub Sound : Bool → Freqs d → Type 0
  Sound vanilla t = Listed d vanilla t × ((dummy_of d vanilla t).0 ≡ d.zero)

  absent :
      (vanilla : Bool) (s : Sig) (t : Freqs d) (ts : Vecomap d)
      → in_any d s (rests d vanilla (t ∷ ts)) ≡ false
      → (share vanilla s t ≡ dummy_of d vanilla t) × (in_any d s (rests d vanilla ts) ≡ false)
  unfolding in_any share
  absent vanilla s t ts h = elim (Option-cases (find s (rest_of d vanilla t))) [
    | inl n ↦ (rw n refl, ground arith)
    | inr (p, n) ↦ ground arith
  ]

  module _ (e : Exact d) (vanilla : Bool) where
    sum_of-shares :
        (s : Sig) (ts : Vecomap d) (acc : Pair d)
        → sum_of d s (dummies d vanilla ts) (rests d vanilla ts) acc
          ≡ add_pair d acc (shares vanilla s ts)
    unfolding sum_of shares share
    sum_of-shares s [] acc = sym (pair_comm d e acc (zeros d) ∙ zeros_add d e acc)
    sum_of-shares s (t ∷ ts) acc =
        sum_of-shares s ts (add_pair d acc (share vanilla s t))
        ∙ pair_assoc d e acc (share vanilla s t) (shares vanilla s ts)

    -- Where no list has the signature, the shares are the dummies.
    shares-none :
        (s : Sig) (ts : Vecomap d) (acc : d.Double)
        → in_any d s (rests d vanilla ts) ≡ false
        → weights_of d (dummies d vanilla ts) acc ≡ d.add acc (shares vanilla s ts).1
    unfolding in_any weights_of shares share add_pair
    shares-none s [] acc h = sym (e.add_comm acc d.zero ∙ e.zero_add acc)
    shares-none s (t ∷ ts) acc h =
        let (same, h') = absent vanilla s t ts h in
        shares-none s ts (d.add acc (dummy_of d vanilla t).1) h'
        ∙ e.add_assoc acc (dummy_of d vanilla t).1 (shares vanilla s ts).1
        ∙ ap (λ (p : Pair d). d.add acc (d.add p.1 (shares vanilla s ts).1)) (sym same)

    shares-freq :
        (s : Sig) (ts : Vecomap d)
        → in_any d s (rests d vanilla ts) ≡ false
        → All (Sound vanilla) ts
        → (shares vanilla s ts).0 ≡ d.zero
    unfolding in_any shares share add_pair
    shares-freq s [] h a = refl
    shares-freq s (t ∷ ts) h a =
        let (same, h') = absent vanilla s t ts h in
        ap (λ (p : Pair d). d.add p.0 (shares vanilla s ts).0) same
        ∙ ap (λ x. d.add x (shares vanilla s ts).0) a.0.1
        ∙ e.zero_add (shares vanilla s ts).0
        ∙ shares-freq s ts h' a.1

  none_first :
      (vanilla : Bool) (s : Sig) (t : Freqs d) (ts : Vecomap d)
      → in_any d s (rests d vanilla (t ∷ ts)) ≡ false
      → find s (rest_of d vanilla t) ≡ none
  unfolding in_any
  none_first vanilla s t ts h = ground arith

  share-entry :
      (vanilla : Bool) (s : Sig) (t : Freqs d) (p : Pair d)
      → find s (rest_of d vanilla t) ≡ some p
      → share vanilla s t ≡ p
  unfolding share
  share-entry vanilla s t p h = rw h refl

  share_absent :
      (vanilla : Bool) (s : Sig) (t : Freqs d)
      → find s (rest_of d vanilla t) ≡ none
      → share vanilla s t ≡ dummy_of d vanilla t
  unfolding share
  share_absent vanilla s t h = rw h refl

  -- What `mergelists` leaves, with its dummy.
  pub record Merged (vanilla : Bool) (t0 : Freqs d) (ts : Vecomap d) (t' : Freqs d) : Type 0 where
    pub call : mergelists d vanilla (t0 ∷ ts) ≡ some (t' ∷ [])
    pub listed : Listed d vanilla t'
    pub reads :
        (s : Sig)
        → find s t'
          ≡ merged d (dummy_of d vanilla t0) (dummies d vanilla ts) t0 (rests d vanilla (t0 ∷ ts)) s

  first_list : Vecomap d → Freqs d → Freqs d
  first_list [] t = t
  first_list (x ∷ xs) t = x

  pub mergelists-Merged :
      (vanilla : Bool) (t0 t1 : Freqs d) (ts : Vecomap d)
      → All (Listed d vanilla) (t0 ∷ t1 ∷ ts)
      → (t' : Freqs d) × Merged vanilla t0 (t1 ∷ ts) t'
  unfolding first_list
  mergelists-Merged vanilla t0 t1 ts l =
      let (t', c, f) = mergelists-lookup d vanilla t0 t1 ts l in
      let (t'', c', l') = mergelists-Listed d vanilla t0 t1 ts l in
      let same = ap (λ v. first_list v t') (some-injective (t'' ∷ []) (t' ∷ []) (sym c' ∙ c)) in
      (t', record { call = c; listed = subst (Listed d vanilla) same l'; reads = f })

  module _ (vanilla : Bool) (t0 : Freqs d) (ts : Vecomap d) (t' : Freqs d)
      (m : Merged vanilla t0 ts t') where
    pub merged_dummy : dummy_of d vanilla t' ≡ (
      (dummy_of d vanilla t0).0,
      d.div_int (weights_of d (dummies d vanilla (t0 ∷ ts)) d.zero) 2,
    )
    merged_dummy = some-injective _ _ (
        sym (find-dummy d vanilla t' m.listed)
        ∙ m.reads dummysig
        ∙ rw (same_key_refl dummysig) refl)

    merged_rest :
        (s : Sig)
        → sigcmp dummysig s ≡ true
        → find s (rest_of d vanilla t') ≡ (
            if in_any d s (rests d vanilla (t0 ∷ ts))
            then some (
                halve d
                  (sum_of d s (dummies d vanilla (t0 ∷ ts)) (rests d vanilla (t0 ∷ ts)) (zeros d)))
            else find s t0)
    merged_rest s h =
        sym (find-rest d vanilla t' s m.listed h)
        ∙ m.reads s
        ∙ rw (same_key_greater s dummysig h) refl

    module _ (e : Exact d) (s : Sig) (h : sigcmp dummysig s ≡ true)
        (a : All (Sound vanilla) (t0 ∷ ts)) where
      mass_present :
          in_any d s (rests d vanilla (t0 ∷ ts)) ≡ true
          → add_pair d (share vanilla s t') (share vanilla s t') ≡ shares vanilla s (t0 ∷ ts)
      mass_present i =
          let total =
            sum_of d s (dummies d vanilla (t0 ∷ ts)) (rests d vanilla (t0 ∷ ts)) (zeros d) in
          let half = share-entry vanilla s t' (halve d total) (merged_rest s h ∙ rw i refl) in
          ap (λ p. add_pair d p p) half
          ∙ pair_halves d e total
          ∙ sum_of-shares e vanilla s (t0 ∷ ts) (zeros d)
          ∙ zeros_add d e (shares vanilla s (t0 ∷ ts))

      mass_absent :
          in_any d s (rests d vanilla (t0 ∷ ts)) ≡ false
          → add_pair d (share vanilla s t') (share vanilla s t') ≡ shares vanilla s (t0 ∷ ts)
      unfolding add_pair
      mass_absent i =
          let weight = weights_of d (dummies d vanilla (t0 ∷ ts)) d.zero in
          let gone = find-rest d vanilla t0 s (a.0.0) h ∙ none_first vanilla s t0 ts i in
          let half : share vanilla s t' ≡ (d.zero, d.div_int weight 2) =
            share_absent vanilla s t' (merged_rest s h ∙ rw i gone)
            ∙ merged_dummy
            ∙ ap (λ x. (x, d.div_int weight 2)) a.0.1 in
          ap (λ p. add_pair d p p) half
          ∙ ap₂ (λ x y. (x, y)) (e.zero_add d.zero ∙ sym (shares-freq e vanilla s (t0 ∷ ts) i a))
              (e.halves weight
                ∙ shares-none e vanilla s (t0 ∷ ts) d.zero i
                ∙ e.zero_add (shares vanilla s (t0 ∷ ts)).1)

      pub mass_kept :
          add_pair d (share vanilla s t') (share vanilla s t') ≡ shares vanilla s (t0 ∷ ts)
      mass_kept = elim (Bool-cases (in_any d s (rests d vanilla (t0 ∷ ts)))) [
        | inl i ↦ mass_present i
        | inr i ↦ mass_absent i
      ]
