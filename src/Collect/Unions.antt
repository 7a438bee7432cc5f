-- ===== src/Collect/Unions.antt =====
-- `mergeinit` of chord-0.1-vasil/tools/gpsi.C unites the first lists of all teams.
use mathlib.Core.Path.{subst}
use xgossip.Prelude.{
  ◌≡◌, refl, ap, ◌∙◌, sym, List, [], ◌∷◌, map, Option, some, none, true, false, Bool-cases, inl,
  inr, Option-cases, All,
}
use xgossip.Doubles.{Doubles}
use xgossip.Scale.{Pair, Freqs, Vecomap}
use xgossip.Sig.{Sig}
use xgossip.Sig.Order.{sigcmp_irrefl}
use xgossip.Table.{find, same_key, SortedAbove}
use xgossip.Table.Laws.{find-assign, same_key→eq, same_key_refl, find-SortedAbove}
use xgossip.Collect.{absorb, absorb_list, absorb_firsts, mergeinit}

module _ (d : Doubles) where
  -- The entries ascend strictly.
  abbrev pub Ascending : Freqs d → Type 0
  Ascending [] = Unit
  Ascending ((s, p) ∷ m) = SortedAbove s m

  -- An entry united with what one more list has: the frequencies add up, and the weight is 1 from
  -- the first list on.
  unfoldable pub unite : Option (Pair d) → Option (Pair d) → Option (Pair d)
  unite o none = o
  unite none (some (f, w)) = some (f, d.one)
  unite (some (g, v)) (some (f, w)) = some (d.add g f, v)

  -- The union of what the lists have at t, from the first list on.
  unfoldable pub united : Sig → List (Freqs d) → Option (Pair d) → Option (Pair d)
  united t [] o = o
  united t (l ∷ ls) o = united t ls (unite o (find t l))

  find-absorb_same :
      (s : Sig) (p : Pair d) (m : Freqs d) → find s (absorb d s p m) ≡ unite (find s m) (some p)
  unfolding absorb unite
  find-absorb_same s (f, w) m = elim (Option-cases (find s m)) [
    | inl h ↦ rw (h, absorb) (find-assign s s (f, d.one) m ∙ rw (same_key_refl s) refl)
    | inr ((g, v), h) ↦
        rw (h, absorb) (find-assign s s (d.add g f, v) m ∙ rw (same_key_refl s) refl)
  ]

  find-absorb_other :
      (t s : Sig) (p : Pair d) (m : Freqs d)
      → same_key t s ≡ false
      → find t (absorb d s p m) ≡ find t m
  unfolding absorb
  find-absorb_other t s (f, w) m e = elim (Option-cases (find s m)) [
    | inl h ↦ rw (h, absorb) (find-assign s t (f, d.one) m ∙ rw e refl)
    | inr ((g, v), h) ↦ rw (h, absorb) (find-assign s t (d.add g f, v) m ∙ rw e refl)
  ]

  find-absorb_at :
      (t s : Sig) (p : Pair d) (m : Freqs d)
      → same_key t s ≡ true
      → find t (absorb d s p m) ≡ unite (find t m) (some p)
  find-absorb_at t s p m e =
      subst (λ u. find u (absorb d s p m) ≡ unite (find u m) (some p)) (sym (same_key→eq t s e))
        (find-absorb_same s p m)

  gone : (t s : Sig) (l : Freqs d) → SortedAbove s l → same_key t s ≡ true → find t l ≡ none
  gone t s l o e =
      subst (λ u. find u l ≡ none) (sym (same_key→eq t s e))
        (find-SortedAbove s s l o (sigcmp_irrefl s))

  pub Ascending-tail : (s : Sig) (m : Freqs d) → SortedAbove s m → Ascending m
  Ascending-tail s [] o = tt
  Ascending-tail s ((t, p) ∷ m) o = o.1

  pub find-absorb_list :
      (t : Sig) (l m : Freqs d)
      → Ascending l
      → find t (absorb_list d l m) ≡ unite (find t m) (find t l)
  unfolding absorb_list find unite
  find-absorb_list t [] m o = refl
  find-absorb_list t ((s, p) ∷ l) m o = elim (Bool-cases (same_key t s)) [
    | inl e ↦
        find-absorb_list t l (absorb d s p m) (Ascending-tail s l o)
        ∙ rw (e, gone t s l o e, find-absorb_at t s p m e) refl
    | inr e ↦
        find-absorb_list t l (absorb d s p m) (Ascending-tail s l o)
        ∙ rw (find-absorb_other t s p m e, e) refl
  ]

  -- Every vecomap has a first list, which ascends.
  abbrev pub AscendingFirst : Vecomap d → Type 0
  AscendingFirst [] = ⊥
  AscendingFirst (l ∷ ls) = Ascending l

  abbrev pub first_of : Vecomap d → Freqs d
  first_of [] = []
  first_of (l ∷ ls) = l

  -- The run over all vecomaps reaches a list that reads as the union.
  absorb_firsts_lem :
      (vs : List (Vecomap d)) (m : Freqs d)
      → All AscendingFirst vs
      → (m' : Freqs d) × (absorb_firsts d vs m ≡ some m')
        × ((t : Sig) → find t m' ≡ united t (map first_of vs) (find t m))
  unfolding absorb_firsts united
  absorb_firsts_lem [] m a = (m, refl, λ t. refl)
  absorb_firsts_lem ([] ∷ vs) m a = absurd a.0
  absorb_firsts_lem ((l ∷ ls) ∷ vs) m a =
      let (m', c, f) = absorb_firsts_lem vs (absorb_list d l m) a.1 in
      (m', c, λ t. f t ∙ ap (united t (map first_of vs)) (find-absorb_list t l m a.0))

  union_start :
      (vs : List (Vecomap d)) (m' : Freqs d)
      → ((t : Sig) → find t m' ≡ united t (map first_of vs) (find t []))
      → (t : Sig) → find t m' ≡ united t (map first_of vs) none
  unfolding find
  union_start vs m' f t = f t

-- If every vecomap of `totalT` has a first list and it is ordered, `mergeinit` sets `allT` to one
-- list. In it a signature has the sum of its frequencies over the first lists that hold it, added
-- in their order, with the weight 1 whatever the lists' weights, and a signature of none of them is
-- not there.
pub mergeinit-united :
    (d : Doubles) (total : List (Vecomap d))
    → All (AscendingFirst d) total
    → (m : Freqs d) × (mergeinit d total ≡ some (m ∷ []))
      × ((t : Sig) → find t m ≡ united d t (map (first_of d) total) none)
unfolding mergeinit
mergeinit-united d total a =
    let (m, c, f) = absorb_firsts_lem d total [] a in (m, rw c refl, union_start d total m f)
