-- ===== src/Collect/Transport.antt =====
-- A list that one node takes apart for a message and another puts together from it,
-- chord-0.1-vasil/tools/gpsi.C: vecomap2vec and add2vecomapx.
use mathlib.Core.List.{append_assoc, append-nil}
use xgossip.Prelude.{
  ℕ, ◌≡◌, refl, sym, ap, ◌∙◌, List, [], ◌∷◌, ◌++◌, none, some, Bool, true, arith, get_elem?, set,
}
use xgossip.Doubles.{Doubles}
use xgossip.Init.{TeamIndex, find_team}
use xgossip.Scale.{Pair, Freqs, Vecomap}
use xgossip.Sig.{Sig, sigcmp}
use xgossip.Sig.Order.{sigcmp_trans}
use xgossip.Table.{find, assign, push_pair, SortedAbove}
use xgossip.Table.Laws.{same_key_greater, assign_after}
use xgossip.Collect.{Entries, Total, push_entries, push_list, add2vecomapx, vecomap2vec}
use xgossip.Collect.Unions.{Ascending, Ascending-tail}

module _ (d : Doubles) where
  -- Every entry is below a signature.
  abbrev AllBelow : Sig → Freqs d → Type 0
  AllBelow s [] = Unit
  AllBelow s ((t, w) ∷ m) = (sigcmp t s ≡ true) × AllBelow s m

  -- Every entry is below the first of the second list.
  abbrev BelowFirst : Freqs d → Freqs d → Type 0
  BelowFirst m [] = Unit
  BelowFirst m ((s, p) ∷ es) = AllBelow s m

  find-AllBelow : (s : Sig) (m : Freqs d) → AllBelow s m → find s m ≡ none
  unfolding find
  find-AllBelow s [] b = refl
  find-AllBelow s ((t, w) ∷ m) b = ground (arith, find-AllBelow s m, same_key_greater s t b.0)

  assign-AllBelow :
      (s : Sig) (p : Pair d) (m : Freqs d) → AllBelow s m → assign s p m ≡ m ++ (s, p) ∷ []
  unfolding assign
  assign-AllBelow s p [] b = refl
  assign-AllBelow s p ((t, w) ∷ m) b =
      assign_after s t p w m b.0 ∙ ap (λ z. (t, w) ∷ z) (assign-AllBelow s p m b.1)

  push_pair-AllBelow :
      (s : Sig) (p : Pair d) (m : Freqs d) → AllBelow s m → push_pair s p m ≡ m ++ (s, p) ∷ []
  unfolding push_pair
  push_pair-AllBelow s p m b = rw (find-AllBelow s m b, push_pair) (assign-AllBelow s p m b)

  AllBelow-snoc :
      (s t : Sig) (p : Pair d) (m : Freqs d)
      → sigcmp s t ≡ true
      → AllBelow s m
      → AllBelow t (m ++ (s, p) ∷ [])
  AllBelow-snoc s t p [] h b = (h, tt)
  AllBelow-snoc s t p ((u, w) ∷ m) h b = (sigcmp_trans u s t b.0 h, AllBelow-snoc s t p m h b.1)

  BelowFirst-snoc :
      (s : Sig) (p : Pair d) (m es : Freqs d)
      → SortedAbove s es
      → AllBelow s m
      → BelowFirst (m ++ (s, p) ∷ []) es
  BelowFirst-snoc s p m [] o b = tt
  BelowFirst-snoc s p m ((t, q) ∷ es) o b = AllBelow-snoc s t p m o.0 b

  -- Ascending entries above those that are there are put behind them.
  push_entries_lem :
      (es m : Freqs d) → Ascending d es → BelowFirst m es → push_entries d es m ≡ m ++ es
  unfolding push_entries
  push_entries_lem [] m o b = sym (append-nil m)
  push_entries_lem ((s, p) ∷ es) m o b =
      ap (push_entries d es) (push_pair-AllBelow s p m b)
      ∙ push_entries_lem es (m ++ (s, p) ∷ []) (Ascending-tail d s es o)
          (BelowFirst-snoc s p m es o b)
      ∙ append_assoc m ((s, p) ∷ []) es

  below_none : (es : Freqs d) → BelowFirst [] es
  below_none [] = tt
  below_none ((s, p) ∷ es) = tt

  -- Ascending entries, put in one after the other, are the list again.
  pub push_entries_again : (es : Freqs d) → Ascending d es → push_entries d es [] ≡ es
  push_entries_again es o = push_entries_lem es [] o (below_none es)

  pub add_known :
      (bcast : Bool) (es : Entries d) (team i : ℕ) (is : List ℕ) (index : TeamIndex)
      (total : Total d) (v : Vecomap d)
      → find_team team index ≡ some (i ∷ is)
      → get_elem? total i ≡ some v
      → add2vecomapx d bcast es team index total
        ≡ some (index, set total i (v ++ push_entries d es [] ∷ []))
  unfolding add2vecomapx push_list
  add_known bcast es team i is index total v e g =
      rw (e, add2vecomapx) (rw (g, add2vecomapx, push_list) refl)

-- The vectors that `vecomap2vec` makes of an ordered list of the sender give that same list again:
-- `add2vecomapx` appends it to the lists of the team at the receiver, if the receiver knows the
-- team, and leaves all else as it was.
pub add2vecomapx-vecomap2vec :
    (d : Doubles) (bcast : Bool) (from : Vecomap d) (listnum : ℕ) (m : Freqs d) (team i : ℕ)
    (is : List ℕ) (index : TeamIndex) (total : Total d) (v : Vecomap d)
    → get_elem? from listnum ≡ some m
    → Ascending d m
    → find_team team index ≡ some (i ∷ is)
    → get_elem? total i ≡ some v
    → (es : Entries d) × (vecomap2vec d from listnum [] ≡ some es)
      × (add2vecomapx d bcast es team index total ≡ some (index, set total i (v ++ m ∷ [])))
unfolding vecomap2vec
add2vecomapx-vecomap2vec d bcast from listnum m team i is index total v f o e g = (
  m,
  rw (f, vecomap2vec) refl,
  add_known d bcast m team i is index total v e g
      ∙ ap (λ z. some (index, set total i (v ++ z ∷ []))) (push_entries_again d m o),
)
