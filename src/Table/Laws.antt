-- ===== src/Table/Laws.antt =====
-- A table reads as a function of the signature.
use mathlib.Core.Path.{subst}
use xgossip.Prelude.{◌≡◌, refl, [], ◌∷◌, none, some, true, false, if◌then◌else◌, arith, inl, inr}
use xgossip.Sig.{Sig, sigcmp}
use xgossip.Sig.Order.{sigcmp_irrefl, sigcmp_trans, sigcmp_total}
use xgossip.Table.{same_key, Table, find, assign, push_pair, SortedAbove}

pub same_key→eq : (s t : Sig) → same_key s t ≡ true → s ≡ t
unfolding same_key
same_key→eq s t h = ground (arith, sigcmp_total s t)

pub same_key_refl : (s : Sig) → same_key s s ≡ true
unfolding same_key
same_key_refl s = ground (arith, sigcmp_irrefl s)

pub same_key_less : (s t : Sig) → sigcmp s t ≡ true → same_key s t ≡ false
unfolding same_key
same_key_less s t h = ground arith

pub same_key_greater : (s t : Sig) → sigcmp t s ≡ true → same_key s t ≡ false
unfolding same_key
same_key_greater s t h = ground arith

pub sigcmp_asym : (s t : Sig) → sigcmp s t ≡ true → sigcmp t s ≡ false
sigcmp_asym s t h = ground (arith, sigcmp_trans s t s, sigcmp_irrefl s)

module _ {V : Type 0} where
  -- Reading a map after `m[s] = v` gives v at s, and at any other signature what was there.
  pub find-assign :
      (s t : Sig) (v : V) (m : Table V)
      → find t (assign s v m) ≡ (if same_key t s then some v else find t m)
  unfolding find assign
  find-assign s t v [] = refl
  find-assign s t v ((u, w) ∷ m) = ground (
    arith,
    find-assign s t v m,
    same_key→eq t s,
    same_key→eq t u,
    same_key_less s u,
    same_key_greater s u,
    same_key_refl s,
    sigcmp_total s u,
  )

  pub find-push_pair :
      (s t : Sig) (v : V) (m : Table V)
      → find s m ≡ none
      → find t (push_pair s v m) ≡ (if same_key t s then some v else find t m)
  unfolding push_pair
  find-push_pair s t v m h = rw (h, push_pair) (find-assign s t v m)

  pub SortedAbove-weaken :
      (a b : Sig) (m : Table V) → sigcmp a b ≡ true → SortedAbove b m → SortedAbove a m
  SortedAbove-weaken a b [] h o = tt
  SortedAbove-weaken a b ((t, v) ∷ m) h o = (sigcmp_trans a b t h o.0, o.1)

  -- What is not above the bound of a table is not in it.
  pub find-SortedAbove :
      (b s : Sig) (m : Table V) → SortedAbove b m → sigcmp b s ≡ false → find s m ≡ none
  unfolding find
  find-SortedAbove b s [] o h = refl
  find-SortedAbove b s ((t, v) ∷ m) o h =
      ground (arith, find-SortedAbove t s m o.1, same_key→eq s t, sigcmp_trans b t s)

  pub assign-SortedAbove :
      (b s : Sig) (v : V) (m : Table V)
      → SortedAbove b m
      → sigcmp b s ≡ true
      → SortedAbove b (assign s v m)
  unfolding assign
  assign-SortedAbove b s v [] o h = (h, tt)
  assign-SortedAbove b s v ((t, w) ∷ m) o h = elim (sigcmp_total s t) [
    | inl less ↦ rw less (h, (less, o.1))
    | inr (inl e) ↦ rw (e, sigcmp_irrefl t) (subst (λ u. sigcmp b u ≡ true) e h, o.1)
    | inr (inr more) ↦ rw (sigcmp_asym t s more, more) (o.0, assign-SortedAbove t s v m o.1 more)
  ]

  -- A signature is put behind the entries below it.
  pub assign_after :
      (s t : Sig) (v w : V) (m : Table V)
      → sigcmp t s ≡ true
      → assign s v ((t, w) ∷ m) ≡ (t, w) ∷ assign s v m
  unfolding assign
  assign_after s t v w m h = ground (arith, sigcmp_asym t s)

  pub assign_before :
      (s t : Sig) (v w : V) (m : Table V)
      → sigcmp s t ≡ true
      → assign s v ((t, w) ∷ m) ≡ (s, v) ∷ (t, w) ∷ m
  unfolding assign
  assign_before s t v w m h = ground arith

  pub assign_same : (s : Sig) (v w : V) (m : Table V) → assign s v ((s, w) ∷ m) ≡ (s, v) ∷ m
  unfolding assign
  assign_same s v w m = ground (arith, sigcmp_irrefl s)
