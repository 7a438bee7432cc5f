-- ===== src/Merge/Lookup.antt =====
-- `mergelists` on well-formed lists, as a function of the signature.
use xgossip.Prelude.{
  suc, ◌≡◌, refl, ap, [], ◌∷◌, map, some, Bool, true, false, List, All, arith, length,
}
use xgossip.Doubles.{Doubles}
use xgossip.Scale.{Pair, Freqs, Vecomap}
use xgossip.Sig.{Sig, dummysig, hldsig, sigcmp}
use xgossip.Sig.Order.{sigcmp_irrefl, sigcmp_trans}
use xgossip.Table.{find, SortedAbove}
use xgossip.Table.Laws.{same_key_refl, same_key_greater}
use xgossip.Merge.{skip, skip_dummies, start_iters, entries, first_iter, mergelists}
use xgossip.Merge.Sums.{HasDummies}
use xgossip.Merge.Ready.{Ready}
use xgossip.Merge.Loop.{merged, merge_loop_lem}

module _ (d : Doubles) where
  -- A list as gossip keeps it: the dummy first, with XGossip the other dummy before it, and then
  -- signatures above the dummy, ascending.
  abbrev pub Listed : Bool → Freqs d → Type 0
  Listed true ((k, p) ∷ m) = (k ≡ dummysig) × SortedAbove dummysig m
  Listed false ((h, q) ∷ (k, p) ∷ m) = (h ≡ hldsig) × (k ≡ dummysig) × SortedAbove dummysig m
  Listed _ _ = ⊥

  -- The part behind the dummies, and the dummy's entry.
  abbrev pub rest_of : Bool → Freqs d → Freqs d
  rest_of true (e ∷ m) = m
  rest_of false (e ∷ f ∷ m) = m
  rest_of _ m = m

  abbrev pub dummy_of : Bool → Freqs d → Pair d
  dummy_of true ((k, p) ∷ m) = p
  dummy_of false (e ∷ (k, p) ∷ m) = p
  dummy_of _ m = (d.zero, d.zero)

  pub hld_below : sigcmp hldsig dummysig ≡ true
  unfolding sigcmp
  hld_below = refl

  pub hld_trans : (s : Sig) → sigcmp dummysig s ≡ true → sigcmp hldsig s ≡ true
  hld_trans s h = sigcmp_trans hldsig dummysig s hld_below h

  skip-Listed :
      (vanilla : Bool) (t : Freqs d)
      → Listed vanilla t
      → skip_dummies d vanilla t ≡ some (rest_of vanilla t)
  unfolding skip_dummies skip
  skip-Listed true [] l = absurd l
  skip-Listed true (e ∷ m) l = refl
  skip-Listed false [] l = absurd l
  skip-Listed false (e ∷ []) l = absurd l
  skip-Listed false (e ∷ f ∷ m) l = refl

  pub find-dummy :
      (vanilla : Bool) (t : Freqs d)
      → Listed vanilla t
      → find dummysig t ≡ some (dummy_of vanilla t)
  unfolding find
  find-dummy true [] l = absurd l
  find-dummy true ((k, p) ∷ m) l = ground (arith, same_key_refl dummysig)
  find-dummy false [] l = absurd l
  find-dummy false (e ∷ []) l = absurd l
  find-dummy false ((h, q) ∷ (k, p) ∷ m) l =
      ground (arith, same_key_refl dummysig, same_key_greater dummysig hldsig hld_below)

  pub find-rest :
      (vanilla : Bool) (t : Freqs d) (s : Sig)
      → Listed vanilla t
      → sigcmp dummysig s ≡ true
      → find s t ≡ find s (rest_of vanilla t)
  unfolding find
  find-rest true [] s l h = absurd l
  find-rest true ((k, p) ∷ m) s l h = ground (arith, same_key_greater s dummysig h)
  find-rest false [] s l h = absurd l
  find-rest false (e ∷ []) s l h = absurd l
  find-rest false ((u, q) ∷ (k, p) ∷ m) s l h =
      ground (arith, same_key_greater s dummysig h, same_key_greater s hldsig (hld_trans s h))

  rest-SortedAbove :
      (vanilla : Bool) (t : Freqs d) → Listed vanilla t → SortedAbove dummysig (rest_of vanilla t)
  rest-SortedAbove true [] l = absurd l
  rest-SortedAbove true (e ∷ m) l = l.1
  rest-SortedAbove false [] l = absurd l
  rest-SortedAbove false (e ∷ []) l = absurd l
  rest-SortedAbove false (e ∷ f ∷ m) l = l.2

  module _ (vanilla : Bool) where
    abbrev pub rests : Vecomap d → Vecomap d
    rests ts = map (rest_of vanilla) ts

    abbrev pub dummies : Vecomap d → List (Pair d)
    dummies ts = map (dummy_of vanilla) ts

    pub start-rests :
        (ts : Vecomap d) → All (Listed vanilla) ts → start_iters d vanilla ts ≡ some (rests ts)
    unfolding start_iters
    start-rests [] l = refl
    start-rests (t ∷ ts) l = rw (skip-Listed vanilla t l.0, start_iters) (rw (start-rests ts l.1))

    pub dummies-HasDummies :
        (ts : Vecomap d) → All (Listed vanilla) ts → HasDummies d (dummies ts) ts
    dummies-HasDummies [] l = tt
    dummies-HasDummies (t ∷ ts) l = (find-dummy vanilla t l.0, dummies-HasDummies ts l.1)

    pub rests-SortedAbove :
        (ts : Vecomap d) → All (Listed vanilla) ts → All (SortedAbove dummysig) (rests ts)
    rests-SortedAbove [] l = tt
    rests-SortedAbove (t ∷ ts) l = (rest-SortedAbove vanilla t l.0, rests-SortedAbove ts l.1)

    pub length-rests : (ts : Vecomap d) → length (rests ts) ≡ length ts
    length-rests [] = refl
    length-rests (t ∷ ts) = ap suc (length-rests ts)

    module _ (t0 : Freqs d) (ts : Vecomap d) (l : All (Listed vanilla) (t0 ∷ ts)) where
      pub Ready-start : Ready d dummysig (dummies (t0 ∷ ts)) t0 ts (rests (t0 ∷ ts))
      unfolding first_iter
      Ready-start = record {
        dummies = dummies-HasDummies (t0 ∷ ts) l;
        sorted = rests-SortedAbove (t0 ∷ ts) l;
        lens = length-rests (t0 ∷ ts);
        above = sigcmp_irrefl dummysig;
        ahead = λ s h. find-rest vanilla t0 s l.0 h;
      }

-- For two or more well-formed lists, `mergelists` ends with one list, whatever the arithmetic. In
-- it the dummy has the first list's frequency and half the sum of all dummies' weights. A signature
-- behind the dummies of some list has half the sums of frequencies and of weights over all lists,
-- in their order, a list without the signature adding its dummy's. Any other signature reads as in
-- the first list.
pub mergelists-lookup :
    (d : Doubles) (vanilla : Bool) (t0 t1 : Freqs d) (ts : Vecomap d)
    → All (Listed d vanilla) (t0 ∷ t1 ∷ ts)
    → (t' : Freqs d) × (mergelists d vanilla (t0 ∷ t1 ∷ ts) ≡ some (t' ∷ []))
      × ((s : Sig)
          → find s t'
            ≡ merged d
                (dummy_of d vanilla t0)
                (dummies d vanilla (t1 ∷ ts))
                t0
                (rests d vanilla (t0 ∷ t1 ∷ ts))
                s)
unfolding mergelists
mergelists-lookup d vanilla t0 t1 ts l =
    let cs = rests d vanilla (t0 ∷ t1 ∷ ts) in
    let (t', c, f) =
      merge_loop_lem d (suc (entries d cs)) dummysig (dummy_of d vanilla t0)
        (dummies d vanilla (t1 ∷ ts)) t0 (t1 ∷ ts) cs (Ready-start d vanilla t0 (t1 ∷ ts) l)
        (omega arith) in
    (t', rw (start-rests d vanilla (t0 ∷ t1 ∷ ts) l, mergelists) (rw c), f)
