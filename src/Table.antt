-- ===== src/Table.antt =====
-- `mapType` of chord-0.1-vasil/tools/gpsi.C, a `std::map` from signatures to a frequency and a
-- weight, ordered by CompareSig: the list of its entries in the order of iteration. A map's vector
-- holds more than two numbers only where two are pushed to an existing key; the source reads the
-- first two.
pub mod Laws
use xgossip.Prelude.{◌≡◌, List, [], ◌∷◌, Option, none, some, Bool, true, not, ◌&&◌, if◌then◌else◌}
use xgossip.Sig.{Sig, sigcmp}

-- Two keys are the same to a map when neither is below the other.
unfoldable pub same_key : Sig → Sig → Bool
same_key s t = not (sigcmp s t) && not (sigcmp t s)

abbrev pub Table : Type 0 → Type 0
Table V = List (Sig × V)

module _ {V : Type 0} where
  -- `find`
  unfoldable pub find : Sig → Table V → Option V
  find s [] = none
  find s ((t, v) ∷ m) = let rest = find s m in if same_key s t then some v else rest

  -- `m[s] = v`: the entry of `s`, made where it is missing.
  unfoldable pub assign : Sig → V → Table V → Table V
  assign s v [] = (s, v) ∷ []
  assign s v ((t, w) ∷ m) =
      let rest = assign s v m in
      if sigcmp s t then (s, v) ∷ (t, w) ∷ m else if sigcmp t s then (t, w) ∷ rest else (s, v) ∷ m

  -- `m[s].push_back(f); m[s].push_back(w)`: an entry that is there keeps its first two numbers.
  unfoldable pub push_pair : Sig → V → Table V → Table V
  push_pair s v m = elim (find s m) [ none ↦ assign s v m | some _ ↦ m ]

  -- The entries ascend strictly, all above a signature.
  abbrev pub SortedAbove : Sig → Table V → Type 0
  SortedAbove b [] = Unit
  SortedAbove b ((t, v) ∷ m) = (sigcmp b t ≡ true) × SortedAbove t m
