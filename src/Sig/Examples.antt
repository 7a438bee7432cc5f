-- ===== src/Sig/Examples.antt =====
-- Runs and instances of the theorems on signatures.
use xgossip.Prelude.{
  ℕ, ◌<◌, ◌≤◌, ◌≡◌, ◌↔◌, ◌+◌, [], ◌∷◌, some, none, Bool, true, false, refl, arith,
}
use xgossip.Sig.{Sig, sigcmp}
use xgossip.Sig.Order.{sigcmp_strict_order}
use xgossip.Sig.Sets.{set_inter, set_inter_noskip, set_uni, signcmp}
use xgossip.Sig.Sets.Similar.{common, size, signcmp-jaccard}
use xgossip.Sig.Sets.Subset.{Submultiset, set_inter_noskip-Submultiset}

abbrev left : Sig
left = 2 ∷ 3 ∷ 3 ∷ 7 ∷ []

abbrev right : Sig
right = 3 ∷ 5 ∷ 7 ∷ 7 ∷ []

signcmp_run : signcmp left right ≡ some (2, 4, true)
unfolding signcmp set_inter set_uni
signcmp_run = refl

-- An empty signature is read past its end.
signcmp_empty : signcmp [] right ≡ none
unfolding signcmp set_uni
signcmp_empty = refl

noskip_run : (set_inter_noskip (3 ∷ 7 ∷ []) right).0 ≡ 2
unfolding set_inter_noskip
noskip_run = refl

-- A zero at the head is taken for a duplicate of the starting value.
zero_skipped : (set_inter (0 ∷ 3 ∷ []) (0 ∷ 3 ∷ [])).0 ≡ 1
unfolding set_inter
zero_skipped = refl

sigcmp_strict_order_example :
    (sigcmp left (9 ∷ left) ≡ true) × (sigcmp (9 ∷ left) left ≡ false) × (sigcmp left left ≡ false)
unfolding sigcmp
sigcmp_strict_order_example = sigcmp_strict_order left right (9 ∷ left) refl refl

set_inter_noskip-Submultiset_example :
    ((set_inter_noskip (3 ∷ 7 ∷ []) right).0 ≤ 2)
    × (((set_inter_noskip (3 ∷ 7 ∷ []) right).0 ≡ 2) ↔ Submultiset (3 ∷ 7 ∷ []) right)
set_inter_noskip-Submultiset_example =
    set_inter_noskip-Submultiset (3 ∷ 7 ∷ []) right (omega arith) (omega arith)

signcmp-jaccard_example :
    (ninter nunion : ℕ) × (multi : Bool) × (signcmp left right ≡ some (ninter, nunion, multi))
    × (ninter ≡ common left right)
    × (ninter + nunion ≡ size left + size right)
    × (ninter ≤ nunion)
    × (0 < nunion)
signcmp-jaccard_example =
    signcmp-jaccard 2 3 (3 ∷ 3 ∷ 7 ∷ []) (5 ∷ 7 ∷ 7 ∷ []) (omega arith) (omega arith) (omega arith)
      (omega arith)
