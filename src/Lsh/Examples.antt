-- ===== src/Lsh/Examples.antt =====
-- The tests of the module, with the length of a text in place of its SHA-1 hash.
use xgossip.Prelude.{ℕ, ◌≡◌, false, List, [], ◌∷◌, some, length, arith}
use mathlib.Core.Path.{refl}
use xgossip.Sig.{Sig}
use xgossip.Sig.Count.{elem}
use xgossip.Text.{Text}
use xgossip.Poly.{mult_polys, add_poly, mult_poly, mult_words, word_loop, backwards, add_low}
use xgossip.Lsh.{
  get_unique_set, spread_values, multiplied, spread_value, unique, run_lsh, TeamFreqs,
}
use xgossip.Lsh.Minimum.{SameSet}
use xgossip.Lsh.Teams.{run_lsh-SameSet}

abbrev text_length : Text → ℕ
text_length t = length t

abbrev hasha : List ℕ
hasha = 3 ∷ 7 ∷ 1 ∷ 90 ∷ []

abbrev hashb : List ℕ
hashb = 5 ∷ 1 ∷ 0 ∷ 12 ∷ []

abbrev irrnums : List ℕ
irrnums = 0x8000_0009 ∷ 7 ∷ []

abbrev multiset : Sig
multiset = 4 ∷ 4 ∷ 9 ∷ []

abbrev values : Sig
values = 9 ∷ 4 ∷ []

values-SameSet : SameSet multiset values
unfolding SameSet elem
values-SameSet y = ground arith

run_lsh-SameSet_example :
    run_lsh text_length false irrnums 2 2 1000 hasha hashb multiset
    ≡ run_lsh text_length false irrnums 2 2 1000 hasha hashb values
run_lsh-SameSet_example =
    run_lsh-SameSet text_length irrnums 2 2 1000 hasha hashb multiset values values-SameSet

abbrev counters : TeamFreqs
counters = (2, 5) ∷ (6, 1) ∷ []

-- The second 4 becomes the high word of its product, the third 4 times 7.
get_unique_set_repeats : get_unique_set irrnums (4 ∷ 4 ∷ 4 ∷ 9 ∷ []) ≡ some (4 ∷ 2 ∷ 28 ∷ 9 ∷ [])
unfolding get_unique_set spread_values multiplied spread_value unique mult_polys add_poly mult_poly
    mult_words word_loop backwards add_low
get_unique_set_repeats = refl
