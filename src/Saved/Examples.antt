-- ===== src/Saved/Examples.antt =====
-- A saved state at concrete values: a number is printed as an integer, an identifier as two
-- hexadecimal digits.
use xgossip.Prelude.{◌/◌, ◌%◌, [], ◌∷◌, refl, arith}
use xgossip.Numbers.{num, value, eights}
use xgossip.Scale.{Freqs}
use xgossip.Sig.{dummysig, hldsig, sigcmp}
use xgossip.Ring.Hex.{digit, str2chord_id, read_hex, hex_value}
use xgossip.Init.{InitState}
use xgossip.Text.{decimal, decimal_loop, strtol, read_digits, is_delimiter}
use xgossip.Saved.{Forms, find_team_id, holds}
use xgossip.Saved.Entries.{Prints}
use xgossip.Saved.Index.{Reads}
use xgossip.Saved.Loads.{Saves, Restored, loadinitstate-loginitstate}

abbrev forms : Forms eights
forms = record {
  put_double = λ x. decimal (value x);
  strtod = λ t. num (strtol t);
  put_id = λ n. digit (n / 16) ∷ digit (n % 16) ∷ [];
}

abbrev list : Freqs eights
list = (hldsig, (num 0, num 1)) ∷ (dummysig, (num 0, num 1)) ∷ (3 ∷ 9 ∷ [], (num 8, num 2)) ∷ []

abbrev state : InitState eights
state = record { teamindex = (0xa7, 0 ∷ []) ∷ []; total = (list ∷ []) ∷ [] }

abbrev empty : InitState eights
empty = record { teamindex = []; total = [] }

zero-Prints : Prints eights forms (num 0)
unfolding decimal_loop strtol read_digits is_delimiter
zero-Prints = (((λ h. cc), (refl, tt)), (refl, tt), refl, refl)

one-Prints : Prints eights forms (num 1)
unfolding decimal_loop strtol read_digits is_delimiter
one-Prints = (((λ h. cc), (refl, tt)), (refl, tt), refl, refl)

two-Prints : Prints eights forms (num 2)
unfolding decimal_loop strtol read_digits is_delimiter
two-Prints = (((λ h. cc), (refl, tt)), (refl, tt), refl, refl)

eight-Prints : Prints eights forms (num 8)
unfolding decimal_loop strtol read_digits is_delimiter
eight-Prints = (((λ h. cc), (refl, tt)), (refl, tt), refl, refl)

team-Reads : Reads eights forms 0xa7
unfolding is_delimiter str2chord_id read_hex hex_value
team-Reads = (((λ h. cc), (refl, (refl, tt))), (refl, (refl, tt)), λ old. refl)

state-Saves : Saves eights forms state.teamindex 0 state.total
unfolding find_team_id holds sigcmp
state-Saves = (
  omega arith,
  (λ h. omega arith),
  team-Reads,
  (
    ((λ h. cc), omega arith, zero-Prints, one-Prints),
    (
      ((λ h. cc), omega arith, zero-Prints, one-Prints),
      (((λ h. cc), omega arith, eight-Prints, two-Prints), tt),
    ),
  ),
  (refl, (refl, tt)),
  tt,
)

loadinitstate-loginitstate_example : Restored eights forms state empty
loadinitstate-loginitstate_example = loadinitstate-loginitstate eights forms state empty state-Saves
