-- ===== src/Init/Examples.antt =====
-- Runs of the initialisation phase, and its theorems at concrete messages.
use xgossip.Prelude.{◌∷◌, [], inl, inr, refl, arith}
use xgossip.Numbers.{num, eights}
use xgossip.Sig.{Sig, dummysig, hldsig, sigcmp}
use xgossip.Init.{InitState, initgossiprecv}
use xgossip.Init.Lists.{Regular}
use xgossip.Init.Step.{WellFormed, Handled, initgossiprecv-Handled}
use xgossip.Init.Runs.{start, EndsWell, receive_all, receive_all-EndsWell}

abbrev five : Sig
five = 5 ∷ 6 ∷ []

five-Regular : Regular five
unfolding sigcmp
five-Regular = refl

-- A state with one team of one list.
abbrev one_team : InitState eights
one_team = record {
  teamindex = (40, 0 ∷ []) ∷ [];
  total =
      (((hldsig, (num 0, num 1)) ∷ (dummysig, (num 0, num 1)) ∷ (five, (num 3, num 1)) ∷ []) ∷ [])
      ∷ [];
}

one_team-WellFormed : WellFormed eights one_team
unfolding sigcmp
one_team-WellFormed = ((omega arith, tt), ((refl, refl, (refl, tt)), tt))

initgossiprecv-Handled_example :
    Handled eights 8 40 40 five five
      (num 2)
      (num 1)
      one_team
      (initgossiprecv eights 8 40 40 five (num 2) (num 1) one_team)
initgossiprecv-Handled_example =
    initgossiprecv-Handled eights 8 40 40 five five (num 2) (num 1) one_team one_team-WellFormed
      five-Regular (inr five-Regular)

receive_all-EndsWell_example : EndsWell eights (
    receive_all eights 8 40
      ((40, five, num 2, num 1) ∷ (41, dummysig, num 0, num 1) ∷ (40, five, num 3, num 1) ∷ [])
      (start eights))
receive_all-EndsWell_example =
    receive_all-EndsWell eights 8 40
      ((40, five, num 2, num 1) ∷ (41, dummysig, num 0, num 1) ∷ (40, five, num 3, num 1) ∷ [])
      (inr five-Regular, (inl refl, (inr five-Regular, tt)))
