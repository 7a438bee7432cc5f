-- ===== src/Init/Runs.antt =====
-- Sequences of messages of the initialisation phase, chord-0.1-vasil/tools/gpsi.C: main receives
-- each and calls initgossiprecv.
use xgossip.Prelude.{ℕ, ◌≡◌, ◌⊎◌, List, [], ◌∷◌, ◌++◌, Option, some, none, All, refl}
use xgossip.Doubles.{Doubles}
use xgossip.Sig.{Sig, dummysig, sigcmp}
use xgossip.Init.{InitState, initgossiprecv}
use xgossip.Init.Lists.{Regular}
use xgossip.Init.Step.{WellFormed, Handled, initgossiprecv-Handled}

module _ (d : Doubles) where
  -- An INITGOSSIP message: the team, and the signature with its frequency and weight.
  abbrev pub InitMsg : Type 0
  InitMsg = ℕ × Sig × d.Double × d.Double

  abbrev pub start : InitState d
  start = record { teamindex = []; total = [] }

  -- The messages one after the other, with what is sent.
  pub receive_all : ℕ → ℕ → List InitMsg → InitState d → Option (InitState d × List (ℕ × Sig))
  receive_all ts id [] st = some (st, [])
  receive_all ts id ((team, s, f, w) ∷ msgs) st = elim (initgossiprecv d ts id team s f w st) [
    | none ↦ none
    | some (st', sent) ↦ elim (receive_all ts id msgs st') [
      | none ↦ none
      | some (st'', more) ↦ some (st'', sent ++ more)
    ]
  ]

  abbrev pub RegularMsg : InitMsg → Type 0
  RegularMsg (team, s, f, w) = (s ≡ dummysig) ⊎ Regular s

  -- The run ends in a well-formed state.
  abbrev pub EndsWell : Option (InitState d × List (ℕ × Sig)) → Type 0
  EndsWell none = ⊥
  EndsWell (some (st, sent)) = WellFormed d st

  more_EndsWell :
      (sent : List (ℕ × Sig)) (r : Option (InitState d × List (ℕ × Sig)))
      → EndsWell r
      → EndsWell (elim r [ none ↦ none | some (st, more) ↦ some (st, sent ++ more) ])
  more_EndsWell sent none h = h
  more_EndsWell sent (some (st, more)) h = h

  -- A regular signature to read at.
  abbrev two_sig : Sig
  two_sig = 2 ∷ []

  two_Regular : Regular two_sig
  unfolding sigcmp
  two_Regular = refl

  receive_first :
      (ts id team : ℕ) (s : Sig) (f w : d.Double) (msgs : List InitMsg) (st : InitState d)
      (r : Option (InitState d × List (ℕ × Sig)))
      → ((st' : InitState d) → WellFormed d st' → EndsWell (receive_all ts id msgs st'))
      → Handled d ts id team two_sig s f w st r
      → EndsWell (elim r [
        | none ↦ none
        | some (st', sent) ↦ elim (receive_all ts id msgs st') [
          | none ↦ none
          | some (st'', more) ↦ some (st'', sent ++ more)
        ]
      ])
  receive_first ts id team s f w msgs st none rec h = absurd h
  receive_first ts id team s f w msgs st (some (st', sent)) rec h =
      more_EndsWell sent (receive_all ts id msgs st') (rec st' h.0)

  receive_all_lem :
      (ts id : ℕ) (msgs : List InitMsg) (st : InitState d)
      → All RegularMsg msgs
      → WellFormed d st
      → EndsWell (receive_all ts id msgs st)
  unfolding receive_all
  receive_all_lem ts id [] st a h = h
  receive_all_lem ts id ((team, s, f, w) ∷ msgs) st a h =
      receive_first ts id team s f w msgs st (initgossiprecv d ts id team s f w st)
        (λ st' h'. receive_all_lem ts id msgs st' a.1 h')
        (initgossiprecv-Handled d ts id team two_sig s f w st h two_Regular a.0)

-- From the empty state, any sequence of messages whose signatures are the dummy or above it is
-- received without a fault, and ends in a state where every team's index is that of a vecomap and
-- every vecomap begins with a list as `mergelists` expects it.
pub receive_all-EndsWell :
    (d : Doubles) (ts id : ℕ) (msgs : List (InitMsg d))
    → All (RegularMsg d) msgs
    → EndsWell d (receive_all d ts id msgs (start d))
receive_all-EndsWell d ts id msgs a = receive_all_lem d ts id msgs (start d) a (tt, tt)
