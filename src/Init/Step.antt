-- ===== src/Init/Step.antt =====
-- One message of the initialisation phase on the whole state, chord-0.1-vasil/tools/gpsi.C:
-- initgossiprecv.
use mathlib.Core.Path.{subst}
use mathlib.Core.Option.{some-injective}
use xgossip.Prelude.{
  ℕ, zero, suc, ◌<◌, ◌≤◌, ◌≡◌, refl, sym, ap, ◌∙◌, ◌⊎◌, inl, inr, List, [], ◌∷◌, ◌++◌, Option, some,
  none, arith, ◌==◌, Option-cases, Bool-cases, All, length, get_elem?, set, length-set,
  get_elem?_lt,
}
use xgossip.Doubles.{Doubles}
use xgossip.Scale.{Vecomap}
use xgossip.Sig.{Sig, dummysig}
use xgossip.Init.{
  TeamIndex, InitState, find_team, push_index, locate, recv_vecomap, inform, initgossiprecv,
}
use xgossip.Init.Lists.{Regular, Started, StartedOrEmpty, Received, told, recv_vecomap-Received}

-- A team's first index is that of a vecomap.
abbrev pub HeadBelow : ℕ → List ℕ → Type 0
HeadBelow n [] = ⊥
HeadBelow n (i ∷ is) = i < n

abbrev pub IndexOk : ℕ → TeamIndex → Type 0
IndexOk n [] = Unit
IndexOk n ((t, is) ∷ m) = HeadBelow n is × IndexOk n m

HeadBelow-append : (n k i : ℕ) (is : List ℕ) → n ≤ k → HeadBelow n is → HeadBelow k (is ++ i ∷ [])
HeadBelow-append n k i [] l h = absurd h
HeadBelow-append n k i (j ∷ is) l h = omega arith

HeadBelow-weaken : (n k : ℕ) (is : List ℕ) → n ≤ k → HeadBelow n is → HeadBelow k is
HeadBelow-weaken n k [] l h = h
HeadBelow-weaken n k (i ∷ is) l h = omega arith

IndexOk-weaken : (n k : ℕ) (m : TeamIndex) → n ≤ k → IndexOk n m → IndexOk k m
IndexOk-weaken n k [] l h = tt
IndexOk-weaken n k ((t, is) ∷ m) l h = (HeadBelow-weaken n k is l h.0, IndexOk-weaken n k m l h.1)

IndexOk-push :
    (team n k i : ℕ) (m : TeamIndex) → n ≤ k → i < k → IndexOk n m → IndexOk k (push_index team i m)
unfolding push_index
IndexOk-push team n k i [] l b h = (b, tt)
IndexOk-push team n k i ((t, is) ∷ m) l b h = ground (
  arith,
  HeadBelow-append n k i is l,
  HeadBelow-weaken n k is l,
  IndexOk-weaken n k m l,
  IndexOk-push team n k i m l b,
)

find_team-push_index :
    (team i : ℕ) (m : TeamIndex)
    → find_team team m ≡ none
    → find_team team (push_index team i m) ≡ some (i ∷ [])
unfolding find_team push_index
find_team-push_index team i [] h = ground arith
find_team-push_index team i ((t, is) ∷ m) h = ground (arith, find_team-push_index team i m)

find_team-IndexOk :
    (team n : ℕ) (is : List ℕ) (m : TeamIndex)
    → IndexOk n m
    → find_team team m ≡ some is
    → HeadBelow n is
unfolding find_team
find_team-IndexOk team n is [] h e = ground arith
find_team-IndexOk team n is ((t, js) ∷ m) h e = elim (Bool-cases (team == t)) [
  | inl same ↦ subst (HeadBelow n) (some-injective js is (sym (rw same refl) ∙ e)) h.0
  | inr other ↦ find_team-IndexOk team n is m h.1 (sym (rw other refl) ∙ e)
]

module _ {A : Type 0} where
  get_elem?-snoc : (xs : List A) (a : A) → get_elem? (xs ++ a ∷ []) (length xs) ≡ some a
  get_elem?-snoc [] a = refl
  get_elem?-snoc (x ∷ xs) a = get_elem?-snoc xs a

  get_elem?-set_snoc :
      (xs : List A) (a b : A) → get_elem? (set (xs ++ a ∷ []) (length xs) b) (length xs) ≡ some b
  get_elem?-set_snoc [] a b = refl
  get_elem?-set_snoc (x ∷ xs) a b = get_elem?-set_snoc xs a b

  length-set_snoc :
      (xs : List A) (a b : A) → length (set (xs ++ a ∷ []) (length xs) b) ≡ suc (length xs)
  length-set_snoc [] a b = refl
  length-set_snoc (x ∷ xs) a b = ap suc (length-set_snoc xs a b)

  get_elem?-set_same :
      (xs : List A) (i : ℕ) (a b : A) → get_elem? xs i ≡ some a → get_elem? (set xs i b) i ≡ some b
  get_elem?-set_same [] i a b e = ground arith
  get_elem?-set_same (x ∷ xs) zero a b e = refl
  get_elem?-set_same (x ∷ xs) (suc i) a b e = get_elem?-set_same xs i a b e

  All-set : (P : A → Type 0) (xs : List A) (i : ℕ) (a : A) → All P xs → P a → All P (set xs i a)
  All-set P [] i a h p = tt
  All-set P (x ∷ xs) zero a h p = (p, h.1)
  All-set P (x ∷ xs) (suc i) a h p = (h.0, All-set P xs i a h.1 p)

  All-set_snoc :
      (P : A → Type 0) (xs : List A) (a b : A)
      → All P xs
      → P b
      → All P (set (xs ++ a ∷ []) (length xs) b)
  All-set_snoc P [] a b h p = (p, tt)
  All-set_snoc P (x ∷ xs) a b h p = (h.0, All-set_snoc P xs a b h.1 p)

  All-get :
      (P : A → Type 0) (xs : List A) (i : ℕ) (a : A) → All P xs → get_elem? xs i ≡ some a → P a
  All-get P [] i a h e = ground arith
  All-get P (x ∷ xs) zero a h e = subst P (some-injective x a e) h.0
  All-get P (x ∷ xs) (suc i) a h e = All-get P xs i a h.1 e

module _ (d : Doubles) where
  -- Every team has the lists of an index, and these begin with a list as gossip keeps it.
  abbrev pub WellFormed : InitState d → Type 0
  WellFormed st = IndexOk (length st.total) st.teamindex × All (Started d) st.total

  -- The lists of a team; a team that is not there has none.
  unfoldable pub lists_of : ℕ → InitState d → Vecomap d
  lists_of team st = elim (find_team team st.teamindex) [
    | some (i ∷ is) ↦ elim (get_elem? st.total i) [ some v ↦ v | none ↦ [] ]
    | _ ↦ []
  ]

  -- What a message does: the state keeps its form, the team's lists are updated, and word is sent
  -- when the team had none.
  abbrev pub Handled :
      ℕ
      → ℕ
      → ℕ
      → Sig
      → Sig
      → d.Double
      → d.Double
      → InitState d
      → Option (InitState d × List (ℕ × Sig))
      → Type 0
  Handled ts id team t s f w st none = ⊥
  Handled ts id team t s f w st (some (st', msgs)) =
      WellFormed st'
      × Received d t s f w (lists_of team st) (lists_of team st')
      × (msgs ≡ inform d ts id team (told d (lists_of team st)))

  lists_of-none :
      (team : ℕ) (st : InitState d) → find_team team st.teamindex ≡ none → lists_of team st ≡ []
  unfolding lists_of
  lists_of-none team st e = rw (e, lists_of) refl

  lists_of_head :
      (team i : ℕ) (is : List ℕ) (v : Vecomap d) (st : InitState d)
      → find_team team st.teamindex ≡ some (i ∷ is)
      → get_elem? st.total i ≡ some v
      → lists_of team st ≡ v
  unfolding lists_of
  lists_of_head team i is v st e g = rw (e, lists_of) (rw g refl)

  Handled-new :
      (ts id team : ℕ) (t s : Sig) (f w : d.Double) (st : InitState d)
      → WellFormed st
      → Regular t
      → (s ≡ dummysig) ⊎ Regular s
      → find_team team st.teamindex ≡ none
      → Handled ts id team t s f w st (initgossiprecv d ts id team s f w st)
  unfolding initgossiprecv locate
  Handled-new ts id team t s f w st h q r e =
      let n = length st.total in
      let v' = (recv_vecomap d s f w []).0 in
      let st' : InitState d = record {
        teamindex = push_index team n st.teamindex;
        total = set (st.total ++ [] ∷ []) n v';
      } in
      let got = recv_vecomap-Received d t s f w [] q r tt in
      rw (e, initgossiprecv, locate)
        (rw (get_elem?-snoc st.total []) (
          (
            IndexOk-push team n (length st'.total) n st.teamindex
                (omega (arith, length-set_snoc st.total [] v'))
                (omega (arith, length-set_snoc st.total [] v')) h.0,
            All-set_snoc (Started d) st.total [] v' h.1 got.0.0,
          ),
          rw
              (
                lists_of-none team st e,
                lists_of_head team n [] v' st' (find_team-push_index team n st.teamindex e)
                    (get_elem?-set_snoc st.total [] v'),
              )
              got.0,
          rw (lists_of-none team st e) (ap (inform d ts id team) got.1),
        ))

  Started-OrEmpty : (v : Vecomap d) → Started d v → StartedOrEmpty d v
  Started-OrEmpty [] h = absurd h
  Started-OrEmpty (m ∷ ms) h = h

  Handled-old :
      (ts id team i : ℕ) (is : List ℕ) (t s : Sig) (f w : d.Double) (v : Vecomap d)
      (st : InitState d)
      → WellFormed st
      → Regular t
      → (s ≡ dummysig) ⊎ Regular s
      → find_team team st.teamindex ≡ some (i ∷ is)
      → get_elem? st.total i ≡ some v
      → Handled ts id team t s f w st (initgossiprecv d ts id team s f w st)
  unfolding initgossiprecv locate
  Handled-old ts id team i is t s f w v st h q r e g =
      let v' = (recv_vecomap d s f w v).0 in
      let st' : InitState d = record { teamindex = st.teamindex; total = set st.total i v' } in
      let ok = All-get (Started d) st.total i v h.1 g in
      let got = recv_vecomap-Received d t s f w v q r (Started-OrEmpty v ok) in
      rw (e, initgossiprecv, locate)
        (rw g (
          (
            IndexOk-weaken (length st.total) (length st'.total) st.teamindex
                (omega (arith, length-set st.total i v')) h.0,
            All-set (Started d) st.total i v' h.1 got.0.0,
          ),
          rw
              (
                lists_of_head team i is v st e g,
                lists_of_head team i is v' st' e (get_elem?-set_same st.total i v v' g),
              )
              got.0,
          rw (lists_of_head team i is v st e g) (ap (inform d ts id team) got.1),
        ))

  Handled-listed :
      (ts id team : ℕ) (is : List ℕ) (t s : Sig) (f w : d.Double) (st : InitState d)
      → WellFormed st
      → Regular t
      → (s ≡ dummysig) ⊎ Regular s
      → find_team team st.teamindex ≡ some is
      → HeadBelow (length st.total) is
      → Handled ts id team t s f w st (initgossiprecv d ts id team s f w st)
  Handled-listed ts id team [] t s f w st h q r e b = absurd b
  Handled-listed ts id team (i ∷ is) t s f w st h q r e b =
      let (v, g) = get_elem?_lt st.total i b in Handled-old ts id team i is t s f w v st h q r e g

-- On a well-formed state and a signature that is the dummy or above it, `initgossiprecv` does not
-- fault and leaves a well-formed state. At a signature t above the dummy, the team's first list
-- afterwards has, if t is the one received, its old frequency plus that received, or, where it was
-- not there, the frequency and weight received; and otherwise what it had. It has the node inform
-- its team of the dummy exactly when the team had no list.
pub initgossiprecv-Handled :
    (d : Doubles) (ts id team : ℕ) (t s : Sig) (f w : d.Double) (st : InitState d)
    → WellFormed d st
    → Regular t
    → (s ≡ dummysig) ⊎ Regular s
    → Handled d ts id team t s f w st (initgossiprecv d ts id team s f w st)
initgossiprecv-Handled d ts id team t s f w st h q r =
    elim (Option-cases (find_team team st.teamindex)) [
      | inl e ↦ Handled-new d ts id team t s f w st h q r e
      | inr (is, e) ↦
          Handled-listed d ts id team is t s f w st h q r e
            (find_team-IndexOk team (length st.total) is st.teamindex h.0 e)
    ]
