-- ===== src/Team/Cycle.antt =====
-- Who is in a team and who hears next, chord-0.1-vasil/tools/gpsi.C: make_team and informteam.
use xgossip.Prelude.{
  ℕ, zero, suc, ◌+◌, ◌-◌, ◌%◌, ◌≤◌, ◌<◌, ◌≡◌, ◌≢◌, ◌↔◌, ◌⊎◌, inl, inr, refl, sym, ap, ◌∙◌, some,
  none, Option, arith, length, get_elem?, if◌then◌else◌, ◌==◌,
}
use native.Mathlib.Nat.{mod-eq_of_lt, mod_self}
use mathlib.Core.Option.{some-injective}
use mathlib.Core.Path.{subst}
use xgossip.Ring.{ring_size}
use xgossip.Team.{arclen, step, team_loop, make_team, inform_next}
use xgossip.Team.Spread.{slot, slot_zero, step-slot, arclen_lt, slot_inj}

next_found : (y x : ℕ) → (x ≡ y) ⊎ (x ≢ y)
next_found y x = omega arith

extend :
    (n : ℕ) (f : ℕ → ℕ) (x : ℕ)
    → ((k : ℕ) → k < n → x ≢ f k)
    → x ≢ f n
    → (k : ℕ) → k < suc n
    → x ≢ f k
extend n f x out ne k l = elim (next_found n k) [
  | inl e ↦ subst (λ i. x ≢ f i) (sym e) ne
  | inr away ↦ out k (omega (arith, l, away))
]

-- The search of a value among the first n of a sequence.
found_or_not :
    (n : ℕ) (f : ℕ → ℕ) (x : ℕ) → ((k : ℕ) × (k < n) × (x ≡ f k)) ⊎ ((k : ℕ) → k < n → x ≢ f k)
found_or_not zero f x = inr (λ k l. absurd (omega (arith, l)))
found_or_not (suc n) f x = elim (found_or_not n f x) [
  | inl (k, l, e) ↦ inl (k, omega (arith, l), e)
  | inr out ↦ elim (next_found (f n) x) [
    | inl e ↦ inl (n, omega arith, e)
    | inr ne ↦ inr (λ k l. extend n f x out ne k l)
  ]
]

-- The loop counts, whatever its start.
length-team_loop :
    (my arc n j cur : ℕ) (found : Option ℕ) → length (team_loop my arc n j cur found).1 ≡ n
unfolding team_loop
length-team_loop my arc zero j cur found = refl
length-team_loop my arc (suc n) j cur found = ap suc (
    length-team_loop my arc n (suc j) (step arc cur) (if my == step arc cur then some j else found))

next_or_later : (i k : ℕ) → k < i → (i ≡ suc k) ⊎ (suc k < i)
next_or_later i k l = omega arith

module _ (my arc team : ℕ) (ha : arc < ring_size) where
  get_elem?-team_loop :
      (n k i : ℕ) (found : Option ℕ)
      → i < n
      → get_elem? (team_loop my arc n (suc k) (slot arc team k) found).1 i
        ≡ some (slot arc team (suc k + i))
  unfolding team_loop
  get_elem?-team_loop zero k i found h = absurd (omega arith)
  get_elem?-team_loop (suc n) k zero found h =
      rw (step-slot arc team k ha) (ap (λ z. some (slot arc team z)) (omega arith))
  get_elem?-team_loop (suc n) k (suc i) found h = rw (step-slot arc team k ha) (
      get_elem?-team_loop n (suc k) i (if my == slot arc team (suc k) then some (suc k) else found)
        (omega arith)
      ∙ ap (λ z. some (slot arc team z)) (omega arith))

  -- An identifier that the loop does not meet leaves the index as it is.
  index_missing :
      (n k : ℕ) (found : Option ℕ)
      → ((j : ℕ) → k < j → j ≤ k + n → my ≢ slot arc team j)
      → (team_loop my arc n (suc k) (slot arc team k) found).0 ≡ found
  unfolding team_loop
  index_missing zero k found h = refl
  index_missing (suc n) k found h = rw (step-slot arc team k ha) (
      index_missing n (suc k) (if my == slot arc team (suc k) then some (suc k) else found)
        (λ j l m. h j (omega arith) (omega arith))
      ∙ ground (arith, h (suc k)))

  -- One that it meets once sets it.
  index_met :
      (n k i : ℕ) (found : Option ℕ)
      → k < i
      → i ≤ k + n
      → my ≡ slot arc team i
      → ((j : ℕ) → i < j → j ≤ k + n → my ≢ slot arc team j)
      → (team_loop my arc n (suc k) (slot arc team k) found).0 ≡ some i
  unfolding team_loop
  index_met zero k i found l m e h = absurd (omega arith)
  index_met (suc n) k i found l m e h = elim (next_or_later i k l) [
    | inl same ↦ rw (step-slot arc team k ha) (
        index_missing n (suc k) (if my == slot arc team (suc k) then some (suc k) else found)
          (λ j p q. h j (omega arith) (omega arith))
        ∙ ground (arith, ap (slot arc team) same))
    | inr more ↦ rw (step-slot arc team k ha) (
        index_met n (suc k) i (if my == slot arc team (suc k) then some (suc k) else found) more
          (omega arith) e (λ j p q. h j p (omega arith)))
  ]

pub members_length : (n my team : ℕ) → 0 < n → length (make_team n my team).1 ≡ n
unfolding make_team
members_length n my team h =
    omega (
      arith,
      h,
      length-team_loop my (arclen n) (n - 1) 1 team (if my == team then some 0 else none),
    )

pub first_member : (n my team : ℕ) → get_elem? (make_team n my team).1 0 ≡ some team
unfolding make_team
first_member n my team = refl

module _ (n team : ℕ) (hn : 0 < n) (hr : n < ring_size) (ht : team < ring_size) where
  length-make_team : (my : ℕ) → length (make_team n my team).1 ≡ n
  length-make_team my = members_length n my team hn

  get_elem?-make_team :
      (my j : ℕ) → j < n → get_elem? (make_team n my team).1 j ≡ some (slot (arclen n) team j)
  unfolding make_team
  get_elem?-make_team my zero h = ap some (sym (slot_zero (arclen n) team ht))
  get_elem?-make_team my (suc j) h =
      subst
        (λ c.
          get_elem? (team_loop my (arclen n) (n - 1) 1 c (if my == team then some 0 else none)).1 j
          ≡ some (slot (arclen n) team (suc j)))
        (slot_zero (arclen n) team ht)
        (get_elem?-team_loop my (arclen n) team (arclen_lt n hn) (n - 1) 0 j
            (if my == team then some 0 else none) (omega arith)
          ∙ ap (λ z. some (slot (arclen n) team z)) (omega arith))

  -- The index, with the first member written as a slot.
  index_lem :
      (my : ℕ)
      → (make_team n my team).0
        ≡ (team_loop my
            (arclen n)
            (n - 1)
            1
            (slot (arclen n) team 0)
            (if my == slot (arclen n) team 0 then some 0 else none)).0
  unfolding make_team
  index_lem my = rw (slot_zero (arclen n) team ht) refl

  index_of_slot : (i : ℕ) → i < n → (make_team n (slot (arclen n) team i) team).0 ≡ some i
  index_of_slot zero h =
      index_lem (slot (arclen n) team 0)
      ∙ index_missing (slot (arclen n) team 0) (arclen n) team (arclen_lt n hn) (n - 1) 0
          (if slot (arclen n) team 0 == slot (arclen n) team 0 then some 0 else none)
          (λ j l m. slot_inj n team 0 j hn hr l (omega arith))
      ∙ ground arith
  index_of_slot (suc i) h =
      index_lem (slot (arclen n) team (suc i))
      ∙ index_met (slot (arclen n) team (suc i)) (arclen n) team (arclen_lt n hn) (n - 1) 0 (suc i)
          (if slot (arclen n) team (suc i) == slot (arclen n) team 0 then some 0 else none)
          (omega arith) (omega arith) refl
          (λ j l m. slot_inj n team (suc i) j hn hr l (omega arith))

  index_of_outsider :
      (my : ℕ) → ((j : ℕ) → j < n → my ≢ slot (arclen n) team j) → (make_team n my team).0 ≡ none
  index_of_outsider my h =
      index_lem my
      ∙ index_missing my (arclen n) team (arclen_lt n hn) (n - 1) 0
          (if my == slot (arclen n) team 0 then some 0 else none) (λ j l m. h j (omega arith))
      ∙ ground (arith, h 0)

  -- Different indices are different members.
  slot_iff : (i j : ℕ) → i < n → j < n → (slot (arclen n) team i ≡ slot (arclen n) team j) ↔ (i ≡ j)
  slot_iff i j h m = (
    λ e.
        some-injective i j
          (sym (index_of_slot i h) ∙ ap (λ my. (make_team n my team).0) e ∙ index_of_slot j m),
    ap (slot (arclen n) team),
  )

  -- An index is that of the member that asks.
  asks_for : (my j : ℕ) → j < n → (make_team n my team).0 ≡ some j → my ≡ slot (arclen n) team j
  asks_for my j h e = elim (found_or_not n (slot (arclen n) team) my) [
    | inl (k, l, same) ↦
        same
        ∙ ap (slot (arclen n) team) (
            some-injective k j
              (sym (index_of_slot k l) ∙ ap (λ x. (make_team n x team).0) (sym same) ∙ e))
    | inr outside ↦ cc (e, index_of_outsider my outside)
  ]

  -- For a team size of at least one and below 2 ^ NBIT and an identifier `team` of the circle,
  -- `make_team` lists teamsize members. For indices i and j of the team, 0 included: member j is j
  -- arcs clockwise from `team`, members i and j are different unless i is j, and a node gets the index
  -- j if and only if it is member j.
  pub make_team-slots :
      (my i j : ℕ)
      → i < n
      → j < n
      → (length (make_team n my team).1 ≡ n)
        × (get_elem? (make_team n my team).1 j ≡ some (slot (arclen n) team j))
        × ((slot (arclen n) team i ≡ slot (arclen n) team j) ↔ (i ≡ j))
        × (((make_team n my team).0 ≡ some j) ↔ (my ≡ slot (arclen n) team j))
  make_team-slots my i j l m = (
    length-make_team my,
    get_elem?-make_team my j m,
    slot_iff i j l m,
    (asks_for my j m, λ e. ap (λ x. (make_team n x team).0) e ∙ index_of_slot j m),
  )

  inform_last :
      (i : ℕ)
      → i < n
      → i ≡ n - 1
      → inform_next n (slot (arclen n) team i) team ≡ some (slot (arclen n) team 0)
  unfolding inform_next
  inform_last i h e =
      rw (index_of_slot i h, inform_next)
        (rw (length-make_team (slot (arclen n) team i))
          (ground (arith, get_elem?-make_team (slot (arclen n) team i) 0 (omega arith))))

  inform_mid :
      (i : ℕ)
      → suc i < n
      → inform_next n (slot (arclen n) team i) team ≡ some (slot (arclen n) team (i + 1))
  unfolding inform_next
  inform_mid i h =
      rw (index_of_slot i (omega arith), inform_next)
        (rw (length-make_team (slot (arclen n) team i))
          (ground (arith, get_elem?-make_team (slot (arclen n) team i) (i + 1) (omega arith))))

  last_or_not :
      (i : ℕ) → i < n → ((i ≡ n - 1) × ((i + 1) % n ≡ 0)) ⊎ ((suc i < n) × ((i + 1) % n ≡ i + 1))
  last_or_not i h = elim (next_or_later n i h) [
    | inl e ↦ inl (omega arith, subst (λ m. m % n ≡ 0) (omega arith) (mod_self n))
    | inr l ↦ inr (omega arith, mod-eq_of_lt (omega arith))
  ]

  -- In a team of at least one and fewer than 2 ^ NBIT members, `informteam` run by member i sends
  -- to member i + 1, and run by the last member to the first.
  pub inform_next-cycle :
      (i : ℕ)
      → i < n
      → inform_next n (slot (arclen n) team i) team ≡ some (slot (arclen n) team ((i + 1) % n))
  inform_next-cycle i h = elim (last_or_not i h) [
    | inl (e, z) ↦ rw z (inform_last i h e)
    | inr (l, z) ↦ rw z (inform_mid i l)
  ]

  -- A node that is no member of the team gets no index from `make_team` and sends nothing.
  pub inform_next_outsider :
      (my : ℕ)
      → ((j : ℕ) → j < n → my ≢ slot (arclen n) team j)
      → ((make_team n my team).0 ≡ none) × (inform_next n my team ≡ none)
  unfolding inform_next
  inform_next_outsider my h =
      (index_of_outsider my h, rw (index_of_outsider my h, inform_next) refl)
