-- ===== src/Send/Teams.antt =====
-- One message for each team, at a node of the team.
use xgossip.Prelude.{
  ℕ, suc, ◌+◌, ◌*◌, ◌^◌, ◌≤◌, ◌<◌, ◌≡◌, refl, arith, List, [], ◌∷◌, some, length, get_elem?,
  get_elem?_lt,
}
use xgossip.Text.{Text}
use xgossip.Team.{make_team}
use xgossip.Team.Cycle.{members_length, first_member}
use xgossip.Lsh.{◌>>=◌}
use xgossip.Wire.{Bytes}
use xgossip.Send.{Settings, Insert, random_num_gen_z, send_team, send_teams}

times_below : (r x m : ℕ) → x < m → r * x + r ≤ r * m
times_below r x m l = grind arith

-- The random index is one of the r.
random_num_gen_z_lt : (r x : ℕ) → 0 < r → x < 2 ^ 31 → random_num_gen_z r x < r
unfolding random_num_gen_z
random_num_gen_z_lt r x p l = omega (arith, p, times_below r x (2 ^ 31) l)

-- A relation between the teams and the messages, one by one.
unfoldable pub Each : (ℕ → Insert → Type 0) → List ℕ → List Insert → Type 0
Each R [] [] = Unit
Each R [] (x ∷ xs) = ⊥
Each R (t ∷ ts) [] = ⊥
Each R (t ∷ ts) (x ∷ xs) = R t x × Each R ts xs

pub Each-map :
    (R S : ℕ → Insert → Type 0) (ts : List ℕ) (xs : List Insert)
    → ((t : ℕ) (x : Insert) → R t x → S t x)
    → Each R ts xs
    → Each S ts xs
unfolding Each
Each-map R S [] [] f a = tt
Each-map R S [] (x ∷ xs) f a = absurd a
Each-map R S (t ∷ ts) [] f a = absurd a
Each-map R S (t ∷ ts) (x ∷ xs) f a = (f t x a.0, Each-map R S ts xs f a.1)

module _ (compute_hash : Text → ℕ) (id_text : ℕ → Text) (rand_r : ℕ → ℕ) (g : Settings) where
  -- What goes to a team: the key is the text of the node that it goes to, a member of the team.
  pub record ToTeam (make : Bytes → Bytes → Bytes) (team : ℕ) (x : Insert) : Type 0 where
    pub index : ℕ
    pub in_team : index < g.teamsize
    pub member : get_elem? (make_team g.teamsize 0 team).1 index ≡ some x.id
    pub message : x.value ≡ make (id_text x.id) (id_text team)

  module _ (ht : 0 < g.teamsize) (hr : (n : ℕ) → rand_r n < 2 ^ 31) where
    send_team-ToTeam :
        (make : Bytes → Bytes → Bytes) (team n : ℕ)
        → (x : Insert) × (send_team compute_hash id_text rand_r g make team n ≡ some x)
          × ToTeam make team x
    unfolding send_team
    send_team-ToTeam make team n =
        let members = (make_team g.teamsize 0 team).1 in
        let count = members_length g.teamsize 0 team ht in
        let i = random_num_gen_z (length members) (rand_r n) in
        let small : i < length members =
          random_num_gen_z_lt (length members) (rand_r n) (omega (arith, count, ht)) (hr n) in
        let (id, e) = get_elem?_lt members i small in
        (
          record { id = id; value = make (id_text id) (id_text team) },
          rw (e, ◌>>=◌) (rw (first_member g.teamsize 0 team, ◌>>=◌) refl),
          record { index = i; in_team = omega (arith, small, count); member = e; message = refl },
        )

    pub send_teams-ToTeam :
        (make : Bytes → Bytes → Bytes) (ids : List ℕ) (n : ℕ)
        → (xs : List Insert) × (send_teams compute_hash id_text rand_r g make ids n ≡ some xs)
          × Each (ToTeam make) ids xs
    unfolding send_teams Each
    send_teams-ToTeam make [] n = ([], refl, tt)
    send_teams-ToTeam make (t ∷ ids) n =
        let (x, e, a) = send_team-ToTeam make t n in
        let (xs, p, b) = send_teams-ToTeam make ids (suc n) in
        (x ∷ xs, rw (e, ◌>>=◌) (rw (p, ◌>>=◌) refl), (a, b))
