-- ===== src/Send/Signatures.antt =====
-- `lshsig` sends each signature of a list to its teams.
use mathlib.Core.Path.{subst}
use xgossip.Prelude.{
  ℕ, ◌+◌, ◌^◌, ◌<◌, ◌≡◌, refl, sym, arith, List, [], ◌∷◌, ◌++◌, some, true, length, get_elem?, All,
}
use xgossip.Doubles.{Doubles}
use xgossip.Sig.{Sig}
use xgossip.Sig.Count.{IsSorted}
use xgossip.Text.{Text}
use xgossip.Scale.{Freqs, Vecomap}
use xgossip.Team.{make_team}
use xgossip.Lsh.{◌>>=◌}
use xgossip.Wire.{DoubleBytes, InsertType}
use xgossip.Wire.Read.{decoded}
use xgossip.Wire.Init.{InitMsg, get_init, init_len, get_init-make_init}
use xgossip.Send.{Settings, Insert, team_ids, sends, init_value, lshsig_loop, lshsig, tx_len}
use xgossip.Send.Hashing.{IsReady, CanSend, nonempty, team_ids-IsSorted}
use xgossip.Send.Teams.{ToTeam, Each, Each-map, send_teams-ToTeam}

module _ (compute_hash : Text → ℕ) (id_text : ℕ → Text) (rand_r : ℕ → ℕ) (g : Settings)
    (d : Doubles) (r : DoubleBytes d) where
  -- What a node of the team is sent, and what `getKeyValue` makes of it.
  pub record Delivered (t : InsertType) (s : Sig) (f w : d.Double) (team : ℕ) (x : Insert)
      : Type 0 where
    pub index : ℕ
    pub in_team : index < g.teamsize
    pub member : get_elem? (make_team g.teamsize 0 team).1 index ≡ some x.id
    pub reads :
        get_init d r x.value (length x.value)
        ≡ decoded
            (record { key = id_text x.id; teamid = id_text team; sig = s; freq = f; weight = w })

  -- For each entry of the list its teams in ascending order, and one message to each of them.
  unfoldable pub Covers : InsertType → Freqs d → List Insert → Type 0
  Covers t [] xs = xs ≡ []
  Covers t ((s, (f, w)) ∷ m) xs =
      (ids : List ℕ) × (ys : List Insert) × (zs : List Insert) × (team_ids compute_hash id_text
          rand_r g 0 s
        ≡ some ids)
      × (length ids ≡ g.mgroups)
      × IsSorted ids
      × (xs ≡ ys ++ zs)
      × Each (Delivered t s f w) ids ys
      × Covers t m zs

  module _ (h : IsReady g) (hr : (n : ℕ) → rand_r n < 2 ^ 31)
      (hx : (id : ℕ) → length (id_text id) < 2 ^ 16) where
    message : Sig → d.Double → d.Double → ℕ → Insert → InitMsg d r
    message s f w team x = record {
      key = id_text x.id;
      teamid = id_text team;
      sig = s;
      freq = f;
      weight = w;
    }

    delivered :
        (t : InsertType) (s : Sig) (f w : d.Double) (team : ℕ) (x : Insert)
        → CanSend s
        → ToTeam compute_hash id_text rand_r g
            (init_value compute_hash id_text rand_r g d r t s f w)
            team
            x
        → Delivered t s f w team x
    unfolding CanSend init_value init_len message
    delivered t s f w team x c y = record {
      index = y.index;
      in_team = y.in_team;
      member = y.member;
      reads =
          subst (λ v. get_init d r v (length v) ≡ decoded (message s f w team x)) (sym y.message)
            (get_init-make_init d r t (message s f w team x) (omega (arith, hx x.id, hx team, c.2))
              c.1).1;
    }

    lshsig_loop-Covers :
        (t : InsertType) (m : Freqs d) (n : ℕ)
        → sends compute_hash id_text rand_r g t ≡ true
        → All (λ p. CanSend p.0) m
        → (xs : List Insert) × (lshsig_loop compute_hash id_text rand_r g d r t 0 m n ≡ some xs)
          × Covers t m xs
    unfolding lshsig_loop Covers
    lshsig_loop-Covers t [] n e a = ([], refl, refl)
    lshsig_loop-Covers t ((s, (f, w)) ∷ m) n e a =
        let (ids, p, l, o) = team_ids-IsSorted compute_hash id_text rand_r g h s (nonempty s a.0) in
        let make = init_value compute_hash id_text rand_r g d r t s f w in
        let (ys, q, b) = send_teams-ToTeam compute_hash id_text rand_r g h.members hr make ids n in
        let (zs, k, c) = lshsig_loop-Covers t m (n + length ys) e a.1 in
        (
          ys ++ zs,
          rw (p, ◌>>=◌) (rw e (rw (q, ◌>>=◌) (rw (k, ◌>>=◌) refl))),
          (
            ids,
            ys,
            zs,
            p,
            l,
            o,
            refl,
            Each-map (ToTeam compute_hash id_text rand_r g make) (Delivered t s f w) ids ys
                (λ team x y. delivered t s f w team x a.0 y) b,
            c,
          ),
        )

    -- `lshsig` on a list of the vector, told a type of message that it sends: it ends, and has
    -- sent each signature of the list, in the order of the list, to as many teams as there are groups
    -- of hash functions, those that hashing gives, in ascending order. Each message goes to a member
    -- of its team, and `getKeyValue` reads the node, the team, the signature, its frequency and its
    -- weight from it. Multisets are hashed as they are, and the signatures are not empty and fit in a
    -- message, as the texts of identifiers do.
    pub lshsig-Covers :
        (vm : Vecomap d) (t : InsertType) (listnum n total : ℕ) (m : Freqs d)
        → sends compute_hash id_text rand_r g t ≡ true
        → get_elem? vm listnum ≡ some m
        → All (λ p. CanSend p.0) m
        → (xs : List Insert) × (lshsig compute_hash id_text rand_r g d r vm t listnum 0 n total
            ≡ some (xs, tx_len total xs))
          × Covers t m xs
    unfolding lshsig
    lshsig-Covers vm t listnum n total m e q a =
        let (xs, p, c) = lshsig_loop-Covers t m n e a in (xs, rw (q, ◌>>=◌) (rw (p, ◌>>=◌) refl), c)
