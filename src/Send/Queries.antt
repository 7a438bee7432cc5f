-- ===== src/Send/Queries.antt =====
-- `lshquery` sends each query that is asked for to its teams.
use mathlib.Core.List.{append-nil}
use mathlib.Core.Path.{subst}
use xgossip.Prelude.{
  Option, ℕ, ◌+◌, ◌^◌, ◌<◌, ◌≡◌, refl, sym, arith, List, [], ◌∷◌, ◌++◌, none, some, true, false,
  ◌==◌, if◌then◌else◌, Bool-cases, inl, inr, length, get_elem?, All,
}
use xgossip.Sig.{Sig}
use xgossip.Sig.Count.{IsSorted}
use xgossip.Text.{Text}
use xgossip.Team.{make_team}
use xgossip.Lsh.{◌>>=◌}
use xgossip.Wire.{Bytes, InsertType}
use xgossip.Wire.Read.{decoded}
use xgossip.Wire.Laws.{IsWord}
use xgossip.Wire.Query.{QueryMsg, get_query, query_len, get_query-make_query}
use xgossip.Send.{
  Settings, Insert, team_ids, sends, last_of, Found, is_query, is_proxy, query_value, look_up,
  query_teams, send_query, lshquery_loop, lshquery, tx_len,
}
use xgossip.Send.Hashing.{IsReady, CanSend, nonempty, team_ids-IsSorted}
use xgossip.Send.Teams.{ToTeam, Each, Each-map, send_teams-ToTeam}

-- The queries that are sent: all, or the first of an identifier.
unfoldable pub selected : Option ℕ → List (Sig × ℕ) → List (Sig × ℕ)
selected none m = m
selected (some q) [] = []
selected (some q) ((s, qid) ∷ m) =
    let rest = selected (some q) m in if q == qid then (s, qid) ∷ [] else rest

module _ (compute_hash : Text → ℕ) (id_text : ℕ → Text) (rand_r : ℕ → ℕ) (g : Settings) where
  -- What a node of the team is sent, and what `getKeyValue` makes of it.
  pub record Asked (dtd : Bytes) (s : Sig) (qid team : ℕ) (x : Insert) : Type 0 where
    pub index : ℕ
    pub in_team : index < g.teamsize
    pub member : get_elem? (make_team g.teamsize 0 team).1 index ≡ some x.id
    pub reads :
        get_query x.value (length x.value)
        ≡ decoded
            (record { key = id_text x.id; teamid = id_text team; dtd = dtd; sig = s; qid = qid })

  module _ (qid2dtd : ℕ → Option (List Bytes)) (dtd2proxysigs : Bytes → Option (List Sig)) where
    -- A query with a DTD, both of which fit in a message.
    pub record CanAsk (s : Sig) (qid : ℕ) : Type 0 where
      pub can_send : CanSend s
      pub word : IsWord qid
      pub dtds : List Bytes
      pub dtd : Bytes
      pub known : qid2dtd qid ≡ some dtds
      pub last : last_of dtds ≡ some dtd
      pub fits : length dtd < 2 ^ 16

    -- For each query its DTD, its teams in ascending order, and one message to each of them.
    unfoldable pub Asks : List (Sig × ℕ) → List Insert → Type 0
    Asks [] xs = xs ≡ []
    Asks ((s, qid) ∷ m) xs =
        (ids : List ℕ) × (ys : List Insert) × (zs : List Insert) × (team_ids compute_hash id_text
            rand_r g 0 s
          ≡ some ids)
        × (length ids ≡ g.mgroups)
        × IsSorted ids
        × (xs ≡ ys ++ zs)
        × ((dtds : List Bytes) × (dtd : Bytes) × (qid2dtd qid ≡ some dtds)
            × (last_of dtds ≡ some dtd)
            × Each (Asked dtd s qid) ids ys)
        × Asks m zs

    module _ (h : IsReady g) (hr : (n : ℕ) → rand_r n < 2 ^ 31)
        (hx : (id : ℕ) → length (id_text id) < 2 ^ 16) (t : InsertType) (tq : is_query t ≡ true)
        (tp : is_proxy t ≡ false) (e : sends compute_hash id_text rand_r g t ≡ true) where
      message : Bytes → Sig → ℕ → ℕ → Insert → QueryMsg
      message dtd s qid team x = record {
        key = id_text x.id;
        teamid = id_text team;
        dtd = dtd;
        sig = s;
        qid = qid;
      }

      asked :
          (dtd : Bytes) (s : Sig) (qid team : ℕ) (x : Insert)
          → CanSend s
          → IsWord qid
          → length dtd < 2 ^ 16
          → ToTeam compute_hash id_text rand_r g
              (query_value compute_hash id_text rand_r g t dtd s qid)
              team
              x
          → Asked dtd s qid team x
      unfolding CanSend query_value query_len message
      asked dtd s qid team x c w b y = record {
        index = y.index;
        in_team = y.in_team;
        member = y.member;
        reads =
            subst (λ v. get_query v (length v) ≡ decoded (message dtd s qid team x)) (sym y.message)
              (get_query-make_query t (message dtd s qid team x)
                (omega (arith, hx x.id, hx team, c.2, b)) c.1 w).1;
      }

      -- A query that is not passed over.
      record Sent (s : Sig) (qid : ℕ) (f : Found) (n : ℕ) : Type 0 where
        ids : List ℕ
        ys : List Insert
        next : Found
        sent :
            send_query compute_hash id_text rand_r g qid2dtd dtd2proxysigs t 0 s qid f n
            ≡ some (next, ys)
        teams : team_ids compute_hash id_text rand_r g 0 s ≡ some ids
        count : length ids ≡ g.mgroups
        sorted : IsSorted ids
        dtds : List Bytes
        dtd : Bytes
        known : qid2dtd qid ≡ some dtds
        last : last_of dtds ≡ some dtd
        each : Each (Asked dtd s qid) ids ys

      look_up_found :
          (s : Sig) (qid : ℕ) (f : Found) (c : CanAsk s qid)
          → look_up compute_hash id_text rand_r g qid2dtd dtd2proxysigs t qid f
            ≡ some (record { dtd = c.dtd; regularsig = f.regularsig })
      unfolding look_up
      look_up_found s qid f c = rw (c.known) (rw (c.last, ◌>>=◌) (rw (tp) refl))

      send_query-Sent : (s : Sig) (qid : ℕ) (f : Found) (n : ℕ) → CanAsk s qid → Sent s qid f n
      unfolding send_query query_teams
      send_query-Sent s qid f n c =
          let (ids, p, l, o) =
            team_ids-IsSorted compute_hash id_text rand_r g h s (nonempty s c.can_send) in
          let make = query_value compute_hash id_text rand_r g t c.dtd s qid in
          let (ys, q, b) =
            send_teams-ToTeam compute_hash id_text rand_r g h.members hr make ids n in
          record {
            ids = ids;
            ys = ys;
            next = record { dtd = c.dtd; regularsig = f.regularsig };
            sent =
                rw (look_up_found s qid f c, ◌>>=◌) (rw (tq, p, ◌>>=◌) (rw e (rw (q, ◌>>=◌) refl)));
            teams = p;
            count = l;
            sorted = o;
            dtds = c.dtds;
            dtd = c.dtd;
            known = c.known;
            last = c.last;
            each =
                Each-map (ToTeam compute_hash id_text rand_r g make) (Asked c.dtd s qid) ids ys
                  (λ team x y. asked c.dtd s qid team x c.can_send c.word c.fits y) b;
          }

      add_query :
          (s : Sig) (qid : ℕ) (f : Found) (n : ℕ) (m : List (Sig × ℕ)) (zs : List Insert)
          (x : Sent s qid f n)
          → Asks m zs
          → Asks ((s, qid) ∷ m) (x.ys ++ zs)
      unfolding Asks
      add_query s qid f n m zs x a = (
        x.ids,
        x.ys,
        zs,
        x.teams,
        x.count,
        x.sorted,
        refl,
        (x.dtds, x.dtd, x.known, x.last, x.each),
        a,
      )

      lshquery_loop-Asks :
          (queryid : Option ℕ) (m : List (Sig × ℕ)) (f : Found) (n : ℕ)
          → All (λ (s, qid). CanAsk s qid) m
          → (xs : List Insert) × (lshquery_loop compute_hash id_text rand_r g qid2dtd dtd2proxysigs
                t queryid 0 m f n
              ≡ some xs)
            × Asks (selected queryid m) xs
      unfolding lshquery_loop selected Asks
      lshquery_loop-Asks none [] f n a = ([], refl, refl)
      lshquery_loop-Asks (some q) [] f n a = ([], refl, refl)
      lshquery_loop-Asks none ((s, qid) ∷ m) f n a =
          let x = send_query-Sent s qid f n a.0 in
          let (zs, p, b) = lshquery_loop-Asks none m x.next (n + length x.ys) a.1 in
          (x.ys ++ zs, rw (x.sent, ◌>>=◌) (rw (p, ◌>>=◌) refl), add_query s qid f n m zs x b)
      lshquery_loop-Asks (some q) ((s, qid) ∷ m) f n a = elim (Bool-cases (q == qid)) [
        | inl c ↦
            let x = send_query-Sent s qid f n a.0 in
            rw c (
              x.ys,
              rw x.sent refl,
              (
                x.ids,
                x.ys,
                [],
                x.teams,
                x.count,
                x.sorted,
                sym (append-nil x.ys),
                (x.dtds, x.dtd, x.known, x.last, x.each),
                refl,
              ),
            )
        | inr c ↦ rw c (lshquery_loop-Asks (some q) m f n a.1)
      ]

      -- `lshquery`, told a type of message that it sends and that is not for the proxy signatures:
      -- it ends, and has sent each query that is asked for, all or the first of the identifier, to
      -- as many teams as there are groups of hash functions, those that hashing gives for the query,
      -- in ascending order. Each message goes to a member of its team, and `getKeyValue` reads the
      -- node, the team, the last DTD of the identifier, the query and the identifier from it.
      -- Multisets are hashed as they are, each query has a DTD, is not empty, and fits in a message.
      pub lshquery-Asks :
          (queryid : Option ℕ) (m : List (Sig × ℕ)) (n total : ℕ)
          → All (λ (s, qid). CanAsk s qid) m
          → (xs : List Insert) × (lshquery compute_hash id_text rand_r g qid2dtd dtd2proxysigs m
                queryid t 0 n total
              ≡ some (xs, tx_len total xs))
            × Asks (selected queryid m) xs
      unfolding lshquery
      lshquery-Asks queryid m n total a =
          let (xs, p, b) =
            lshquery_loop-Asks queryid m (record { dtd = []; regularsig = [] }) n a in
          (xs, rw (p, ◌>>=◌) refl, b)
