-- ===== src/Send.antt =====
-- `lshsig` and `lshquery` of chord-0.1-vasil/tools/gpsi.C, with `randomNumGenZ` of
-- chord-0.1-vasil/utils/utils.C: a signature or a query is sent to one node of each team that hashing
-- gives. What `insertDHT` is told to store is a result, and the n-th call of the C library's `rand_r`, the
-- SHA-1 of a text and the text of a chordID are parameters. A call of `insertDHT` that fails is logged
-- and nothing else.
pub mod Teams
pub mod Hashing
pub mod Signatures
pub mod Queries
mod Examples
use mathlib.Core.Option
use xgossip.Prelude.{
  ℕ, zero, suc, ◌+◌, ◌*◌, ◌/◌, ◌^◌, List, [], ◌∷◌, ◌++◌, Option, none, some, Bool, true, false, not,
  ◌||◌, ◌&&◌, ◌==◌, if◌then◌else◌, length, get_elem?,
}
use xgossip.Doubles.{Doubles}
use xgossip.Sig.{Sig}
use xgossip.Text.{Text}
use xgossip.Scale.{Freqs, Vecomap}
use xgossip.Team.{make_team}
use xgossip.Lsh.{Lsh, ◌>>=◌, get_hash_code, get_unique_set, sort_ids}
use xgossip.Wire.{Bytes, DoubleBytes, InsertType, type_code, invalid, queryx, querys, queryxp}
use xgossip.Wire.Init.{make_init}
use xgossip.Wire.Query.{make_query}

-- The globals that are read.
pub record Settings : Type 0 where
  pub uflag : Bool
  pub qflag : Bool
  pub gflag : Bool
  pub irrnums : List ℕ
  pub lfuncs : ℕ
  pub mgroups : ℕ
  pub lshseed : ℕ
  pub hasha : List ℕ
  pub hashb : List ℕ
  pub teamsize : ℕ

-- `insertDHT(ID, value, ...)`
pub record Insert : Type 0 where
  pub id : ℕ
  pub value : Bytes

-- `randomNumGenZ(r)` where `rand_r` gives x; RAND_MAX is 2 ^ 31 - 1, and below 2 ^ 22 nothing is rounded.
unfoldable pub random_num_gen_z : ℕ → ℕ → ℕ
random_num_gen_z r x = r * x / 2 ^ 31

-- `totaltxmsglen`, after the messages.
unfoldable pub tx_len : ℕ → List Insert → ℕ
tx_len total [] = total
tx_len total (x ∷ xs) = tx_len (total + length x.value) xs

-- `back()`, which reads an empty vector out of bounds.
unfoldable pub last_of {ℓ} : {A : Type ℓ} → List A → Option A
last_of [] = none
last_of (x ∷ []) = some x
last_of (x ∷ y ∷ xs) = last_of (y ∷ xs)

-- What stays in `dtd` and `regularsig` from one query to the next.
pub record Found : Type 0 where
  pub dtd : Bytes
  pub regularsig : Sig

unfoldable pub is_query : InsertType → Bool
is_query queryx = true
is_query querys = true
is_query _ = false

unfoldable pub is_proxy : InsertType → Bool
is_proxy queryxp = true
is_proxy _ = false

module _ (compute_hash : Text → ℕ) (id_text : ℕ → Text) (rand_r : ℕ → ℕ) (g : Settings) where
  -- `minhash`, for the constructor's argument `col`.
  unfoldable pub team_ids : ℕ → Sig → Option (List ℕ)
  team_ids col sig =
      let h : Lsh = record {
        k = length sig;
        l = g.lfuncs;
        m = g.mgroups;
        col = col;
        highest = g.lshseed;
        randa = g.hasha;
        randb = g.hashb;
      } in
      Option.map sort_ids (
        if g.uflag
        then (get_unique_set g.irrnums sig >>= get_hash_code compute_hash h)
        else get_hash_code compute_hash h sig)

  -- `(Qflag == 1 || gflag == 1) && msgtype != INVALID`
  unfoldable pub sends : InsertType → Bool
  sends msgtype = (g.qflag || g.gflag) && not (type_code msgtype == type_code invalid)

  -- One round of the loop over `minhash`; `make` is `makeKeyValue` on the key and the team's text.
  -- The asking node is NULL, and its index is dropped.
  unfoldable pub send_team : (Bytes → Bytes → Bytes) → ℕ → ℕ → Option Insert
  send_team make teamid n = do
    let team = (make_team g.teamsize 0 teamid).1
    id ← get_elem? team (random_num_gen_z (length team) (rand_r n))
    first ← get_elem? team 0
    some (record { id = id; value = make (id_text id) (id_text first) })

  -- The loop over `minhash`, from the n-th random number on.
  unfoldable pub send_teams : (Bytes → Bytes → Bytes) → List ℕ → ℕ → Option (List Insert)
  send_teams make [] n = some []
  send_teams make (teamid ∷ ids) n = do
    x ← send_team make teamid n
    xs ← send_teams make ids (suc n)
    some (x ∷ xs)

  unfoldable pub query_value : InsertType → Bytes → Sig → ℕ → Bytes → Bytes → Bytes
  query_value msgtype dtd querysig qid key teamid =
      make_query msgtype
        (record { key = key; teamid = teamid; dtd = dtd; sig = querysig; qid = qid })

  -- `qid2dtd` and `dtd2proxysigs`
  module _ (qid2dtd : ℕ → Option (List Bytes)) (dtd2proxysigs : Bytes → Option (List Sig)) where
    -- The lookups for a query: what is not found stays as it was.
    unfoldable pub look_up : InsertType → ℕ → Found → Option Found
    look_up msgtype qid f = do
      dtd ← elim (qid2dtd qid) [ none ↦ some f.dtd | some dtds ↦ last_of dtds ]
      regularsig ←
          if is_proxy msgtype
          then (elim (dtd2proxysigs dtd) [ none ↦ some f.regularsig | some sigs ↦ last_of sigs ])
          else some f.regularsig
      some (record { dtd = dtd; regularsig = regularsig })

    -- The signature whose teams are sought; none for the other types of messages.
    unfoldable pub query_teams : InsertType → ℕ → Sig → Found → Option (List ℕ)
    query_teams msgtype col querysig f =
        if is_query msgtype
        then team_ids col querysig
        else if is_proxy msgtype
        then team_ids col f.regularsig
        else some []

    -- A query of the loop of `lshquery` that is not passed over.
    unfoldable pub send_query : InsertType → ℕ → Sig → ℕ → Found → ℕ → Option (Found × List Insert)
    send_query msgtype col querysig qid f n = do
      f' ← look_up msgtype qid f
      minhash ← query_teams msgtype col querysig f'
      xs ←
          if sends msgtype
          then send_teams (query_value msgtype f'.dtd querysig qid) minhash n
          else some []
      some (f', xs)

    -- The loop of `lshquery` over the queries and their identifiers; a `queryid` of -1 is none.
    unfoldable pub lshquery_loop :
        InsertType → Option ℕ → ℕ → List (Sig × ℕ) → Found → ℕ → Option (List Insert)
    lshquery_loop msgtype queryid col [] f n = some []
    lshquery_loop msgtype none col ((querysig, qid) ∷ m) f n = do
      (f', xs) ← send_query msgtype col querysig qid f n
      ys ← lshquery_loop msgtype none col m f' (n + length xs)
      some (xs ++ ys)
    lshquery_loop msgtype (some q) col ((querysig, qid) ∷ m) f n =
        let rest = lshquery_loop msgtype (some q) col m f n in
        if q == qid
        then Option.map (λ (f', xs). xs) (send_query msgtype col querysig qid f n)
        else rest

    -- `lshquery`, with `totaltxmsglen`
    unfoldable pub lshquery :
        List (Sig × ℕ) → Option ℕ → InsertType → ℕ → ℕ → ℕ → Option (List Insert × ℕ)
    lshquery query_map queryid msgtype col n total = do
      xs ← lshquery_loop msgtype queryid col query_map (record { dtd = []; regularsig = [] }) n
      some (xs, tx_len total xs)

  module _ (d : Doubles) (r : DoubleBytes d) where
    unfoldable pub init_value : InsertType → Sig → d.Double → d.Double → Bytes → Bytes → Bytes
    init_value msgtype sig freq weight key teamid =
        make_init d r msgtype
          (record { key = key; teamid = teamid; sig = sig; freq = freq; weight = weight })

    -- The loop of `lshsig` over the list.
    unfoldable pub lshsig_loop : InsertType → ℕ → Freqs d → ℕ → Option (List Insert)
    lshsig_loop msgtype col [] n = some []
    lshsig_loop msgtype col ((sig, (freq, weight)) ∷ m) n = do
      let make = init_value msgtype sig freq weight
      minhash ← team_ids col sig
      xs ← if sends msgtype then send_teams make minhash n else some []
      ys ← lshsig_loop msgtype col m (n + length xs)
      some (xs ++ ys)

    -- `lshsig`, with `totaltxmsglen`
    unfoldable pub lshsig : Vecomap d → InsertType → ℕ → ℕ → ℕ → ℕ → Option (List Insert × ℕ)
    lshsig teamvecomap msgtype listnum col n total = do
      m ← get_elem? teamvecomap listnum
      xs ← lshsig_loop msgtype col m n
      some (xs, tx_len total xs)
