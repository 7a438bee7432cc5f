-- ===== src/Send/Examples.antt =====
-- The tests of the module, with the length of a text in place of its SHA-1 hash.
use xgossip.Prelude.{ℕ, ◌≡◌, refl, true, false, List, [], ◌∷◌, Option, some, none, length, arith}
use xgossip.Numbers.{num, eights, eight_bytes}
use xgossip.Sig.{Sig}
use xgossip.Scale.{Freqs}
use xgossip.Text.{Text}
use xgossip.Wire.{Bytes, initgossip, queryx, type_code}
use xgossip.Wire.Laws.{IsWord}
use xgossip.Send.{
  Settings, Insert, sends, is_query, is_proxy, lshsig, lshquery, tx_len, last_of, random_num_gen_z,
}
use xgossip.Send.Hashing.{IsReady, CanSend}
use xgossip.Send.Signatures.{Covers, lshsig-Covers}
use xgossip.Send.Queries.{CanAsk, Asks, selected, lshquery-Asks}

abbrev text_length : Text → ℕ
text_length t = length t

abbrev id_text : ℕ → Text
id_text id = b'f' ∷ []

abbrev rand_r : ℕ → ℕ
rand_r n = 0x4000_0000

abbrev settings : Settings
settings = record {
  uflag = false;
  qflag = false;
  gflag = true;
  irrnums = [];
  lfuncs = 2;
  mgroups = 2;
  lshseed = 1000;
  hasha = 3 ∷ 7 ∷ 1 ∷ 90 ∷ [];
  hashb = 5 ∷ 1 ∷ 0 ∷ 12 ∷ [];
  teamsize = 3;
}

settings-IsReady : IsReady settings
settings-IsReady = record {
  multisets = refl;
  seed = omega arith;
  enough_a = omega arith;
  enough_b = omega arith;
  members = omega arith;
}

abbrev sig : Sig
sig = 4 ∷ 9 ∷ []

sig-CanSend : CanSend sig
unfolding CanSend
sig-CanSend = ((λ e. cc), (omega arith, (omega arith, tt)), omega arith)

abbrev list : Freqs eights
list = (sig, (num 4, num 1)) ∷ []

lists_sent : sends text_length id_text rand_r settings initgossip ≡ true
unfolding sends type_code
lists_sent = refl

lshsig-Covers_example :
    (xs : List Insert) × (lshsig text_length id_text rand_r settings eights eight_bytes
        (list ∷ [])
        initgossip
        0
        0
        7
        100
      ≡ some (xs, tx_len 100 xs))
    × Covers text_length id_text rand_r settings eights eight_bytes initgossip list xs
lshsig-Covers_example =
    lshsig-Covers text_length id_text rand_r settings eights eight_bytes settings-IsReady
      (λ n. omega arith) (λ id. omega arith) (list ∷ []) initgossip 0 7 100 list lists_sent refl
      (sig-CanSend, tt)

-- The middle member of three.
member_chosen : random_num_gen_z 3 0x4000_0000 ≡ 1
unfolding random_num_gen_z
member_chosen = refl

abbrev dtds : ℕ → Option (List Bytes)
dtds qid = some ((b'd' ∷ []) ∷ (b'e' ∷ []) ∷ [])

abbrev proxies : Bytes → Option (List Sig)
proxies dtd = none

queries_sent : sends text_length id_text rand_r settings queryx ≡ true
unfolding sends type_code
queries_sent = refl

queryx-query : is_query queryx ≡ true
unfolding is_query
queryx-query = refl

queryx_no_proxy : is_proxy queryx ≡ false
unfolding is_proxy
queryx_no_proxy = refl

query-CanAsk :
    (qid : ℕ) → IsWord qid → CanAsk text_length id_text rand_r settings dtds proxies sig qid
unfolding last_of
query-CanAsk qid w = record {
  can_send = sig-CanSend;
  word = w;
  dtds = (b'd' ∷ []) ∷ (b'e' ∷ []) ∷ [];
  dtd = b'e' ∷ [];
  known = refl;
  last = refl;
  fits = omega arith;
}

abbrev queries : List (Sig × ℕ)
queries = (sig, 2) ∷ (sig, 7) ∷ []

lshquery-Asks_example :
    (xs : List Insert) × (lshquery text_length id_text rand_r settings dtds proxies queries
        (some 7)
        queryx
        0
        7
        100
      ≡ some (xs, tx_len 100 xs))
    × Asks text_length id_text rand_r settings dtds proxies (selected (some 7) queries) xs
lshquery-Asks_example =
    lshquery-Asks text_length id_text rand_r settings dtds proxies settings-IsReady
      (λ n. omega arith) (λ id. omega arith) queryx queryx-query queryx_no_proxy queries_sent
      (some 7) queries 7 100 (query-CanAsk 2 (omega arith), (query-CanAsk 7 (omega arith), tt))
