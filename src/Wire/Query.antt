-- ===== src/Wire/Query.antt =====
-- The message of a query, QUERYX and QUERYXP, with
-- <msgtype><msglen><keysize><key><teamidsize><teamid><dtdsize><dtd><sigsize><sig><qid>.
use mathlib.Core.List.{append-nil}
use mathlib.Core.Path.{subst}
use xgossip.Prelude.{ℕ, ◌+◌, ◌*◌, ◌<◌, ◌≡◌, [], ◌++◌, some, All, length, arith, length-append}
use xgossip.Sig.{Sig}
use xgossip.Wire.{Bytes, put_int, put_str, put_sig, InsertType, type_code}
use xgossip.Wire.Read.{
  Reader, ◌>>=◌, return, get_int, get_str, get_sig, get_message, Decoded, decoded,
}
use xgossip.Wire.Laws.{
  IsWord, get_int-put_int, get_str-put_str, get_sig-put_sig, length-put_int, length-put_str,
  length-put_sig, get_message-put,
}

pub record QueryMsg : Type 0 where
  pub key : Bytes
  pub teamid : Bytes
  pub dtd : Bytes
  pub sig : Sig
  pub qid : ℕ

unfoldable pub put_query_body : QueryMsg → Bytes
put_query_body m =
    put_str m.key ++ (put_str m.teamid ++ (put_str m.dtd ++ (put_sig m.sig ++ put_int m.qid)))

unfoldable pub query_len : QueryMsg → ℕ
query_len m =
    4 + 4 + 4 + length m.key + 4 + length m.teamid + 4 + length m.dtd + 4 + 4 * length m.sig + 4

-- `makeKeyValue` for a query
unfoldable pub make_query : InsertType → QueryMsg → Bytes
make_query t m = put_int (type_code t) ++ (put_int (query_len m) ++ put_query_body m)

unfoldable pub get_query_body : Reader QueryMsg
get_query_body = do
  key ← get_str
  teamid ← get_str
  dtd ← get_str
  sig ← get_sig
  qid ← get_int
  return (record { key = key; teamid = teamid; dtd = dtd; sig = sig; qid = qid })

-- `getKeyValue` for a query
pub get_query : Bytes → ℕ → Decoded QueryMsg
get_query = get_message get_query_body

length-make_query : (t : InsertType) (m : QueryMsg) → length (make_query t m) ≡ query_len m
unfolding make_query put_query_body query_len
length-make_query t m =
    simp (length-append, length-put_int, length-put_str, length-put_sig) (omega arith)

get_query_body-put :
    (m : QueryMsg)
    → query_len m < 0x80000000
    → All IsWord m.sig
    → IsWord m.qid
    → get_query_body (put_query_body m) ≡ some (m, [])
unfolding get_query_body put_query_body query_len
get_query_body-put m l w q =
    let last =
      subst (λ b. get_int b ≡ some (m.qid, [])) (append-nil (put_int m.qid))
        (get_int-put_int m.qid [] q) in
    let tail = put_sig m.sig ++ put_int m.qid in
    rw (get_str-put_str m.key (put_str m.teamid ++ (put_str m.dtd ++ tail)) (omega arith), ◌>>=◌)
      (rw (get_str-put_str m.teamid (put_str m.dtd ++ tail) (omega arith), ◌>>=◌)
        (rw (get_str-put_str m.dtd tail (omega arith), ◌>>=◌)
          (rw (get_sig-put_sig m.sig (put_int m.qid) w (omega arith), ◌>>=◌) (rw (last, ◌>>=◌)))))

-- A query message of less than 2 ^ 31 bytes, with 32-bit values, fills the buffer that was allocated
-- for it, and `getKeyValue` told that number of bytes reads it back.
pub get_query-make_query :
    (t : InsertType) (m : QueryMsg)
    → query_len m < 0x80000000
    → All IsWord m.sig
    → IsWord m.qid
    → (length (make_query t m) ≡ query_len m)
      × (get_query (make_query t m) (length (make_query t m)) ≡ decoded m)
unfolding get_query make_query
get_query-make_query t m l w q = (
  length-make_query t m,
  rw (length-make_query t m) (
      get_message-put get_query_body t (query_len m) (put_query_body m) m (omega arith)
        (get_query_body-put m l w q)),
)
