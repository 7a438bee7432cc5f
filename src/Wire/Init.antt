-- ===== src/Wire/Init.antt =====
-- The message of one signature, with
-- <msgtype><msglen><keysize><key><teamidsize><teamid><sigsize><sig><freq><weight>: INITGOSSIP,
-- INFORMTEAM and QUERYS.
use mathlib.Core.List.{append-nil}
use mathlib.Core.Path.{subst}
use xgossip.Prelude.{ℕ, ◌+◌, ◌*◌, ◌<◌, ◌≡◌, [], ◌++◌, some, All, length, arith, length-append}
use xgossip.Doubles.{Doubles}
use xgossip.Sig.{Sig}
use xgossip.Wire.{Bytes, put_int, put_str, put_sig, DoubleBytes, InsertType, type_code}
use xgossip.Wire.Read.{
  Reader, ◌>>=◌, return, get_str, get_sig, get_double, get_message, Decoded, decoded,
}
use xgossip.Wire.Laws.{
  IsWord, get_str-put_str, get_sig-put_sig, get_double-put_double, length-put_int, length-put_str,
  length-put_sig, get_message-put,
}

module _ (d : Doubles) (r : DoubleBytes d) where
  pub record InitMsg : Type 0 where
    pub key : Bytes
    pub teamid : Bytes
    pub sig : Sig
    pub freq : d.Double
    pub weight : d.Double

  unfoldable pub put_init_body : InitMsg → Bytes
  put_init_body m =
      put_str m.key
      ++ (put_str m.teamid ++ (put_sig m.sig ++ (r.put_double m.freq ++ r.put_double m.weight)))

  unfoldable pub init_len : InitMsg → ℕ
  init_len m = 4 + 4 + 4 + length m.key + 4 + length m.teamid + 4 + 4 * length m.sig + 8 + 8

  -- `makeKeyValue` for one signature
  unfoldable pub make_init : InsertType → InitMsg → Bytes
  make_init t m = put_int (type_code t) ++ (put_int (init_len m) ++ put_init_body m)

  unfoldable pub get_init_body : Reader InitMsg
  get_init_body = do
    key ← get_str
    teamid ← get_str
    sig ← get_sig
    freq ← get_double r
    weight ← get_double r
    return (record { key = key; teamid = teamid; sig = sig; freq = freq; weight = weight })

  -- `getKeyValue` for one signature
  pub get_init : Bytes → ℕ → Decoded InitMsg
  get_init = get_message get_init_body

  length-make_init : (t : InsertType) (m : InitMsg) → length (make_init t m) ≡ init_len m
  unfolding make_init put_init_body init_len
  length-make_init t m =
      simp (length-append, length-put_int, length-put_str, length-put_sig, r.length-put_double)
        (omega arith)

  get_init_body-put :
      (m : InitMsg)
      → init_len m < 0x80000000
      → All IsWord m.sig
      → get_init_body (put_init_body m) ≡ some (m, [])
  unfolding get_init_body put_init_body init_len
  get_init_body-put m l w =
      let last =
        subst (λ b. get_double r b ≡ some (m.weight, [])) (append-nil (r.put_double m.weight))
          (get_double-put_double r m.weight []) in
      let numbers = r.put_double m.freq ++ r.put_double m.weight in
      rw
        (
          get_str-put_str m.key (put_str m.teamid ++ (put_sig m.sig ++ numbers)) (omega arith),
          ◌>>=◌,
        )
        (rw (get_str-put_str m.teamid (put_sig m.sig ++ numbers) (omega arith), ◌>>=◌)
          (rw (get_sig-put_sig m.sig numbers w (omega arith), ◌>>=◌)
            (rw (get_double-put_double r m.freq (r.put_double m.weight), ◌>>=◌)
              (rw (last, ◌>>=◌)))))

-- A message of one signature, of less than 2 ^ 31 bytes and with 32-bit values, fills the buffer
-- that was allocated for it, and `getKeyValue` told that number of bytes reads it back.
pub get_init-make_init :
    (d : Doubles) (r : DoubleBytes d) (t : InsertType) (m : InitMsg d r)
    → init_len d r m < 0x80000000
    → All IsWord m.sig
    → (length (make_init d r t m) ≡ init_len d r m)
      × (get_init d r (make_init d r t m) (length (make_init d r t m)) ≡ decoded m)
unfolding get_init make_init
get_init-make_init d r t m l w = (
  length-make_init d r t m,
  rw (length-make_init d r t m) (
      get_message-put (get_init_body d r) t (init_len d r m) (put_init_body d r m) m (omega arith)
        (get_init_body-put d r m l w)),
)
