-- ===== src/Wire/Compressed.antt =====
-- The gossip messages with compressed signatures of chord-0.1-vasil/utils/utils.C: makeKeyValue and
-- getKeyValue.
use mathlib.Core.List.{append_assoc, append-nil}
use mathlib.Core.Option
use mathlib.Core.Path.{subst}
use native.Mathlib.Nat.{suc-mul}
use xgossip.Prelude.{
  ℕ, zero, suc, ◌+◌, ◌*◌, ◌/◌, ◌≤◌, ◌<◌, ◌≡◌, refl, List, [], ◌∷◌, ◌++◌, none, some, All, arith,
  length, length-append,
}
use xgossip.Doubles.{Doubles}
use xgossip.Scale.{Pair}
use xgossip.Wire.{Bytes, put_int, put_str, DoubleBytes, InsertType, type_code}
use xgossip.Wire.Read.{
  Reader, ◌>>=◌, return, get_int, get_bytes, get_str, get_double, rounds, get_message, Decoded,
  decoded,
}
use xgossip.Wire.Laws.{
  IsWord, get_int-put_int, get_bytes-append, get_str-put_str, get_double-put_double, length-put_int,
  length-put_str, rounds_small, get_message-put,
}

-- A polynomial of `compressedList` with its bitmap of `outBitmap`.
abbrev pub Row : Type 0
Row = ℕ × Bytes

unfoldable pub put_rows : List Row → Bytes
put_rows [] = []
put_rows ((x, bm) ∷ rows) = put_int x ++ (bm ++ put_rows rows)

-- `ceil(numSigs/8.0)`
abbrev pub row_bytes : ℕ → ℕ
row_bytes n = (n + 7) / 8

-- One row, and as many as the count says; a bitmap has k bytes.
pub get_row : ℕ → Reader Row
get_row k = do x ← get_int; bm ← get_bytes k; return (x, bm)

pub get_rows : ℕ → ℕ → Reader (List Row)
unfolding get_row
get_rows k zero b = some ([], b)
get_rows k (suc n) b = elim (get_row k b) [
  | none ↦ none
  | some (row, b') ↦ Option.map (λ (rows, rest). (row ∷ rows, rest)) (get_rows k n b')
]

-- The polynomials are 32-bit patterns and every bitmap has k bytes.
abbrev pub AreRows : ℕ → List Row → Type 0
AreRows k = All (λ (row : Row). IsWord row.0 × (length row.1 ≡ k))

get_row-put_row :
    (k x : ℕ) (bm rest : Bytes)
    → IsWord x
    → length bm ≡ k
    → get_row k (put_int x ++ (bm ++ rest)) ≡ some ((x, bm), rest)
unfolding get_row
get_row-put_row k x bm rest w e =
    rw (get_int-put_int x (bm ++ rest) w, ◌>>=◌)
      (rw (
        subst (λ n. get_bytes n (bm ++ rest) ≡ some (bm, rest)) e (get_bytes-append bm rest),
        ◌>>=◌,
      ))

get_rows-put_rows :
    (k : ℕ) (rows : List Row) (rest : Bytes)
    → AreRows k rows
    → get_rows k (length rows) (put_rows rows ++ rest) ≡ some (rows, rest)
unfolding get_rows put_rows
get_rows-put_rows k [] rest a = refl
get_rows-put_rows k ((x, bm) ∷ rows) rest a = simp append_assoc (
    rw (get_row-put_row k x bm (put_rows rows ++ rest) a.0.0 a.0.1, get_rows)
      (rw (get_rows-put_rows k rows rest a.1)))

length-put_rows :
    (k : ℕ) (rows : List Row) → AreRows k rows → length (put_rows rows) ≡ length rows * (4 + k)
unfolding put_rows
length-put_rows k [] a = omega arith
length-put_rows k ((x, bm) ∷ rows) a = omega (
  arith,
  a.0.1,
  length-append {0} (put_int x) (bm ++ put_rows rows),
  length-append {0} bm (put_rows rows),
  length-put_int x,
  length-put_rows k rows a.1,
  suc-mul (length rows) (4 + k),
)

module _ (d : Doubles) (r : DoubleBytes d) where
  -- The frequencies and weights, one pair after the other.
  unfoldable pub put_pairs : List (Pair d) → Bytes
  put_pairs [] = []
  put_pairs (p ∷ ps) = r.put_double p.0 ++ (r.put_double p.1 ++ put_pairs ps)

  pub get_pair : Reader (Pair d)
  get_pair = do f ← get_double r; w ← get_double r; return (f, w)

  pub get_pairs : ℕ → Reader (List (Pair d))
  unfolding get_pair
  get_pairs zero b = some ([], b)
  get_pairs (suc n) b = elim (get_pair b) [
    | none ↦ none
    | some (p, b') ↦ Option.map (λ (ps, rest). (p ∷ ps, rest)) (get_pairs n b')
  ]

  -- The arguments of `makeKeyValue`, which are the outputs of `getKeyValue`.
  pub record CompressedMsg : Type 0 where
    pub key : Bytes
    pub teamid : Bytes
    pub seq : ℕ
    pub rows : List Row
    pub numbers : List (Pair d)

  unfoldable pub compressed_len : CompressedMsg → ℕ
  compressed_len m =
      4
      + 4
      + 4
      + length m.key
      + 4
      + length m.teamid
      + 4
      + (4 + 4 + length m.rows * (4 + row_bytes (length m.numbers)))
      + 2 * length m.numbers * 8

  unfoldable pub put_compressed_body : CompressedMsg → Bytes
  put_compressed_body m =
      put_str m.key
      ++ (put_str m.teamid
          ++ (put_int m.seq
              ++ (put_int (length m.numbers)
                  ++ (put_int (length m.rows) ++ (put_rows m.rows ++ put_pairs m.numbers)))))

  unfoldable pub make_compressed : InsertType → CompressedMsg → Bytes
  make_compressed t m =
      put_int (type_code t) ++ (put_int (compressed_len m) ++ put_compressed_body m)

  unfoldable pub get_compressed_body : Reader CompressedMsg
  get_compressed_body = do
    key ← get_str
    teamid ← get_str
    seq ← get_int
    num_sigs ← get_int
    n ← get_int
    rows ← get_rows (row_bytes (rounds num_sigs)) (rounds n)
    numbers ← get_pairs (rounds num_sigs)
    return (record { key = key; teamid = teamid; seq = seq; rows = rows; numbers = numbers })

  pub get_compressed : Bytes → ℕ → Decoded CompressedMsg
  get_compressed = get_message get_compressed_body

  get_pairs-put_pairs :
      (ps : List (Pair d)) (rest : Bytes)
      → get_pairs (length ps) (put_pairs ps ++ rest) ≡ some (ps, rest)
  unfolding get_pairs get_pair put_pairs
  get_pairs-put_pairs [] rest = refl
  get_pairs-put_pairs (p ∷ ps) rest = simp append_assoc (
      rw
        (get_double-put_double r p.0 (r.put_double p.1 ++ (put_pairs ps ++ rest)), ◌>>=◌, get_pairs)
        (rw (get_double-put_double r p.1 (put_pairs ps ++ rest), ◌>>=◌, get_pairs)
          (rw (get_pairs-put_pairs ps rest))))

  length-put_pairs : (ps : List (Pair d)) → length (put_pairs ps) ≡ 2 * length ps * 8
  unfolding put_pairs
  length-put_pairs [] = refl
  length-put_pairs (p ∷ ps) =
      simp (length-append, r.length-put_double, length-put_pairs ps) (omega arith)

  -- A message as `compressSignatures` and a 32-bit buffer leave it.
  abbrev pub Fits : CompressedMsg → Type 0
  Fits m =
      (compressed_len m < 0x80000000) × IsWord m.seq × AreRows (row_bytes (length m.numbers)) m.rows

  length-le_mul : (n k : ℕ) → n ≤ n * (4 + k)
  length-le_mul zero k = omega arith
  length-le_mul (suc n) k = omega (arith, length-le_mul n k, suc-mul n (4 + k))

  length-make_compressed :
      (t : InsertType) (m : CompressedMsg)
      → AreRows (row_bytes (length m.numbers)) m.rows
      → length (make_compressed t m) ≡ compressed_len m
  unfolding make_compressed put_compressed_body compressed_len
  length-make_compressed t m a =
      simp
        (
          length-append,
          length-put_int,
          length-put_str,
          length-put_pairs,
          length-put_rows (row_bytes (length m.numbers)) m.rows a,
        )
        (omega arith)

  get_compressed_body-put :
      (m : CompressedMsg) → Fits m → get_compressed_body (put_compressed_body m) ≡ some (m, [])
  unfolding get_compressed_body put_compressed_body compressed_len
  get_compressed_body-put m h =
      let last =
        subst (λ b. get_pairs (length m.numbers) b ≡ some (m.numbers, []))
          (append-nil (put_pairs m.numbers)) (get_pairs-put_pairs m.numbers []) in
      let small = length-le_mul (length m.rows) (row_bytes (length m.numbers)) in
      let t3 = put_rows m.rows ++ put_pairs m.numbers in
      let t2 = put_int (length m.rows) ++ t3 in
      let t1 = put_int m.seq ++ (put_int (length m.numbers) ++ t2) in
      rw (get_str-put_str m.key (put_str m.teamid ++ t1) (omega arith), ◌>>=◌)
        (rw (get_str-put_str m.teamid t1 (omega arith), ◌>>=◌)
          (rw (get_int-put_int m.seq (put_int (length m.numbers) ++ t2) h.1, ◌>>=◌)
            (rw (get_int-put_int (length m.numbers) t2 (omega arith), ◌>>=◌)
              (rw (get_int-put_int (length m.rows) t3 (omega arith), ◌>>=◌)
                (rw (rounds_small (length m.numbers) (omega arith), ◌>>=◌)
                  (rw (rounds_small (length m.rows) (omega arith), ◌>>=◌)
                    (rw
                      (
                        get_rows-put_rows (row_bytes (length m.numbers)) m.rows
                            (put_pairs m.numbers) h.2,
                        ◌>>=◌,
                      )
                      (rw (rounds_small (length m.numbers) (omega arith), ◌>>=◌)
                        (rw (last, ◌>>=◌))))))))))

-- A compressed gossip message of less than 2 ^ 31 bytes, with 32-bit values, and with bitmaps of one
-- bit for each frequency, rounded up to bytes, fills the buffer that was allocated for it, and
-- `getKeyValue` told that number of bytes reads it back.
pub get_compressed-make_compressed :
    (d : Doubles) (r : DoubleBytes d) (t : InsertType) (m : CompressedMsg d r)
    → Fits d r m
    → (length (make_compressed d r t m) ≡ compressed_len d r m)
      × (get_compressed d r (make_compressed d r t m) (length (make_compressed d r t m))
          ≡ decoded m)
unfolding get_compressed make_compressed
get_compressed-make_compressed d r t m h = (
  length-make_compressed d r t m h.2,
  rw (length-make_compressed d r t m h.2) (
      get_message-put (get_compressed_body d r) t (compressed_len d r m) (put_compressed_body d r m)
        m (omega (arith, h.0)) (get_compressed_body-put d r m h)),
)
