-- ===== src/Compress.antt =====
-- The compression of a list of signatures of chord-0.1-vasil/utils/utils.C: the signatures are
-- merged into one ascending list of values, each with a bitmap that says which signatures hold it.
-- A signature that is being read is the suffix that is left; `index[i]` is what was read before.
pub mod Bits
pub mod Rows
pub mod Roundtrip
mod Examples
use Prim.Native.Nat.{bit_and, bit_or}
use mathlib.Core.Option
use xgossip.Prelude.{
  ℕ, zero, suc, ◌+◌, ◌/◌, ◌%◌, ◌^◌, List, [], ◌∷◌, ◌++◌, Option, none, some, Bool, true, false, not,
  ltb, ◌==◌, if◌then◌else◌, length, get_elem?, set, replicate,
}
use xgossip.Sig.{Sig}

-- `(unsigned char) 0x80 >> (i % 8)`
abbrev pub mask : ℕ → ℕ
mask r = 0x80 / 2 ^ r

-- `bitmap[i / 8] = bitmap[i / 8] | mask`; an index out of range is undefined in the source, and
-- changes nothing here.
unfoldable pub set_bit : List ℕ → ℕ → List ℕ
set_bit bm i = elim (get_elem? bm (i / 8)) [
  | none ↦ bm
  | some b ↦ set bm (i / 8) (bit_or b (mask (i % 8)))
]

-- `bitmap[j / 8] & mask`, where `none` is a read out of range.
pub test_bit : List ℕ → ℕ → Option Bool
test_bit bm j = Option.map (λ b. not (bit_and b (mask (j % 8)) == 0)) (get_elem? bm (j / 8))

-- The test `eov` for the end of all signatures.
unfoldable pub ended : List Sig → Bool
ended [] = true
ended ([] ∷ rs) = ended rs
ended ((x ∷ s) ∷ rs) = false

-- The loop that looks for `minPoly`.
unfoldable pub least : ℕ → List Sig → ℕ
least m [] = m
least m ([] ∷ rs) = least m rs
least m ((x ∷ s) ∷ rs) = least (if ltb x m then x else m) rs

-- The loop that marks the signatures whose next value is `minPoly` and moves past it; `i` counts
-- the signatures.
unfoldable pub advance : ℕ → ℕ → List ℕ → List Sig → List ℕ × List Sig
advance m i bm [] = (bm, [])
advance m i bm ([] ∷ rs) = let (bm', rs') = advance m (suc i) bm rs in (bm', [] ∷ rs')
advance m i bm ((x ∷ s) ∷ rs) =
    let (bm', rs') = advance m (suc i) (if x == m then set_bit bm i else bm) rs in
    (bm', (if x == m then s else x ∷ s) ∷ rs')

abbrev push : ℕ → List ℕ → List ℕ × List (List ℕ) → List ℕ × List (List ℕ)
push m bm (ps, bms) = (m ∷ ps, bm ∷ bms)

-- The `while (1)`, which pushes values and bitmaps, on fuel: `none` is the fuel run out.
unfoldable pub compress_loop : ℕ → List ℕ → List Sig → Option (List ℕ × List (List ℕ))
compress_loop zero zeros rs = none
compress_loop (suc fuel) zeros rs = elim (ended rs) [
  | true ↦ some ([], [])
  | false ↦
      let m = least 0xffffffff rs in
      let (bm, rs') = advance m 0 zeros rs in Option.map (push m bm) (compress_loop fuel zeros rs')
]

-- The number of values, from which the fuel is taken.
unfoldable pub total : List Sig → ℕ
total [] = 0
total (s ∷ rs) = length s + total rs

unfoldable pub has_empty : List Sig → Bool
has_empty [] = false
has_empty ([] ∷ rs) = true
has_empty ((x ∷ s) ∷ rs) = has_empty rs

-- `ceil(numSigs / 8.0)`
abbrev pub bitmap_len : ℕ → ℕ
bitmap_len n = (n + 7) / 8

-- `compressSignatures` with the output lists empty, as its callers pass them. The first part of
-- the result is what it returns.
unfoldable pub compress_signatures : List Sig → Option (Bool × List ℕ × List (List ℕ))
compress_signatures [] = some (false, [], [])
compress_signatures (s ∷ rs) =
    if has_empty (s ∷ rs)
    then some (false, [], [])
    else Option.map (λ (ps, bms). (true, ps, bms))
        (compress_loop (suc (total (s ∷ rs))) (replicate (bitmap_len (length (s ∷ rs))) 0) (s ∷ rs))

-- The inner loop of `uncompressSignatures`: one value goes to the signatures that its bitmap names.
pub extract_row : ℕ → List ℕ → ℕ → List Sig → Option (List Sig)
extract_row p bm j [] = some []
extract_row p bm j (o ∷ os) =
    let rest = extract_row p bm (suc j) os in
    elim (test_bit bm j) [
      | none ↦ none
      | some b ↦ Option.map (◌∷◌ (if b then o ++ p ∷ [] else o)) rest
    ]

pub extract_rows : List ℕ → List (List ℕ) → List Sig → Option (List Sig)
extract_rows [] bms out = some out
extract_rows (p ∷ ps) [] out = none
extract_rows (p ∷ ps) (bm ∷ bms) out = elim (extract_row p bm 0 out) [
  | none ↦ none
  | some out' ↦ extract_rows ps bms out'
]

-- `uncompressSignatures` with an empty list of outputs; `none` is a read out of range.
pub uncompress_signatures : List ℕ → List (List ℕ) → ℕ → Option (Bool × List Sig)
uncompress_signatures ps bms num_sigs =
    Option.map (λ out. (true, out)) (extract_rows ps bms (replicate num_sigs []))
