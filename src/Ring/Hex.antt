-- ===== src/Ring/Hex.antt =====
-- An identifier read from its hexadecimal digits, chord-0.1-vasil/utils/id_utils.C: str2chordID.
use native.Mathlib.Nat.{mul_assoc, pow-succ', pow-le-pow_right}
use mathlib.Core.Path.{subst}
use xgossip.Prelude.{
  ℕ, ◌+◌, ◌-◌, ◌*◌, ◌^◌, ◌<◌, ◌≤◌, ◌/◌, ◌≡◌, refl, sym, ap, ◌∙◌, List, [], ◌∷◌, Option, none, some,
  Bool, true, false, ◌&&◌, ltb, leb, if◌then◌else◌, length, length-map, map, All, arith,
}
use xgossip.Ring.{nbit, ring_size}

-- The value of a character, `none` for one that is no hexadecimal digit.
unfoldable pub hex_value : ℕ → Option ℕ
hex_value c =
    if leb 48 c && leb c 57
    then some (c - 48)
    else if leb 97 c && leb c 102
    then some (c - 97 + 10)
    else if leb 65 c && leb c 70
    then some (c - 65 + 10)
    else none

-- The loop; `newID <<= 4` clears the bits that `newID |= x` sets.
unfoldable pub read_hex : List ℕ → ℕ → Bool × ℕ
read_hex [] new_id = (true, new_id)
read_hex (c ∷ cs) new_id = elim (hex_value c) [
  | none ↦ (false, 16 * new_id)
  | some x ↦ read_hex cs (16 * new_id + x)
]

-- `str2chordID`, with what `newID` was before: the result and what it is after.
unfoldable pub str2chord_id : List ℕ → ℕ → Bool × ℕ
str2chord_id c new_id = if ltb (nbit / 4) (length c) then (false, new_id) else read_hex c 0

-- A digit as `bigint` prints it, and the number that digits stand for.
abbrev pub digit : ℕ → ℕ
digit x = if ltb x 10 then 48 + x else 87 + x

abbrev pub number : List ℕ → ℕ → ℕ
number [] n = n
number (x ∷ xs) n = number xs (16 * n + x)

hex_value-digit : (x : ℕ) → x < 16 → hex_value (digit x) ≡ some x
unfolding hex_value
hex_value-digit x h = ground arith

read_hex-digits :
    (xs : List ℕ) (n : ℕ) → All (λ x. x < 16) xs → read_hex (map digit xs) n ≡ (true, number xs n)
unfolding read_hex
read_hex-digits [] n a = refl
read_hex-digits (x ∷ xs) n a =
    rw (hex_value-digit x a.0, read_hex) (read_hex-digits xs (16 * n + x) a.1)

number_below :
    (xs : List ℕ) (n b : ℕ) → All (λ x. x < 16) xs → n < b → number xs n < b * 16 ^ length xs
number_below [] n b a h = omega arith
number_below (x ∷ xs) n b a h =
    subst (λ z. number xs (16 * n + x) < z)
      (mul_assoc b 16 (16 ^ length xs) ∙ ap (λ z. b * z) (sym (pow-succ' 16 (length xs))))
      (number_below xs (16 * n + x) (b * 16) a.1 (omega (arith, a.0)))

number_forty : (xs : List ℕ) (k : ℕ) → All (λ x. x < 16) xs → length xs ≤ k → number xs 0 < 16 ^ k
number_forty xs k a l =
    omega (arith, number_below xs 0 1 a (omega arith), pow-le-pow_right {n = 16} (omega arith) l)

-- `str2chordID` on the digits of a number, most significant first and up to 40 of them, returns true
-- and leaves the number, which is an identifier of the ring.
pub str2chord_id-digits :
    (xs : List ℕ) (new_id : ℕ)
    → All (λ x. x < 16) xs
    → length xs ≤ 40
    → (str2chord_id (map digit xs) new_id ≡ (true, number xs 0)) × (number xs 0 < ring_size)
unfolding str2chord_id ring_size
str2chord_id-digits xs new_id a l =
    let small : ltb 40 (length (map digit xs)) ≡ false = rw (length-map digit xs) (ground arith) in
    (rw small (read_hex-digits xs 0 a), number_forty xs 40 a l)
