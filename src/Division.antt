-- ===== src/Division.antt =====
-- Division of polynomials over GF(2) in chord-0.1-vasil/utils/utils.C: `getDegree`, `shiftLeft`,
-- `shiftRight`, `remainder`, `quotient`, `gcd`, `gcdSpecial` and `lcm` on vectors of 32-bit words. A
-- degree is one more than the code's, so that the -1 of the polynomial 0 is 0.
pub mod Digits
pub mod Long
pub mod Shift
pub mod Right
pub mod Frames
pub mod Rounds
pub mod State
pub mod Loop
pub mod Remainder
pub mod Quotient
pub mod Ideal
pub mod Gcd
mod Examples
use mathlib.Core.Option
use Prim.Native.Nat.{bit_and, bit_or, bit_xor}
use xgossip.Prelude.{
  ℕ, zero, suc, ◌+◌, ◌-◌, ◌*◌, ◌/◌, ◌%◌, ◌^◌, List, [], ◌∷◌, ◌++◌, Option, none, some, Bool, ltb,
  leb, ◌==◌, ◌&&◌, ◌||◌, true, false, not, if◌then◌else◌, length,
}
use xgossip.Sig.{Sig}
use xgossip.Poly.{mult_polys}

-- `getDegree` of a word, from the mask 2 ^ i down.
unfoldable pub degree_loop : ℕ → ℕ → ℕ
degree_loop zero z = 0
degree_loop (suc i) z = let rest = degree_loop i z in if bit_and z (2 ^ i) == 0 then rest else suc i

abbrev pub word_degree : ℕ → ℕ
word_degree z = degree_loop 32 z

-- `getDegree` of a polynomial whose first word is w and that has n more.
unfoldable pub degree : ℕ → ℕ → ℕ
degree w n = n * 32 + word_degree w

-- The loop of `shiftLeft` by n bits, 0 < n < 32: what is left over of the first word, and the words.
unfoldable pub left_words : ℕ → Sig → ℕ × Sig
left_words n [] = (0, [])
left_words n (w ∷ ws) =
    let (prevmsb, rest) = left_words n ws in
    (w / 2 ^ (32 - n), bit_or (w * 2 ^ n % 2 ^ 32) prevmsb ∷ rest)

-- `shiftLeft`, for n up to 32.
unfoldable pub shift_left : Sig → ℕ → Sig
shift_left ws n =
    let (prevmsb, shifted) = left_words n ws in
    if n == 0
    then ws
    else if n == 32
    then ws ++ 0 ∷ []
    else if prevmsb == 0
    then shifted
    else prevmsb ∷ shifted

-- The loop of `shiftRight` by n bits with the bits `prevlsb` of the word before, and the word that is
-- added for what is left over.
unfoldable pub right_words : ℕ → ℕ → Sig → Sig
right_words n prevlsb [] = if prevlsb == 0 then [] else prevlsb ∷ []
right_words n prevlsb (w ∷ ws) =
    bit_or (w / 2 ^ n) prevlsb ∷ right_words n (w % 2 ^ n * 2 ^ (32 - n) % 2 ^ 32) ws

-- A first word 0 is erased.
unfoldable pub erase_first : Sig → Sig
erase_first [] = []
erase_first (w ∷ ws) = if w == 0 then ws else w ∷ ws

-- `shiftRight`, for n up to 32.
unfoldable pub shift_right : Sig → ℕ → Sig
shift_right ws n =
    let shifted = right_words n 0 ws in
    if n == 0 then ws else if n == 32 then ws else erase_first shifted

-- `r[i + j] ^= gtemp[j]`, on the words of r from i on.
unfoldable pub xor_words : Sig → Sig → Sig
xor_words [] gs = []
xor_words (w ∷ ws) [] = w ∷ ws
xor_words (w ∷ ws) (g ∷ gs) = bit_xor w g ∷ xor_words ws gs

-- `q[q.size() - 1] |= 1`
unfoldable pub set_last : Sig → Sig
set_last [] = []
set_last (w ∷ []) = bit_or w 1 ∷ []
set_last (w ∷ v ∷ ws) = w ∷ set_last (v ∷ ws)

-- The variables of the loop of `quotient`: the words of r before i and from i on, and the others. The
-- loop of `remainder` is the same without q.
pub record Dividing : Type 0 where
  pub front : Sig
  pub rest : Sig
  pub gtemp : Sig
  pub mask : ℕ
  pub q : Sig

-- `r[i] & bitMask`, and the division step if it is set.
unfoldable pub divide_bit : Dividing → Bool → Dividing
divide_bit s true = record s { rest = xor_words s.rest s.gtemp; q = set_last (shift_left s.q 1) }
divide_bit s false = record s { q = shift_left s.q 1 }

-- `i++`
unfoldable pub next_word : Dividing → Dividing
next_word s = elim s.rest [
  | [] ↦ s
  | w ∷ ws ↦ record s { front = s.front ++ w ∷ []; rest = ws; mask = 2 ^ 31 }
]

unfoldable pub shift_divisor : Dividing → Dividing
shift_divisor s = record s { gtemp = shift_right s.gtemp 1; mask = s.mask / 2 }

unfoldable pub divide_round : ℕ → ℕ → Dividing → Dividing
divide_round k w s =
    let moved = shift_divisor (divide_bit s (not (bit_and w s.mask == 0))) in
    if k % 32 == 0 then next_word moved else moved

-- The rounds that are left, from the bit k on; r is read out of bounds behind its words.
unfoldable pub divide_loop : ℕ → ℕ → Dividing → Option Dividing
divide_loop zero k s = some s
divide_loop (suc n) k s = elim s.rest [
  | [] ↦ none
  | w ∷ ws ↦ divide_loop n (k - 1) (divide_round k w s)
]

-- `gtemp`, whose first bit stands under that of f.
unfoldable pub aligned : ℕ → ℕ → Sig → Sig
aligned fdeg gdeg g =
    if ltb gdeg fdeg then shift_left g (fdeg - gdeg) else shift_right g (gdeg - fdeg)

-- The loop on f and g, as long as the degree of g is not above that of f. For a first word 0 of f the
-- code shifts by -1, and for one of g it goes on with bits that are not aligned: both end with none.
unfoldable pub divide : Sig → Sig → Option Dividing
divide [] g = none
divide (f ∷ fs) [] = none
divide (f ∷ fs) (g ∷ gs) =
    let fdeg = word_degree f in
    let gdeg = word_degree g in
    let ffull = degree f (length fs) in
    let start : Dividing = record {
      front = [];
      rest = f ∷ fs;
      gtemp = aligned fdeg gdeg (g ∷ gs);
      mask = 2 ^ (fdeg - 1);
      q = 0 ∷ [];
    } in
    if (fdeg == 0) || (gdeg == 0)
    then none
    else divide_loop (ffull - degree g (length gs) + 1) (ffull - 1) start

-- The leading words 0 are erased, but for the last word.
unfoldable pub erase_leading : Sig → Sig
erase_leading [] = []
erase_leading (w ∷ []) = w ∷ []
erase_leading (w ∷ v ∷ ws) =
    let rest = erase_leading (v ∷ ws) in if w == 0 then rest else w ∷ v ∷ ws

-- Whether the degree of f is below that of g.
unfoldable pub is_lower : Sig → Sig → Bool
is_lower [] g = false
is_lower (f ∷ fs) [] = false
is_lower (f ∷ fs) (g ∷ gs) = ltb (degree f (length fs)) (degree g (length gs))

-- `remainder(r, f, g)`
unfoldable pub remainder : Sig → Sig → Option Sig
remainder f g =
    if is_lower f g
    then some f
    else Option.map (λ s. erase_leading (s.front ++ s.rest)) (divide f g)

-- `quotient(q, f, g)`
unfoldable pub quotient : Sig → Sig → Option Sig
quotient f g = if is_lower f g then none else Option.map (λ s. s.q) (divide f g)

unfoldable pub is_word : ℕ → Sig → Bool
is_word n [] = false
is_word n (w ∷ []) = w == n
is_word n (w ∷ v ∷ ws) = false

-- `gcd`, which calls itself, on fuel.
unfoldable pub gcd : ℕ → Sig → Sig → Option Sig
gcd zero f g = none
gcd (suc n) f g = elim (is_word 0 g) [
  | true ↦ some f
  | false ↦ elim (remainder f g) [ none ↦ none | some r ↦ gcd n g r ]
]

-- Its calls are at most the bits of the words, and one more.
unfoldable pub gcd_special : Sig → Sig → Option Sig
gcd_special [] g = none
gcd_special (f ∷ fs) [] = none
gcd_special (f ∷ fs) (g ∷ gs) =
    let fuel = 32 * (length fs + length gs) + 66 in
    if is_lower (f ∷ fs) (g ∷ gs) then gcd fuel (g ∷ gs) (f ∷ fs) else gcd fuel (f ∷ fs) (g ∷ gs)

-- `lcm(t, s)`, the new t.
unfoldable pub lcm : Sig → Sig → Option Sig
lcm t s = if is_word 1 t && is_word 1 s then some t else elim (gcd_special t s) [
  | none ↦ none
  | some g ↦ Option.map (mult_polys [] t) (if is_lower s g then quotient g s else quotient s g)
]
