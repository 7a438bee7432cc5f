-- ===== src/Poly.antt =====
-- Polynomials over GF(2) in chord-0.1-vasil/utils/utils.C: a vector of POLYs has the word of the
-- highest degree first, and each word is 32 coefficients. `getUniqueSet` of the class lsh.
pub mod Xor
pub mod Multiply
pub mod Product
mod Examples
use Prim.Native.Nat.{bit_xor}
use xgossip.Prelude.{
  ℕ, zero, suc, ◌+◌, ◌*◌, ◌/◌, ◌%◌, ◌^◌, List, [], ◌∷◌, ◌++◌, ◌==◌, if◌then◌else◌, Option, none,
  some, length, get_elem?,
}
use xgossip.Sig.{Sig}

-- The loop on the bits of the multiplier x: the 64-bit product, and y, which is shifted each time.
unfoldable pub word_loop : ℕ → ℕ → ℕ → ℕ → ℕ
word_loop zero x y product = product
word_loop (suc fuel) x y product =
    let rest =
      word_loop fuel (x / 2) (y * 2 % 2 ^ 64) (if x % 2 == 1 then bit_xor product y else product) in
    if x == 0 then product else rest

-- The words from the last to the first, with the product that is carried on; 32 bits of fuel.
unfoldable pub mult_words : ℕ → Sig → ℕ × Sig
mult_words multiplier [] = (0, [])
mult_words multiplier (w ∷ ws) =
    let (carry, rest) = mult_words multiplier ws in
    let product = word_loop 32 multiplier w carry in (product / 2 ^ 32, product % 2 ^ 32 ∷ rest)

-- `multiplyPoly(multiplicand, multiplier)` and, with a result of the length of the multiplicand,
-- `multiplyPoly(res, multiplicand, multiplier)`.
unfoldable pub mult_poly : Sig → ℕ → Sig
mult_poly multiplicand multiplier =
    let (carry, ws) = mult_words multiplier multiplicand in
    if carry == 0 then ws else carry % 2 ^ 32 ∷ ws

unfoldable pub backwards : Sig → Sig
backwards [] = []
backwards (w ∷ ws) = backwards ws ++ w ∷ []

-- The loops of `addPoly`, from the last words on.
unfoldable pub add_low : Sig → Sig → Sig
add_low [] ys = ys
add_low (x ∷ xs) [] = x ∷ xs
add_low (x ∷ xs) (y ∷ ys) = bit_xor x y ∷ add_low xs ys

-- `addPoly`
unfoldable pub add_poly : Sig → Sig → Sig
add_poly x y = backwards (add_low (backwards x) (backwards y))

-- `multiplyPoly(res, f, g)` from a word of g on; `shiftLeft` by 32 bits adds a word 0.
unfoldable pub mult_polys : Sig → Sig → Sig → Sig
mult_polys res f [] = res
mult_polys res f (g ∷ []) = add_poly res (mult_poly f g)
mult_polys res f (g ∷ h ∷ gs) = mult_polys (add_poly res (mult_poly f g) ++ 0 ∷ []) f (h ∷ gs)
