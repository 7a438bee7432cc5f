-- ===== src/Poly/Product.antt =====
-- `addPoly`, and `multiplyPoly` of two vectors.
use Prim.Native.Nat.{bit_xor}
use xgossip.Prelude.{
  ℕ, zero, suc, ◌+◌, ◌*◌, ◌/◌, ◌%◌, ◌^◌, ◌<◌, ◌≡◌, refl, sym, ap, ◌∙◌, [], ◌∷◌, ◌++◌, ◌==◌,
  if◌then◌else◌, length, All, All-append, length-append, arith, Bool-cases, inl, inr,
}
use xgossip.Sig.{Sig}
use xgossip.Poly.{mult_poly, mult_words, backwards, add_low, add_poly, mult_polys}
use xgossip.Poly.Xor.{
  zero-bit_xor, bit_xor-zero, bit_xor_double, bit_xor_assoc, bit_xor_comm, bit_xor_split,
  bit_xor_bound, pow_suc,
}
use xgossip.Poly.Multiply.{
  IsWord, value, gf2_mul, mult_poly-gf2_mul, pow_block, times_pow_suc, bit_xor_times, value_bound,
}

snoc_parts : (v m a w b : ℕ) → b ≡ a * 2 ^ 32 + w → v * (m * 2 ^ 32) + b ≡ (v * m + a) * 2 ^ 32 + w
snoc_parts v m a w b e = grind arith

value-snoc : (ws : Sig) (w : ℕ) → value (ws ++ w ∷ []) ≡ value ws * 2 ^ 32 + w
unfolding value
value-snoc [] w = omega arith
value-snoc (v ∷ ws) w =
    ap (λ n. v * 2 ^ (32 * n) + value (ws ++ w ∷ [])) {x = length (ws ++ w ∷ [])}
      {y = suc (length ws)} (omega (arith, length-append ws (w ∷ [])))
    ∙ ap (λ z. v * z + value (ws ++ w ∷ [])) (pow_block (length ws))
    ∙ snoc_parts v (2 ^ (32 * length ws)) (value ws) w (value (ws ++ w ∷ [])) (value-snoc ws w)

-- The number of words that stand in the order of the loops, the lowest first.
low_value : Sig → ℕ
low_value [] = 0
low_value (w ∷ ws) = low_value ws * 2 ^ 32 + w

value-backwards : (ws : Sig) → value (backwards ws) ≡ low_value ws
unfolding backwards low_value value
value-backwards [] = refl
value-backwards (w ∷ ws) =
    value-snoc (backwards ws) w ∙ ap (λ z. z * 2 ^ 32 + w) (value-backwards ws)

backwards-snoc : (ws : Sig) (w : ℕ) → backwards (ws ++ w ∷ []) ≡ w ∷ backwards ws
unfolding backwards
backwards-snoc [] w = refl
backwards-snoc (v ∷ ws) w = ap (λ z. z ++ v ∷ []) (backwards-snoc ws w)

backwards_twice : (ws : Sig) → backwards (backwards ws) ≡ ws
unfolding backwards
backwards_twice [] = refl
backwards_twice (w ∷ ws) = backwards-snoc (backwards ws) w ∙ ap (λ z. w ∷ z) (backwards_twice ws)

low_value-backwards : (ws : Sig) → low_value (backwards ws) ≡ value ws
low_value-backwards ws = sym (value-backwards (backwards ws)) ∙ ap value (backwards_twice ws)

backwards-All : (ws : Sig) → All IsWord ws → All IsWord (backwards ws)
unfolding backwards
backwards-All [] a = tt
backwards-All (w ∷ ws) a =
    All-append IsWord (backwards ws) (w ∷ []) (backwards-All ws a.1) (a.0, tt)

low_value-add_low :
    (xs ys : Sig)
    → All IsWord xs
    → All IsWord ys
    → low_value (add_low xs ys) ≡ bit_xor (low_value xs) (low_value ys)
unfolding add_low low_value
low_value-add_low [] ys a b = sym (zero-bit_xor (low_value ys))
low_value-add_low (x ∷ xs) [] a b = sym (bit_xor-zero (low_value (x ∷ xs)))
low_value-add_low (x ∷ xs) (y ∷ ys) a b =
    ap (λ z. z * 2 ^ 32 + bit_xor x y) (low_value-add_low xs ys a.1 b.1)
    ∙ sym (bit_xor_split 32 (low_value xs) x (low_value ys) y a.0 b.0)

add_low-All : (xs ys : Sig) → All IsWord xs → All IsWord ys → All IsWord (add_low xs ys)
unfolding add_low
add_low-All [] ys a b = b
add_low-All (x ∷ xs) [] a b = a
add_low-All (x ∷ xs) (y ∷ ys) a b = (bit_xor_bound 32 x y a.0 b.0, add_low-All xs ys a.1 b.1)

add_poly-All : (x y : Sig) → All IsWord x → All IsWord y → All IsWord (add_poly x y)
unfolding add_poly
add_poly-All x y a b =
    backwards-All (add_low (backwards x) (backwards y))
      (add_low-All (backwards x) (backwards y) (backwards-All x a) (backwards-All y b))

pub value-add_poly :
    (x y : Sig) → All IsWord x → All IsWord y → value (add_poly x y) ≡ bit_xor (value x) (value y)
unfolding add_poly
value-add_poly x y a b =
    value-backwards (add_low (backwards x) (backwards y))
    ∙ low_value-add_low (backwards x) (backwards y) (backwards-All x a) (backwards-All y b)
    ∙ ap (λ z. bit_xor z (low_value (backwards y))) (low_value-backwards x)
    ∙ ap (bit_xor (value x)) (low_value-backwards y)

mult_words-All : (m : ℕ) (ws : Sig) → All IsWord (mult_words m ws).1
unfolding mult_words
mult_words-All m [] = tt
mult_words-All m (w ∷ ws) = (omega arith, mult_words-All m ws)

mult_poly-All : (f : Sig) (m : ℕ) → All IsWord (mult_poly f m)
unfolding mult_poly
mult_poly-All f m = elim (Bool-cases ((mult_words m f).0 == 0)) [
  | inl e ↦ rw e (mult_words-All m f)
  | inr e ↦ rw e (omega arith, mult_words-All m f)
]

pub gf2_mul_step :
    (m x y b q : ℕ)
    → x % 2 ≡ b
    → x / 2 ≡ q
    → gf2_mul (suc m) x y ≡ bit_xor (if b == 1 then y else 0) (2 * gf2_mul m q y)
unfolding gf2_mul
gf2_mul_step m x y b q e g =
    ap (λ z. bit_xor (if z == 1 then y else 0) (2 * gf2_mul m (x / 2) y)) e
    ∙ ap (λ z. bit_xor (if b == 1 then y else 0) (2 * gf2_mul m z y)) g

-- Higher and lower digits of the multiplier.
pub gf2_mul_digits :
    (n k h w y : ℕ)
    → w < 2 ^ k
    → gf2_mul (k + n) (h * 2 ^ k + w) y ≡ bit_xor (gf2_mul k w y) (gf2_mul n h y * 2 ^ k)
unfolding gf2_mul
gf2_mul_digits n zero h zero y l =
    ap (λ z. gf2_mul z (h * 1 + 0) y) {x = 0 + n} {y = n} (omega arith)
    ∙ ap (λ z. gf2_mul n z y) {x = h * 1 + 0} {y = h} (omega arith)
    ∙ omega (arith, zero-bit_xor (gf2_mul n h y * 1))
gf2_mul_digits n zero h (suc w) y l = absurd (omega arith)
gf2_mul_digits n (suc k) h w y l =
    let x = h * 2 ^ suc k + w in
    let bit = if w % 2 == 1 then y else 0 in
    let low = gf2_mul k (w / 2) y in
    let high = gf2_mul n h y * 2 ^ k in
    ap (λ z. gf2_mul z x y) {x = suc k + n} {y = suc (k + n)} (omega arith)
    ∙ gf2_mul_step (k + n) x y (w % 2) (h * 2 ^ k + w / 2) (omega (arith, times_pow_suc h k))
        (omega (arith, times_pow_suc h k))
    ∙ ap (λ z. bit_xor bit (2 * z)) (gf2_mul_digits n k h (w / 2) y (omega (arith, pow_suc k)))
    ∙ ap (bit_xor bit) (sym (bit_xor_double low high))
    ∙ sym (bit_xor_assoc bit (2 * low) (2 * high))
    ∙ ap (bit_xor (bit_xor bit (2 * low))) {x = 2 * high} {y = gf2_mul n h y * 2 ^ suc k}
        (omega (arith, times_pow_suc (gf2_mul n h y) k))

up_parts : (b m : ℕ) → (b * 2 ^ 32 + 0) * m ≡ b * (m * 2 ^ 32)
up_parts b m = grind arith

move_up : (a b m s : ℕ) → a ≡ b * 2 ^ 32 + 0 → s ≡ m * 2 ^ 32 → a * m ≡ b * s
move_up a b m s e q = ap (λ z. z * m) e ∙ up_parts b m ∙ ap (λ z. b * z) (sym q)

-- A word g in front of n + 1 words with the number v, on a result r that is moved up by one word.
next_words :
    (k n r g v f moved : ℕ)
    → k ≡ 32 * suc n
    → v < 2 ^ k
    → moved ≡ bit_xor r (gf2_mul 32 g f) * 2 ^ 32 + 0
    → bit_xor (moved * 2 ^ (32 * n)) (gf2_mul (32 * n + 32) v f)
      ≡ bit_xor (r * 2 ^ k) (gf2_mul (k + 32) (g * 2 ^ k + v) f)
next_words k n r g v f moved e l q =
    let product = gf2_mul 32 g f in
    let size : 2 ^ k ≡ 2 ^ (32 * n) * 2 ^ 32 = ap (λ z. 2 ^ z) e ∙ pow_block n in
    ap (λ z. bit_xor (moved * 2 ^ (32 * n)) (gf2_mul z v f)) {x = 32 * n + 32} {y = k}
      (omega (arith, e))
    ∙ ap (λ z. bit_xor z (gf2_mul k v f)) {x = moved * 2 ^ (32 * n)} {y = bit_xor r product * 2 ^ k}
        (move_up moved (bit_xor r product) (2 ^ (32 * n)) (2 ^ k) q size)
    ∙ ap (λ z. bit_xor z (gf2_mul k v f)) (bit_xor_times k r product)
    ∙ bit_xor_assoc (r * 2 ^ k) (product * 2 ^ k) (gf2_mul k v f)
    ∙ ap (bit_xor (r * 2 ^ k))
        (bit_xor_comm (product * 2 ^ k) (gf2_mul k v f) ∙ sym (gf2_mul_digits 32 k g v f l))

-- What the loop adds to the result for the words of g: it moves the result up in front of them.
mult_polys_lem :
    (f res : Sig) (g : ℕ) (gs : Sig)
    → All IsWord f
    → All IsWord res
    → All IsWord (g ∷ gs)
    → value (mult_polys res f (g ∷ gs))
      ≡ bit_xor
          (value res * 2 ^ (32 * length gs))
          (gf2_mul (32 * length gs + 32) (value (g ∷ gs)) (value f))
unfolding mult_polys value
mult_polys_lem f res g [] a b c =
    value-add_poly res (mult_poly f g) b (mult_poly-All f g)
    ∙ ap (bit_xor (value res)) (mult_poly-gf2_mul f g a c.0)
    ∙ ap (λ z. bit_xor z (gf2_mul 32 g (value f))) {x = value res} {y = value res * 1} (omega arith)
    ∙ ap (λ z. bit_xor (value res * 1) (gf2_mul 32 z (value f))) {x = g} {y = g * 1 + 0}
        (omega arith)
mult_polys_lem f res g (h ∷ gs) a b c =
    let sum = add_poly res (mult_poly f g) in
    let k = 32 * suc (length gs) in
    let tail = gf2_mul k (value (h ∷ gs)) (value f) in
    mult_polys_lem f (sum ++ 0 ∷ []) h gs a
      (All-append IsWord sum (0 ∷ []) (add_poly-All res (mult_poly f g) b (mult_poly-All f g))
        (omega arith, tt))
      c.1
    ∙ next_words k (length gs) (value res) g (value (h ∷ gs)) (value f) (value (sum ++ 0 ∷ [])) refl
        (value_bound (h ∷ gs) c.1)
        (value-snoc sum 0
          ∙ ap (λ z. z * 2 ^ 32 + 0)
              (value-add_poly res (mult_poly f g) b (mult_poly-All f g)
                ∙ ap (bit_xor (value res)) (mult_poly-gf2_mul f g a c.0)))

-- `multiplyPoly` of two vectors of 32-bit words, on an empty result, multiplies without carries.
pub mult_polys-gf2_mul :
    (f g : Sig)
    → All IsWord f
    → All IsWord g
    → value (mult_polys [] f g) ≡ gf2_mul (32 * length g) (value g) (value f)
unfolding value mult_polys gf2_mul
mult_polys-gf2_mul f [] a b = refl
mult_polys-gf2_mul f (w ∷ ws) a b =
    mult_polys_lem f [] w ws a tt b
    ∙ ap (λ z. bit_xor z (gf2_mul (32 * length ws + 32) (value (w ∷ ws)) (value f)))
        {x = 0 * 2 ^ (32 * length ws)} {y = 0} (omega arith)
    ∙ zero-bit_xor (gf2_mul (32 * length ws + 32) (value (w ∷ ws)) (value f))
    ∙ ap (λ n. gf2_mul n (value (w ∷ ws)) (value f)) {x = 32 * length ws + 32}
        {y = 32 * suc (length ws)} (omega arith)
