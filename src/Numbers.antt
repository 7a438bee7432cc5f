-- ===== src/Numbers.antt =====
-- A concrete `double` for the instances of the theorems: eight bytes, of which the first is the
-- number that the operations change.
use xgossip.Prelude.{ltb, ℕ, ◌+◌, ◌*◌, ◌/◌, [], ◌∷◌, false, refl, ◌≡◌, length}
use xgossip.Doubles.{Doubles}
use xgossip.Wire.{DoubleBytes, Bytes}

pub data Eight : Type 0 where
  eight : ℕ → ℕ → ℕ → ℕ → ℕ → ℕ → ℕ → ℕ → Eight

abbrev pub num : ℕ → Eight
num n = eight n 0 0 0 0 0 0 0

abbrev pub value : Eight → ℕ
value (eight a b c d e f g h) = a

abbrev pub eights : Doubles
eights = record {
  Double = Eight;
  zero = num 0;
  one = num 1;
  add = λ x y. num (value x + value y);
  div_int = λ x k. num (value x / k);
  mul_int = λ x k. num (value x * k);
  div = λ x y. num (value x / value y);
  ratio = λ m n. num (100 * m / n);
  less = λ x y. ltb (value x) (value y);
  is_nan = λ x. false;
  is_inf = λ x. false;
}

abbrev pub bytes_of : Eight → Bytes
bytes_of (eight a b c d e f g h) = a ∷ b ∷ c ∷ d ∷ e ∷ f ∷ g ∷ h ∷ []

abbrev pub of : Bytes → Eight
of (a ∷ b ∷ c ∷ d ∷ e ∷ f ∷ g ∷ h ∷ []) = eight a b c d e f g h
of _ = num 0

pub length-bytes_of : (x : Eight) → length (bytes_of x) ≡ 8
length-bytes_of (eight a b c d e f g h) = refl

pub of-bytes_of : (x : Eight) → of (bytes_of x) ≡ x
of-bytes_of (eight a b c d e f g h) = refl

abbrev pub eight_bytes : DoubleBytes eights
eight_bytes = record {
  put_double = bytes_of;
  of_bytes = of;
  length-put_double = length-bytes_of;
  of_bytes-put_double = of-bytes_of;
}
