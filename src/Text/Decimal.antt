-- ===== src/Text/Decimal.antt =====
-- Decimal numbers of chord-0.1-vasil/tools/gpsi.C read back.
use native.Mathlib.Nat.{pow-succ'}
use xgossip.Prelude.{
  ◌||◌, ◌==◌, ℕ, zero, suc, ◌+◌, ◌-◌, ◌*◌, ◌/◌, ◌%◌, ◌^◌, ◌<◌, ◌≤◌, ◌≡◌, ◌≢◌, refl, ◌∙◌, [], ◌∷◌,
  ◌++◌, ltb, leb, ◌&&◌, All, arith, Bool-cases, inl, inr, if◌then◌else◌,
}
use xgossip.Text.{Text, decimal_loop, decimal, read_digits, strtol, long_max, clamp}

abbrev pub IsDigit : ℕ → Type 0
IsDigit c = (48 ≤ c) × (c ≤ 57)

pub All-snoc : (P : ℕ → Type 0) (s : Text) (c : ℕ) → All P s → P c → All P (s ++ c ∷ [])
All-snoc P [] c a p = (p, tt)
All-snoc P (x ∷ s) c a p = (a.0, All-snoc P s c a.1 p)

pub decimal_loop-IsDigit : (fuel n : ℕ) → All IsDigit (decimal_loop fuel n)
unfolding decimal_loop
decimal_loop-IsDigit zero n = tt
decimal_loop-IsDigit (suc fuel) n = elim (Bool-cases (ltb n 10)) [
  | inl h ↦ rw h (ground arith)
  | inr h ↦ rw h (
      All-snoc IsDigit (decimal_loop fuel (n / 10)) (48 + n % 10)
        (decimal_loop-IsDigit fuel (n / 10)) (omega arith))
]

read_digits-snoc :
    (s : Text) (c m : ℕ)
    → All IsDigit s
    → IsDigit c
    → read_digits (s ++ c ∷ []) m ≡ 10 * read_digits s m + (c - 48)
unfolding read_digits
read_digits-snoc [] c m a d = ground arith
read_digits-snoc (x ∷ s) c m a d = ground (arith, read_digits-snoc s c (10 * m + (x - 48)) a.1 d)

read_digits-decimal_loop : (fuel n : ℕ) → n < 10 ^ fuel → read_digits (decimal_loop fuel n) 0 ≡ n
unfolding decimal_loop read_digits
read_digits-decimal_loop zero n h = omega arith
read_digits-decimal_loop (suc fuel) n h = elim (Bool-cases (ltb n 10)) [
  | inl l ↦ rw l (ground arith)
  | inr l ↦ rw l (
      read_digits-snoc (decimal_loop fuel (n / 10)) (48 + n % 10) 0
        (decimal_loop-IsDigit fuel (n / 10)) (omega arith)
      ∙ omega (arith, read_digits-decimal_loop fuel (n / 10) (omega (arith, pow-succ' 10 fuel))))
]

digit_first :
    (x c m n : ℕ)
    → IsDigit c
    → n ≤ long_max
    → (if (c == 32) || (leb 9 c && leb c 13)
        then x
        else if c == b'-'
        then (2 ^ 64 - clamp (long_max + 1) m) % 2 ^ 32
        else if c == b'+'
        then clamp long_max m % 2 ^ 32
        else clamp long_max n % 2 ^ 32)
      ≡ n % 2 ^ 32
digit_first x c m n d l = ground arith

-- `strtol` on digits.
strtol-digits :
    (s : Text) → All IsDigit s → read_digits s 0 ≤ long_max → strtol s ≡ read_digits s 0 % 2 ^ 32
unfolding strtol read_digits
strtol-digits [] a l = refl
strtol-digits (c ∷ s) a l = digit_first (strtol s) c (read_digits s 0) (read_digits (c ∷ s) 0) a.0 l

pub strtol-decimal : (n : ℕ) → n < 2 ^ 32 → strtol (decimal n) ≡ n
strtol-decimal n h =
    let same = read_digits-decimal_loop 20 n (omega arith) in
    strtol-digits (decimal n) (decimal_loop-IsDigit 20 n) (omega (arith, same))
    ∙ omega (arith, same)

snoc_some : (s : Text) (c : ℕ) → (s ++ c ∷ []) ≢ []
snoc_some [] c h = cc
snoc_some (x ∷ s) c h = cc

pub decimal_loop_some : (fuel n : ℕ) → decimal_loop (suc fuel) n ≢ []
unfolding decimal_loop
decimal_loop_some fuel n = elim (Bool-cases (ltb n 10)) [
  | inl h ↦ rw h (λ e. cc)
  | inr h ↦ rw h (snoc_some (decimal_loop fuel (n / 10)) (48 + n % 10))
]
