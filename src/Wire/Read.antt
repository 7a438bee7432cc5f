-- ===== src/Wire/Read.antt =====
-- Reading a buffer: a pointer is the bytes from it to the end, and `none` a read past the end.
use mathlib.Core.Option
use xgossip.Prelude.{
  ℕ, zero, suc, ◌+◌, ◌*◌, ◌/◌, ◌%◌, [], ◌∷◌, Option, none, some, if◌then◌else◌, ltb, ◌==◌,
}
use xgossip.Doubles.{Doubles}
use xgossip.Sig.{Sig}
use xgossip.Wire.{Bytes, DoubleBytes}

abbrev pub Reader {ℓ} : Type ℓ → Type ℓ
Reader A = Bytes → Option (A × Bytes)

infixl 5 ◌>>=◌
abbrev pub ◌>>=◌ {ℓ κ} : {A : Type ℓ} {B : Type κ} → Reader A → (A → Reader B) → Reader B
◌>>=◌ m f b = elim (m b) [ none ↦ none | some (a, b') ↦ f a b' ]

abbrev pub return {ℓ} : {A : Type ℓ} → A → Reader A
return a b = some (a, b)

unfoldable pub get_int : Reader ℕ
get_int (a ∷ b ∷ c ∷ e ∷ rest) = some (a + 0x100 * b + 0x10000 * c + 0x1000000 * e, rest)
get_int _ = none

unfoldable pub get_bytes : ℕ → Reader Bytes
get_bytes zero b = some ([], b)
get_bytes (suc n) [] = none
get_bytes (suc n) (x ∷ b) = Option.map (λ (xs, rest). (x ∷ xs, rest)) (get_bytes n b)

-- A size and as many bytes.
unfoldable pub get_str : Reader Bytes
get_str = do n ← get_int; get_bytes n

-- How often `for (i = 0; i < n; i++)` runs: not at all for a negative `int`.
unfoldable pub rounds : ℕ → ℕ
rounds n = if ltb n 0x80000000 then n else 0

unfoldable pub get_polys : ℕ → Reader Sig
get_polys zero b = some ([], b)
get_polys (suc n) b = elim (get_int b) [
  | none ↦ none
  | some (x, b') ↦ Option.map (λ (xs, rest). (x ∷ xs, rest)) (get_polys n b')
]

-- The size in bytes, its POLYs, and the bytes that are left of it. A negative size moves the pointer
-- back before the signature, which counts as a read out of range.
unfoldable pub get_sized : ℕ → Reader Sig
get_sized sig_len = do sig ← get_polys (sig_len / 4); pad ← get_bytes (sig_len % 4); return sig

unfoldable pub get_sig : Reader Sig
get_sig b = elim (get_int b) [
  | none ↦ none
  | some (sig_len, b') ↦ if ltb sig_len 0x80000000 then get_sized sig_len b' else none
]

unfoldable pub get_double : {d : Doubles} → DoubleBytes d → Reader d.Double
get_double r b = Option.map (λ (xs, rest). (r.of_bytes xs, rest)) (get_bytes 8 b)

-- What `getKeyValue` makes of a buffer: a value, the result -1 for a wrong length, or a read past
-- the end of the buffer.
pub data Decoded {ℓ} (A : Type ℓ) : Type ℓ where
  decoded : A → Decoded A
  bad_length : Decoded A
  overrun : Decoded A

unfoldable pub finish {ℓ} : {A : Type ℓ} → Option (A × Bytes) → Decoded A
finish none = overrun
finish (some (a, rest)) = decoded a

-- The type and the length are read, and the length compared with `recvlen`, before the rest.
unfoldable pub get_message {ℓ} : {A : Type ℓ} → Reader A → Bytes → ℕ → Decoded A
get_message body buf recvlen = elim (get_int buf) [
  | none ↦ overrun
  | some (msg_type, b) ↦ elim (get_int b) [
    | none ↦ overrun
    | some (len, b') ↦ if recvlen == len then finish (body b') else bad_length
  ]
]
