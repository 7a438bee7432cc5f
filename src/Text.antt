-- ===== src/Text.antt =====
-- Text of chord-0.1-vasil/tools/gpsi.C: decimal numbers as `<<` and `strtol` write and read them,
-- `tokenize`, and the text of a signature, `sig2str` and `string2sig`.
pub mod Decimal
pub mod Tokens
pub mod Signature
mod Examples
use xgossip.Prelude.{
  ℕ, zero, suc, ◌+◌, ◌-◌, ◌*◌, ◌/◌, ◌%◌, ◌^◌, List, [], ◌∷◌, ◌++◌, Bool, true, false, ◌&&◌, ◌||◌,
  ltb, leb, ◌==◌, if◌then◌else◌, length,
}
use xgossip.Sig.{Sig}

abbrev pub Text : Type 0
Text = List ℕ

-- The digits of a number, on fuel of one for each: `none` is left out, since 20 digits hold 64 bits.
unfoldable pub decimal_loop : ℕ → ℕ → Text
decimal_loop zero n = []
decimal_loop (suc fuel) n =
    let rest = decimal_loop fuel (n / 10) in
    if ltb n 10 then (48 + n) ∷ [] else rest ++ (48 + n % 10) ∷ []

abbrev pub decimal : ℕ → Text
decimal n = decimal_loop 20 n

abbrev pub is_digit : ℕ → Bool
is_digit c = leb 48 c && leb c 57

-- The digits that a number starts with, in a `long` that stops at its greatest value.
unfoldable pub read_digits : Text → ℕ → ℕ
read_digits [] n = n
read_digits (c ∷ s) n =
    let rest = read_digits s (10 * n + (c - 48)) in if is_digit c then rest else n

abbrev pub long_max : ℕ
long_max = 0x7fff_ffff_ffff_ffff

abbrev pub clamp : ℕ → ℕ → ℕ
clamp m n = if ltb m n then m else n

-- `strtol(s, NULL, 10)` as the 32-bit pattern that a POLY takes of it: white space is passed over,
-- and a sign is read.
unfoldable pub strtol : Text → ℕ
strtol [] = 0
strtol (c ∷ s) =
    let rest = strtol s in
    if (c == 32) || (leb 9 c && leb c 13)
    then rest
    else if c == b'-'
    then (2 ^ 64 - clamp (long_max + 1) (read_digits s 0)) % 2 ^ 32
    else if c == b'+'
    then clamp long_max (read_digits s 0) % 2 ^ 32
    else clamp long_max (read_digits (c ∷ s) 0) % 2 ^ 32

-- `delimiters` holds one character or more.
unfoldable pub is_delimiter : Text → ℕ → Bool
is_delimiter [] c = false
is_delimiter (x ∷ ds) c = let rest = is_delimiter ds c in (c == x) || rest

-- From `find_first_not_of` on, and up to `find_first_of`.
unfoldable pub skip_delimiters : Text → Text → Text
skip_delimiters ds [] = []
skip_delimiters ds (c ∷ s) =
    let rest = skip_delimiters ds s in if is_delimiter ds c then rest else c ∷ s

unfoldable pub cut : Text → Text → Text × Text
cut ds [] = ([], [])
cut ds (c ∷ s) =
    let (t, rest) = cut ds s in if is_delimiter ds c then ([], c ∷ s) else (c ∷ t, rest)

-- The loop of `tokenize`, at the start of a token or the end; a token takes a character at least, so
-- that the length is enough fuel.
unfoldable pub tokens_from : ℕ → Text → Text → List Text
tokens_from zero ds s = []
tokens_from (suc fuel) ds [] = []
tokens_from (suc fuel) ds (c ∷ s) =
    let (t, rest) = cut ds (c ∷ s) in t ∷ tokens_from fuel ds (skip_delimiters ds rest)

unfoldable pub tokenize : Text → Text → List Text
tokenize s ds = tokens_from (length s) ds (skip_delimiters ds s)

unfoldable pub read_tokens : List Text → Sig
read_tokens [] = []
read_tokens (t ∷ ts) = strtol t ∷ read_tokens ts

-- `string2sig`, which pushes to what the signature has.
unfoldable pub string2sig : Text → Sig → Bool × Sig
string2sig [] sig = (false, sig)
string2sig (c ∷ s) sig = (true, sig ++ read_tokens (tokenize (c ∷ s) (b'-' ∷ [])))

unfoldable pub put_values : Sig → Text
put_values [] = []
put_values (x ∷ s) = decimal x ++ (b'-' ∷ put_values s)

-- `sig2str`, which leaves the text as it was for an empty signature.
unfoldable pub sig2str : Sig → Text → Bool × Text
sig2str [] buf = (false, buf)
sig2str (x ∷ s) buf = (true, put_values (x ∷ s))
