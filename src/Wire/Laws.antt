-- ===== src/Wire/Laws.antt =====
-- Each piece of a message reads back, whatever follows it.
use mathlib.Core.List.{append_assoc}
use mathlib.Core.Path.{subst}
use xgossip.Prelude.{
  ℕ, ◌+◌, ◌*◌, ◌/◌, ◌%◌, ◌<◌, ◌≡◌, ◌≢◌, refl, [], ◌∷◌, ◌++◌, some, All, length, arith,
  length-append,
}
use xgossip.Doubles.{Doubles}
use xgossip.Sig.{Sig}
use xgossip.Wire.{
  Bytes, put_int, put_str, put_polys, put_sig, DoubleBytes, InsertType, type_code, queryx,
}
use xgossip.Wire.Read.{
  Reader, ◌>>=◌, get_int, get_bytes, get_str, get_polys, get_sized, get_sig, get_double, rounds,
  get_message, decoded, bad_length, finish,
}

-- Every number is a 32-bit pattern.
abbrev pub IsWord : ℕ → Type 0
IsWord n = n < 0x100000000

pub get_int-put_int :
    (n : ℕ) (rest : Bytes) → IsWord n → get_int (put_int n ++ rest) ≡ some (n, rest)
unfolding get_int put_int
get_int-put_int n rest h = ground arith

pub get_bytes-append : (s rest : Bytes) → get_bytes (length s) (s ++ rest) ≡ some (s, rest)
unfolding get_bytes
get_bytes-append [] rest = refl
get_bytes-append (x ∷ s) rest = rw (get_bytes-append s rest)

pub get_str-put_str :
    (s rest : Bytes) → IsWord (length s) → get_str (put_str s ++ rest) ≡ some (s, rest)
unfolding get_str put_str
get_str-put_str s rest h =
    rw (append_assoc (put_int (length s)) s rest)
      (rw (get_int-put_int (length s) (s ++ rest) h, ◌>>=◌) (get_bytes-append s rest))

pub get_polys-put_polys :
    (s : Sig) (rest : Bytes)
    → All IsWord s
    → get_polys (length s) (put_polys s ++ rest) ≡ some (s, rest)
unfolding get_polys put_polys
get_polys-put_polys [] rest h = refl
get_polys-put_polys (x ∷ s) rest h = rw (append_assoc (put_int x) (put_polys s) rest) (
    rw (get_int-put_int x (put_polys s ++ rest) h.0, get_polys)
      (rw (get_polys-put_polys s rest h.1)))

pub length-put_int : (n : ℕ) → length (put_int n) ≡ 4
unfolding put_int
length-put_int n = refl

pub length-put_polys : (s : Sig) → length (put_polys s) ≡ 4 * length s
unfolding put_polys
length-put_polys [] = refl
length-put_polys (x ∷ s) =
    omega (arith, length-append {0} (put_int x) (put_polys s), length-put_int x, length-put_polys s)

pub length-put_sig : (s : Sig) → length (put_sig s) ≡ 4 + 4 * length s
unfolding put_sig
length-put_sig s = omega (
  arith,
  length-append {0} (put_int (4 * length s)) (put_polys s),
  length-put_int (4 * length s),
  length-put_polys s,
)

pub length-put_str : (s : Bytes) → length (put_str s) ≡ 4 + length s
unfolding put_str
length-put_str s =
    omega (arith, length-append {0} (put_int (length s)) s, length-put_int (length s))

get_sized-put_polys :
    (s : Sig) (rest : Bytes)
    → All IsWord s
    → get_sized (4 * length s) (put_polys s ++ rest) ≡ some (s, rest)
unfolding get_sized get_bytes
get_sized-put_polys s rest h =
    let q : 4 * length s / 4 ≡ length s = omega arith in
    let m : 4 * length s % 4 ≡ 0 = omega arith in
    rw (q, get_sized) (rw (m, get_sized) (rw (get_polys-put_polys s rest h, ◌>>=◌)))

pub get_sig-put_sig :
    (s : Sig) (rest : Bytes)
    → All IsWord s
    → 4 * length s < 0x80000000
    → get_sig (put_sig s ++ rest) ≡ some (s, rest)
unfolding get_sig put_sig
get_sig-put_sig s rest h l = rw (append_assoc (put_int (4 * length s)) (put_polys s) rest) (
    rw (get_int-put_int (4 * length s) (put_polys s ++ rest) (omega arith), get_sig)
      (ground (arith, get_sized-put_polys s rest h)))

pub get_double-put_double :
    {d : Doubles} (r : DoubleBytes d) (x : d.Double) (rest : Bytes)
    → get_double r (r.put_double x ++ rest) ≡ some (x, rest)
unfolding get_double
get_double-put_double r x rest =
    let e =
      subst (λ n. get_bytes n (r.put_double x ++ rest) ≡ some (r.put_double x, rest))
        (r.length-put_double x) (get_bytes-append (r.put_double x) rest) in
    rw e (rw (r.of_bytes-put_double x))

pub rounds_small : (n : ℕ) → n < 0x80000000 → rounds n ≡ n
unfolding rounds
rounds_small n h = ground arith

pub IsWord-type_code : (t : InsertType) → IsWord (type_code t)
unfolding type_code
IsWord-type_code queryx = omega arith
IsWord-type_code _ = omega arith

-- A message reads back if its body does, its length field being right.
pub get_message-put {ℓ} :
    {A : Type ℓ} (body : Reader A) (t : InsertType) (len : ℕ) (bytes : Bytes) (a : A)
    → IsWord len
    → body bytes ≡ some (a, [])
    → get_message body (put_int (type_code t) ++ (put_int len ++ bytes)) len ≡ decoded a
unfolding get_message finish
get_message-put body t len bytes a w e =
    rw (get_int-put_int (type_code t) (put_int len ++ bytes) (IsWord-type_code t), get_message)
      (rw (get_int-put_int len bytes w, get_message) (ground arith))

-- A message of another length than the one received is refused.
pub get_message-bad_length {ℓ} :
    {A : Type ℓ} (body : Reader A) (t : InsertType) (len n : ℕ) (bytes : Bytes)
    → IsWord len
    → n ≢ len
    → get_message body (put_int (type_code t) ++ (put_int len ++ bytes)) n ≡ bad_length
unfolding get_message finish
get_message-bad_length body t len n bytes w e =
    rw (get_int-put_int (type_code t) (put_int len ++ bytes) (IsWord-type_code t), get_message)
      (rw (get_int-put_int len bytes w, get_message) (ground arith))
