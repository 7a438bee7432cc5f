-- ===== src/Receive/Socket.antt =====
-- How `readgossip` of chord-0.1-vasil/tools/gpsi.C reads a message from its socket, in as many parts
-- as the socket gives it in: the loop up to `recvlen < msglen`, and getKeyValueLen of
-- chord-0.1-vasil/utils/utils.C.
use mathlib.Core.List.{append_assoc, append-nil}
use xgossip.Prelude.{
  ℕ, ◌≤◌, ◌<◌, ◌≡◌, refl, sym, ap, ◌∙◌, List, [], ◌∷◌, ◌++◌, Option, none, some, true, false, ltb,
  if◌then◌else◌, length, length-append, map, All, arith,
}
use xgossip.Wire.{Bytes}
use xgossip.Wire.Read.{get_int, rounds}
use xgossip.Wire.Laws.{rounds_small}

-- A call of `input`: -1, or the bytes it got, of which there are none at the end of the file.
pub data Input : Type 0 where
  read_failed : Input
  read_bytes : Bytes → Input

-- How the loop ends; `starved` is more calls than there are inputs.
pub data Arrival : Type 0 where
  arrived : Bytes → Arrival
  broken ended starved : Arrival

-- `getKeyValueLen`, where `none` is a read past the end.
unfoldable pub get_key_value_len : Bytes → Option ℕ
get_key_value_len buf = elim (get_int buf) [
  | none ↦ none
  | some (msg_type, b) ↦ elim (get_int b) [ none ↦ none | some (len, b') ↦ some len ]
]

-- The loop behind the first part, with what was received.
unfoldable pub read_rest : ℕ → Bytes → List Input → Arrival
read_rest len got [] = starved
read_rest len got (read_failed ∷ ins) = broken
read_rest len got (read_bytes [] ∷ ins) = ended
read_rest len got (read_bytes (x ∷ b) ∷ ins) =
    let rest = read_rest len (got ++ x ∷ b) ins in
    if ltb (length (got ++ x ∷ b)) (rounds len) then rest else arrived (got ++ x ∷ b)

-- The length is taken from the first part.
unfoldable pub read_message : List Input → Option Arrival
read_message [] = some starved
read_message (read_failed ∷ ins) = some broken
read_message (read_bytes [] ∷ ins) = some ended
read_message (read_bytes (x ∷ b) ∷ ins) = elim (get_key_value_len (x ∷ b)) [
  | none ↦ none
  | some len ↦
      some
        (if ltb (length (x ∷ b)) (rounds len) then read_rest len (x ∷ b) ins else arrived (x ∷ b))
]

abbrev Nonempty : Bytes → Type 0
Nonempty [] = ⊥
Nonempty (x ∷ b) = Unit

abbrev pub joined : List Bytes → Bytes
joined [] = []
joined (c ∷ cs) = c ++ joined cs

-- Parts that a message arrives in: none is empty, and the first has its type and its length.
abbrev pub Parts : Bytes → List Bytes → Bytes → Type 0
Parts c cs msg = (c ++ joined cs ≡ msg) × (8 ≤ length c) × All Nonempty cs

part_last : (len n : ℕ) → n ≡ len → len < 0x80000000 → ltb n (rounds len) ≡ false
part_last len n e l = rw (rounds_small len l) (ground arith)

part_first : (len n : ℕ) → n < len → len < 0x80000000 → ltb n (rounds len) ≡ true
part_first len n e l = rw (rounds_small len l) (ground arith)

read_rest-joined :
    (len : ℕ) (got c : Bytes) (cs : List Bytes)
    → All Nonempty (c ∷ cs)
    → length (got ++ joined (c ∷ cs)) ≡ len
    → len < 0x80000000
    → read_rest len got (map read_bytes (c ∷ cs)) ≡ arrived (got ++ joined (c ∷ cs))
unfolding read_rest
read_rest-joined len got [] cs a e l = absurd a.0
read_rest-joined len got (x ∷ b) [] a e l =
    let same = ap (λ z. got ++ x ∷ z) (append-nil b) in
    rw (part_last len (length (got ++ x ∷ b)) (sym (ap length same) ∙ e) l) (ap arrived (sym same))
read_rest-joined len got (x ∷ b) ([] ∷ cs) a e l = absurd a.1.0
read_rest-joined len got (x ∷ b) ((y ∷ c) ∷ cs) a e l =
    let same = append_assoc got (x ∷ b) ((y ∷ c) ++ joined cs) in
    rw
      (part_first len (length (got ++ x ∷ b))
        (omega (arith, e, ap length same, length-append {0} (got ++ x ∷ b) ((y ∷ c) ++ joined cs)))
        l)
      (read_rest-joined len (got ++ x ∷ b) (y ∷ c) cs a.1 (ap length same ∙ e) l ∙ ap arrived same)

get_key_value_len-append :
    (c rest : Bytes) → 8 ≤ length c → get_key_value_len (c ++ rest) ≡ get_key_value_len c
unfolding get_key_value_len get_int
get_key_value_len-append (a ∷ b ∷ c ∷ e ∷ f ∷ g ∷ h ∷ i ∷ t) rest l = refl
get_key_value_len-append _ rest l = absurd (omega arith)

first_len :
    (c : Bytes) (cs : List Bytes) (msg : Bytes)
    → Parts c cs msg
    → get_key_value_len c ≡ get_key_value_len msg
first_len c cs msg p = sym (get_key_value_len-append c (joined cs) p.1) ∙ ap get_key_value_len p.0

shorter :
    (c e : Bytes) (cs : List Bytes) (msg : Bytes) → Parts c (e ∷ cs) msg → length c < length msg
shorter c [] cs msg p = absurd p.2.0
shorter c (x ∷ e) cs msg p =
    omega (arith, ap length p.0, length-append {0} c (joined ((x ∷ e) ∷ cs)))

-- A message of less than 2 ^ 31 bytes whose length field is right arrives as it was sent, in
-- whatever parts it comes: none of them empty, and the first with the type and the length in it.
pub read_message-Parts :
    (c : Bytes) (cs : List Bytes) (msg : Bytes)
    → Parts c cs msg
    → get_key_value_len msg ≡ some (length msg)
    → length msg < 0x80000000
    → read_message (map read_bytes (c ∷ cs)) ≡ some (arrived msg)
unfolding read_message
read_message-Parts [] cs msg p k l = absurd (omega arith)
read_message-Parts (x ∷ b) [] msg p k l =
    let whole = sym (ap (◌∷◌ x) (append-nil b)) ∙ p.0 in
    rw (first_len (x ∷ b) [] msg p ∙ k, read_message)
      (rw (part_last (length msg) (length (x ∷ b)) (ap length whole) l)
        (ap (λ z. some (arrived z)) whole))
read_message-Parts (x ∷ b) (c ∷ cs) msg p k l =
    rw (first_len (x ∷ b) (c ∷ cs) msg p ∙ k, read_message)
      (rw (part_first (length msg) (length (x ∷ b)) (shorter (x ∷ b) c cs msg p) l) (
        ap some (read_rest-joined (length msg) (x ∷ b) c cs p.2 (ap length p.0) l)
        ∙ ap (λ z. some (arrived z)) p.0))
