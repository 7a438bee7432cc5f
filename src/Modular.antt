-- ===== src/Modular.antt =====
-- `modularMultPoly` and `findMod` of chord-0.1-vasil/utils/utils.C: arithmetic modulo an irreducible
-- polynomial of one 32-bit word.
pub mod Residues
pub mod Product
pub mod Bits
pub mod Bytes
mod Examples
use Prim.Native.Nat.{bit_and, bit_or, bit_xor}
use xgossip.Prelude.{
  ℕ, zero, suc, ◌+◌, ◌-◌, ◌*◌, ◌/◌, ◌%◌, ◌^◌, List, [], ◌∷◌, Option, none, some, Bool, true, false,
  not, leb, ◌==◌, if◌then◌else◌,
}
use xgossip.Division.{word_degree}

-- `x << 1`, reduced if the bit `test` comes to be set.
unfoldable pub double_mod : ℕ → ℕ → ℕ → ℕ
double_mod test mod_mask x =
    let x1 = x * 2 % 2 ^ 32 in
    if bit_and x1 test == 0 then x1 else bit_xor (bit_xor x1 test) mod_mask

-- The loop of `modularMultPoly`, at most as often as y1 has bits.
unfoldable pub mod_loop : ℕ → ℕ → ℕ → ℕ → ℕ → ℕ
mod_loop zero mod_mask y1 x1 res = res
mod_loop (suc n) mod_mask y1 x1 res =
    let rest =
      mod_loop n mod_mask (y1 / 2) (double_mod (2 ^ 31) mod_mask x1)
        (if y1 % 2 == 1 then bit_xor res x1 else res) in
    if y1 == 0 then res else rest

-- `modularMultPoly(x, y, z)`
unfoldable pub modular_mult_poly : ℕ → ℕ → ℕ → ℕ
modular_mult_poly x y z = mod_loop 32 (bit_xor z (2 ^ 31)) y x 0

-- The variables of the loops of `findMod`.
pub record Finding : Type 0 where
  pub res : ℕ
  pub res_mask : ℕ
  pub small_bits_mask : ℕ
  pub k : ℕ

-- What a bit does, set or not, where the degree of z is d.
unfoldable pub find_bit : ℕ → ℕ → Bool → Finding → Finding
find_bit d mod_mask set s =
    if leb d s.k
    then (record s {
      res = if set then bit_xor s.res s.res_mask else s.res;
      res_mask = double_mod (2 ^ d) mod_mask s.res_mask;
      k = s.k + 1;
    })
    else (record s {
      res = if set then bit_or s.res s.small_bits_mask else s.res;
      small_bits_mask = s.small_bits_mask * 2 % 2 ^ 32;
      k = s.k + 1;
    })

-- The n bits of a byte that are left, from the mask `bit_mask` on.
unfoldable pub find_bits : ℕ → ℕ → ℕ → ℕ → ℕ → Finding → Finding
find_bits zero d mod_mask byte bit_mask s = s
find_bits (suc n) d mod_mask byte bit_mask s =
    find_bits n d mod_mask byte (bit_mask * 2 % 256)
      (find_bit d mod_mask (not (bit_and byte bit_mask == 0)) s)

unfoldable pub find_bytes : ℕ → ℕ → List ℕ → Finding → Finding
find_bytes d mod_mask [] s = s
find_bytes d mod_mask (b ∷ bs) s = find_bytes d mod_mask bs (find_bits 8 d mod_mask b 1 s)

-- `findMod(x, len, z)` on the bytes at x; a shift by the degree of z = 0 is undefined.
unfoldable pub find_mod : List ℕ → ℕ → Option ℕ
find_mod bs z =
    let d = word_degree z - 1 in
    let mod_mask = bit_xor z (2 ^ d) in
    let start : Finding = record { res = 0; res_mask = mod_mask; small_bits_mask = 1; k = 0 } in
    if word_degree z == 0 then none else some (find_bytes d mod_mask bs start).res
