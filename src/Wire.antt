-- ===== src/Wire.antt =====
-- The messages of chord-0.1-vasil/utils/utils.C: `makeKeyValue` writes them into a buffer and
-- `getKeyValue` reads them back. A buffer is a list of bytes; an `int` and a POLY are their 32-bit
-- patterns, in the byte order of a little-endian machine.
pub mod Read
pub mod Laws
pub mod Gossip
pub mod Init
pub mod Compressed
pub mod Query
mod Examples
use xgossip.Prelude.{ℕ, ◌-◌, ◌*◌, ◌/◌, ◌%◌, ◌≡◌, List, [], ◌∷◌, ◌++◌, length}
use xgossip.Doubles.{Doubles}
use xgossip.Sig.{Sig}

abbrev pub Bytes : Type 0
Bytes = List ℕ

-- `memcpy(buf, &n, sizeof(n))` of four bytes.
unfoldable pub put_int : ℕ → Bytes
put_int n = (n % 256) ∷ (n / 0x100 % 256) ∷ (n / 0x10000 % 256) ∷ (n / 0x1000000 % 256) ∷ []

-- A length and as many bytes: `str` values such as a key, a team or a DTD.
unfoldable pub put_str : Bytes → Bytes
put_str s = put_int (length s) ++ s

unfoldable pub put_polys : Sig → Bytes
put_polys [] = []
put_polys (x ∷ s) = put_int x ++ put_polys s

-- A signature behind its size in bytes.
unfoldable pub put_sig : Sig → Bytes
put_sig s = put_int (4 * length s) ++ put_polys s

-- `InsertType` (tools/nodeparams.h), with `NONE` as no_type and `XGOSSIP` as xgossip_msg; negative
-- numbers are 32-bit patterns.
pub data InsertType : Type 0 where
  update split updatehdrlock updatehdr no_type replace : InsertType
  splitspecial replacesig updateifpresent justappend updateval updatevalifpresent : InsertType
  queryx querys vxgossip initgossip informteam xgossip_msg : InsertType
  invalid xgossipc queryxp vxgossipc bcast bcastc : InsertType

unfoldable pub type_code : InsertType → ℕ
type_code update = 0x1_0000_0000 - 1
type_code split = 0x1_0000_0000 - 2
type_code updatehdrlock = 0x1_0000_0000 - 3
type_code updatehdr = 0x1_0000_0000 - 4
type_code no_type = 0x1_0000_0000 - 5
type_code replace = 0x1_0000_0000 - 6
type_code splitspecial = 0x1_0000_0000 - 7
type_code replacesig = 0x1_0000_0000 - 8
type_code updateifpresent = 0x1_0000_0000 - 9
type_code justappend = 0x1_0000_0000 - 10
type_code updateval = 0x1_0000_0000 - 11
type_code updatevalifpresent = 0x1_0000_0000 - 12
type_code queryx = 0x1_0000_0000 - 13
type_code querys = 0x1_0000_0000 - 14
type_code vxgossip = 0x1_0000_0000 - 15
type_code initgossip = 0x1_0000_0000 - 16
type_code informteam = 0x1_0000_0000 - 17
type_code xgossip_msg = 0x1_0000_0000 - 18
type_code invalid = 0x1_0000_0000 - 19
type_code xgossipc = 0x1_0000_0000 - 20
type_code queryxp = 0x1_0000_0000 - 21
type_code vxgossipc = 0x1_0000_0000 - 22
type_code bcast = 0x1_0000_0000 - 23
type_code bcastc = 0x1_0000_0000 - 24

-- The object representation of a `double`: eight bytes that `memcpy` takes there and back.
pub record DoubleBytes (d : Doubles) : Type 0 where
  pub put_double : d.Double → Bytes
  pub of_bytes : Bytes → d.Double
  pub length-put_double : (x : d.Double) → length (put_double x) ≡ 8
  pub of_bytes-put_double : (x : d.Double) → of_bytes (put_double x) ≡ x
