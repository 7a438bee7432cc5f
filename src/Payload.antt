-- ===== src/Payload.antt =====
-- `marshal_block`, `get_payload`, `makeDocid` and `getDocid` of chord-0.1-vasil/utils/utils.C: a block
-- of strings, and a signature with the identifier of a document, in one buffer.
pub mod Roundtrip
mod Examples
use xgossip.Prelude.{ℕ, zero, suc, ◌+◌, ◌*◌, List, [], ◌∷◌, ◌++◌, Option, none, some, length}
use xgossip.Sig.{Sig}
use xgossip.Wire.{Bytes, put_int, put_str, put_polys}
use xgossip.Wire.Read.{get_int, get_str, get_polys, get_bytes, rounds}

-- `marshal_block(elems)`
unfoldable pub marshal_block : List Bytes → Bytes
marshal_block [] = []
marshal_block (e ∷ elems) = put_str e ++ marshal_block elems

-- The loop of `get_payload` while bytes are left, on fuel. A length behind the end is a read out of
-- bounds, and so is a negative one.
unfoldable pub payload_loop : ℕ → Bytes → Option (List Bytes)
payload_loop n [] = some []
payload_loop zero (x ∷ ptr) = none
payload_loop (suc n) (x ∷ ptr) = elim (get_str (x ∷ ptr)) [
  | none ↦ none
  | some (e, rest) ↦ elim (payload_loop n rest) [ none ↦ none | some res ↦ some (e ∷ res) ]
]

-- `get_payload(input, length)`: each string takes four bytes at least.
unfoldable pub get_payload : Bytes → Option (List Bytes)
get_payload input = payload_loop (length input) input

-- `makeDocid`, with the characters of `docid` before the one that ends it.
unfoldable pub make_docid : Sig → Bytes → Bytes
make_docid sig docid = put_int (length sig) ++ (put_polys sig ++ put_str docid)

-- `getDocid(buf, sig, docid)`: the polynomials are pushed behind those that `sig` has, and the pointer
-- moves by the new size of `sig`.
unfoldable pub get_docid : Sig → Bytes → Option (Sig × Bytes)
get_docid sig buf = elim (get_int buf) [
  | none ↦ none
  | some (size, temp) ↦ elim (get_polys (rounds size) temp) [
    | none ↦ none
    | some (pushed, after) ↦ elim (get_bytes (length (sig ++ pushed) * 4) temp) [
      | none ↦ none
      | some (skipped, rest) ↦ elim (get_str rest) [
        | none ↦ none
        | some (docid, end) ↦ some (sig ++ pushed, docid)
      ]
    ]
  ]
]
