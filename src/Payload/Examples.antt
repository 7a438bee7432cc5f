-- ===== src/Payload/Examples.antt =====
-- The tests of the module.
use xgossip.Prelude.{◌≡◌, ◌<◌, length, refl, List, [], ◌∷◌, some, none, arith}
use xgossip.Sig.{Sig}
use xgossip.Wire.{Bytes, put_int, put_str, put_polys}
use xgossip.Wire.Read.{get_int, get_str, get_polys, get_bytes, rounds}
use xgossip.Payload.{marshal_block, get_payload, make_docid, get_docid}
use xgossip.Payload.Roundtrip.{get_payload-marshal_block}

abbrev block : List Bytes
block = (7 ∷ 8 ∷ []) ∷ [] ∷ (9 ∷ []) ∷ []

block-small : length (marshal_block block) < 0x8000_0000
unfolding marshal_block put_str put_int
block-small = omega arith

get_payload-marshal_block_example : get_payload (marshal_block block) ≡ some block
get_payload-marshal_block_example = get_payload-marshal_block block block-small

abbrev sig : Sig
sig = 7 ∷ 0x8000_0001 ∷ []

docid_read : get_docid [] (make_docid sig (65 ∷ [])) ≡ some (sig, 65 ∷ [])
unfolding get_docid make_docid put_int put_str put_polys get_int get_str get_polys get_bytes rounds
docid_read = refl

-- On a signature that is not empty the pointer moves too far: here behind the buffer.
docid_appended : get_docid (1 ∷ []) (make_docid sig []) ≡ none
unfolding get_docid make_docid put_int put_str put_polys get_int get_str get_polys get_bytes rounds
docid_appended = refl
