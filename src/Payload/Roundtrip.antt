-- ===== src/Payload/Roundtrip.antt =====
-- What is written into one buffer is read back.
use mathlib.Core.List.{append-nil}
use xgossip.Prelude.{
  ℕ, zero, suc, ◌+◌, ◌*◌, ◌%◌, ◌≤◌, ◌<◌, ◌≡◌, refl, sym, ap, ◌∙◌, arith, List, [], ◌∷◌, ◌++◌, some,
  length, length-append, All,
}
use xgossip.Sig.{Sig}
use xgossip.Wire.{Bytes, put_int, put_str, put_polys}
use xgossip.Wire.Read.{get_int, get_str, get_polys, get_bytes, rounds}
use xgossip.Wire.Laws.{
  IsWord, get_int-put_int, get_bytes-append, get_str-put_str, get_polys-put_polys, length-put_polys,
  length-put_str, rounds_small,
}
use xgossip.Payload.{marshal_block, payload_loop, get_payload, make_docid, get_docid}

payload_step :
    (n x : ℕ) (b e rest : Bytes) (res : List Bytes)
    → get_str (x ∷ b) ≡ some (e, rest)
    → payload_loop n rest ≡ some res
    → payload_loop (suc n) (x ∷ b) ≡ some (e ∷ res)
unfolding payload_loop
payload_step n x b e rest res g h = rw (payload_loop, g, h) refl

-- A string in front: the buffer is not empty, and one round takes it off.
payload_loop-put_str :
    (n : ℕ) (e rest : Bytes) (res : List Bytes)
    → length e < 0x8000_0000
    → payload_loop n rest ≡ some res
    → payload_loop (suc n) (put_str e ++ rest) ≡ some (e ∷ res)
unfolding put_str put_int
payload_loop-put_str n e rest res l h =
    payload_step n (length e % 256) _ e rest res (get_str-put_str e rest (omega (arith, l))) h

length-entry :
    (e : Bytes) (elems : List Bytes)
    → length (marshal_block (e ∷ elems)) ≡ 4 + length e + length (marshal_block elems)
unfolding marshal_block
length-entry e elems =
    omega (arith, length-append {0} (put_str e) (marshal_block elems), length-put_str e)

payload_lem :
    (elems : List Bytes) (n : ℕ)
    → length (marshal_block elems) ≤ n
    → length (marshal_block elems) < 0x8000_0000
    → payload_loop n (marshal_block elems) ≡ some elems
unfolding marshal_block payload_loop
payload_lem [] n l b = refl
payload_lem (e ∷ elems) zero l b = absurd (omega (arith, l, length-entry e elems))
payload_lem (e ∷ elems) (suc n) l b =
    payload_loop-put_str n e (marshal_block elems) elems (omega (arith, b, length-entry e elems)) (
      payload_lem elems n (omega (arith, l, length-entry e elems))
        (omega (arith, b, length-entry e elems)))

-- `get_payload` ends on a block that `marshal_block` makes, if its length is an `int`, with the strings
-- that are in it.
pub get_payload-marshal_block :
    (elems : List Bytes)
    → length (marshal_block elems) < 0x8000_0000
    → get_payload (marshal_block elems) ≡ some elems
unfolding get_payload
get_payload-marshal_block elems b = payload_lem elems (length (marshal_block elems)) (omega arith) b

polys_skipped :
    (sig : Sig) (rest : Bytes)
    → get_bytes (length sig * 4) (put_polys sig ++ rest) ≡ some (put_polys sig, rest)
polys_skipped sig rest =
    ap (λ n. get_bytes n (put_polys sig ++ rest)) {x = length sig * 4} {y = length (put_polys sig)}
      (omega (arith, length-put_polys sig))
    ∙ get_bytes-append (put_polys sig) rest

get_docid_read :
    (sig : Sig) (buf : Bytes) (size : ℕ) (temp : Bytes) (pushed : Sig)
    (after skipped rest docid end : Bytes)
    → get_int buf ≡ some (size, temp)
    → get_polys (rounds size) temp ≡ some (pushed, after)
    → get_bytes (length (sig ++ pushed) * 4) temp ≡ some (skipped, rest)
    → get_str rest ≡ some (docid, end)
    → get_docid sig buf ≡ some (sig ++ pushed, docid)
unfolding get_docid
get_docid_read sig buf size temp pushed after skipped rest docid end a b c e =
    rw (get_docid, a, b, c, e) refl

-- `getDocid` on an empty signature gives the signature and the identifier that `makeDocid` wrote.
pub get_docid-make_docid :
    (sig : Sig) (docid : Bytes)
    → All IsWord sig
    → length sig < 0x8000_0000
    → length docid < 0x8000_0000
    → get_docid [] (make_docid sig docid) ≡ some (sig, docid)
unfolding make_docid
get_docid-make_docid sig docid a l m =
    get_docid_read [] (make_docid sig docid) (length sig) (put_polys sig ++ put_str docid) sig
      (put_str docid) (put_polys sig) (put_str docid) docid []
      (get_int-put_int (length sig) (put_polys sig ++ put_str docid) (omega (arith, l)))
      (ap (λ n. get_polys n (put_polys sig ++ put_str docid)) (rounds_small (length sig) l)
        ∙ get_polys-put_polys sig (put_str docid) a)
      (polys_skipped sig (put_str docid))
      (ap get_str (sym (append-nil (put_str docid))) ∙ get_str-put_str docid [] (omega (arith, m)))
