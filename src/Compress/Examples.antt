-- ===== src/Compress/Examples.antt =====
-- A run of the compression and its round trip at concrete signatures.
use xgossip.Prelude.{ℕ, ◌≡◌, List, [], ◌∷◌, some, true, false, refl, arith}
use xgossip.Sig.{Sig}
use xgossip.Compress.{
  set_bit, ended, least, advance, compress_loop, total, has_empty, compress_signatures,
  uncompress_signatures,
}
use xgossip.Compress.Roundtrip.{uncompress_signatures-compress_signatures}

abbrev sample : List Sig
sample = (2 ∷ 3 ∷ 3 ∷ []) ∷ (3 ∷ 9 ∷ []) ∷ []

compress_run :
    compress_signatures sample
    ≡ some (true, 2 ∷ 3 ∷ 3 ∷ 9 ∷ [], (128 ∷ []) ∷ (192 ∷ []) ∷ (128 ∷ []) ∷ (64 ∷ []) ∷ [])
unfolding compress_signatures compress_loop set_bit ended least advance total has_empty
compress_run = refl

-- An empty signature among them is refused.
compress_empty : compress_signatures ((2 ∷ []) ∷ [] ∷ []) ≡ some (false, [], [])
unfolding compress_signatures has_empty
compress_empty = refl

uncompress_signatures-compress_signatures_example :
    (ps : List ℕ) × (bms : List (List ℕ)) × (compress_signatures sample ≡ some (true, ps, bms))
    × (uncompress_signatures ps bms 2 ≡ some (true, sample))
unfolding has_empty
uncompress_signatures-compress_signatures_example =
    uncompress_signatures-compress_signatures (2 ∷ 3 ∷ 3 ∷ []) ((3 ∷ 9 ∷ []) ∷ []) (omega arith)
      refl
