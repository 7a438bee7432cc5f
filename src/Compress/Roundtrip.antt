-- ===== src/Compress/Roundtrip.antt =====
-- What `compressSignatures` writes, `uncompressSignatures` reads back.
use mathlib.Core.List.{append-nil}
use xgossip.Prelude.{
  ℕ, zero, suc, ◌≤◌, ◌<◌, ◌≡◌, ◌⊎◌, inl, inr, refl, ap, ◌∙◌, List, [], ◌∷◌, some, Bool, true, false,
  ◌==◌, ◌||◌, length, replicate, All, arith, length-replicate, Bool-cases,
}
use xgossip.Sig.{Sig}
use xgossip.Compress.{
  set_bit, ended, least, advance, compress_loop, total, has_empty, compress_signatures, extract_row,
  extract_rows, uncompress_signatures, bitmap_len,
}
use xgossip.Compress.Bits.{zeros-IsBitmap, test_bit-zeros}
use xgossip.Compress.Rows.{
  join, moved, IsClear, extract_row-advance, join-moved, length-moved, length-advance,
}

-- The value looked for is a next value, unless it is the starting one.
next : ℕ → List Sig → Bool
next m [] = false
next m ([] ∷ rs) = next m rs
next m ((x ∷ s) ∷ rs) = (x == m) || next m rs

least_found : (m : ℕ) (rs : List Sig) → (least m rs ≡ m) ⊎ (next (least m rs) rs ≡ true)
unfolding least next
least_found m [] = inl refl
least_found m ([] ∷ rs) = least_found m rs
least_found m ((x ∷ s) ∷ rs) = ground (arith, least_found m rs, least_found x rs)

-- Every value of every signature is a POLY.
abbrev pub IsPoly : Sig → Type 0
IsPoly = All (λ x. x ≤ 0xffffffff)

least_le : (m : ℕ) (rs : List Sig) → least m rs ≤ m
unfolding least
least_le m [] = omega arith
least_le m ([] ∷ rs) = least_le m rs
least_le m ((x ∷ s) ∷ rs) = ground (arith, least_le m rs, least_le x rs)

least-next :
    (rs : List Sig) → All IsPoly rs → ended rs ≡ false → next (least 0xffffffff rs) rs ≡ true
unfolding ended least next
least-next [] a h = cc
least-next ([] ∷ rs) a h = least-next rs a.1 h
least-next ((x ∷ s) ∷ rs) a h =
    let hx = a.0.0 in ground (arith, least_found x rs, least_found 0xffffffff rs)

total-advance :
    (m i : ℕ) (bm : List ℕ) (rs : List Sig)
    → (total (advance m i bm rs).1 ≤ total rs)
      × (next m rs ≡ true → total (advance m i bm rs).1 < total rs)
unfolding total advance next
total-advance m i bm [] = ground arith
total-advance m i bm ([] ∷ rs) = ground (arith, total-advance m (suc i) bm rs)
total-advance m i bm ((x ∷ s) ∷ rs) =
    ground (arith, total-advance m (suc i) bm rs, total-advance m (suc i) (set_bit bm i) rs)

advance-IsPoly :
    (m i : ℕ) (bm : List ℕ) (rs : List Sig) → All IsPoly rs → All IsPoly (advance m i bm rs).1
unfolding advance
advance-IsPoly m i bm [] a = tt
advance-IsPoly m i bm ([] ∷ rs) a = (tt, advance-IsPoly m (suc i) bm rs a.1)
advance-IsPoly m i bm ((x ∷ s) ∷ rs) a = elim (Bool-cases (x == m)) [
  | inl e ↦ rw e (a.0.1, advance-IsPoly m (suc i) (set_bit bm i) rs a.1)
  | inr e ↦ rw e (a.0, advance-IsPoly m (suc i) bm rs a.1)
]

join-ended : (rs os : List Sig) → length os ≡ length rs → ended rs ≡ true → join os rs ≡ os
unfolding join ended
join-ended [] [] e h = refl
join-ended [] (o ∷ os) e h = absurd (omega arith)
join-ended (r ∷ rs) [] e h = refl
join-ended ([] ∷ rs) (o ∷ os) e h = ground (arith, append-nil o, join-ended rs os)
join-ended ((x ∷ s) ∷ rs) (o ∷ os) e h = cc

-- A round of `compress_loop`, with what it leaves to the next.
abbrev row : List ℕ → List Sig → List ℕ × List Sig
row zeros rs = advance (least 0xffffffff rs) 0 zeros rs

zeros-IsClear : (n : ℕ) → IsClear n 0 (replicate (bitmap_len n) 0)
unfolding IsClear
zeros-IsClear n j l h = test_bit-zeros n j h

module _ (n : ℕ) (rs os : List Sig) (e : length os ≡ length rs) (l : length rs ≡ n) where
  row_extract :
      extract_row (least 0xffffffff rs) (row (replicate (bitmap_len n) 0) rs).0 0 os
      ≡ some (moved (least 0xffffffff rs) os rs)
  row_extract =
      extract_row-advance n _ 0 _ rs os (zeros-IsBitmap n) (omega arith) e (zeros-IsClear n)

-- The loop ends within fuel above the number of values, and its rows add what was left to the
-- outputs.
compress_loop_lem :
    (n fuel : ℕ) (rs os : List Sig)
    → total rs < fuel
    → All IsPoly rs
    → length os ≡ length rs
    → length rs ≡ n
    → (ps : List ℕ) × (bms : List (List ℕ)) × (compress_loop fuel (replicate (bitmap_len n) 0) rs
        ≡ some (ps, bms))
      × (extract_rows ps bms os ≡ some (join os rs))
unfolding compress_loop extract_rows
compress_loop_lem n zero rs os f a e l = absurd (omega arith)
compress_loop_lem n (suc fuel) rs os f a e l = elim (Bool-cases (ended rs)) [
  | inl stop ↦ ([], [], rw (stop, compress_loop), ground (arith, join-ended rs os))
  | inr more ↦
      let m = least 0xffffffff rs in
      let zs : List ℕ = replicate (bitmap_len n) 0 in
      let r = advance m 0 zs rs in
      let less = (total-advance m 0 zs rs).1 (least-next rs a more) in
      let (ps, bms, c, x) =
        compress_loop_lem n fuel r.1 (moved m os rs) (omega arith) (advance-IsPoly m 0 zs rs a)
          (omega (arith, length-moved m rs os, length-advance m 0 zs rs))
          (omega (arith, length-advance m 0 zs rs)) in
      (
        m ∷ ps,
        r.0 ∷ bms,
        rw (more, compress_loop) (rw c),
        rw (row_extract n rs os e l, extract_rows) (x ∙ ap some (join-moved m 0 zs rs os e)),
      )
]

join-nils : (rs : List Sig) → join (replicate (length rs) []) rs ≡ rs
unfolding join
join-nils [] = refl
join-nils (r ∷ rs) = ap (◌∷◌ r) (join-nils rs)

-- For a list of one or more signatures, none of them empty and all values below 2 ^ 32, in any
-- order, `compressSignatures` returns true, and `uncompressSignatures` on what it wrote gives the
-- signatures back.
pub uncompress_signatures-compress_signatures :
    (s : Sig) (rs : List Sig)
    → All IsPoly (s ∷ rs)
    → has_empty (s ∷ rs) ≡ false
    → (ps : List ℕ) × (bms : List (List ℕ)) × (compress_signatures (s ∷ rs) ≡ some (true, ps, bms))
      × (uncompress_signatures ps bms (length (s ∷ rs)) ≡ some (true, s ∷ rs))
unfolding compress_signatures uncompress_signatures
uncompress_signatures-compress_signatures s rs a h =
    let all : List Sig = s ∷ rs in
    let (ps, bms, c, x) =
      compress_loop_lem (length all) (suc (total all)) all (replicate (length all) []) (omega arith)
        a (length-replicate {A = Sig} (length all) []) refl in
    (ps, bms, rw h (rw c), rw x (rw join-nils))
