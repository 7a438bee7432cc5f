-- ===== src/Compress/Rows.antt =====
-- One row of the compression: what `advance` marks, `extract_row` reads, and nothing is lost.
use mathlib.Core.List.{append_assoc}
use xgossip.Prelude.{
  ℕ, suc, ◌+◌, ◌≤◌, ◌<◌, ◌≡◌, refl, ap, List, [], ◌∷◌, ◌++◌, some, false, ◌==◌, if◌then◌else◌,
  length, arith,
}
use xgossip.Sig.{Sig}
use xgossip.Compress.{set_bit, test_bit, advance, extract_row}
use xgossip.Compress.Bits.{IsBitmap, set_bit-IsBitmap, test_bit-set_bit}

-- The outputs so far, each with what is left of its signature.
unfoldable pub join : List Sig → List Sig → List Sig
join (o ∷ os) (r ∷ rs) = (o ++ r) ∷ join os rs
join os rs = []

-- The outputs after one row.
unfoldable pub moved : ℕ → List Sig → List Sig → List Sig
moved m (o ∷ os) ([] ∷ rs) = o ∷ moved m os rs
moved m (o ∷ os) ((x ∷ s) ∷ rs) = (if x == m then o ++ m ∷ [] else o) ∷ moved m os rs
moved m os rs = os

advance-low :
    (n m i : ℕ) (bm : List ℕ) (rs : List Sig) (j : ℕ)
    → IsBitmap n bm
    → i + length rs ≤ n
    → j < i
    → test_bit (advance m i bm rs).0 j ≡ test_bit bm j
unfolding advance
advance-low n m i bm [] j w h l = refl
advance-low n m i bm ([] ∷ rs) j w h l =
    advance-low n m (suc i) bm rs j w (omega arith) (omega arith)
advance-low n m i bm ((x ∷ s) ∷ rs) j w h l =
    let hi : i < n = omega arith in
    ground (
      arith,
      advance-low n m (suc i) (set_bit bm i) rs j (set_bit-IsBitmap n bm w i hi),
      advance-low n m (suc i) bm rs j w,
      test_bit-set_bit n bm w i hi j,
    )

-- The bitmap that `advance` makes sends the value to the signatures that it was read from.
unfoldable pub IsClear : ℕ → ℕ → List ℕ → Type 0
IsClear n i bm = (j : ℕ) → i ≤ j → j < n → test_bit bm j ≡ some false

pub extract_row-advance :
    (n m i : ℕ) (bm : List ℕ) (rs os : List Sig)
    → IsBitmap n bm
    → i + length rs ≤ n
    → length os ≡ length rs
    → IsClear n i bm
    → extract_row m (advance m i bm rs).0 i os ≡ some (moved m os rs)
unfolding extract_row moved advance IsClear
extract_row-advance n m i bm [] [] w h e c = refl
extract_row-advance n m i bm [] (o ∷ os) w h e c = absurd (omega arith)
extract_row-advance n m i bm (r ∷ rs) [] w h e c = absurd (omega arith)
extract_row-advance n m i bm ([] ∷ rs) (o ∷ os) w h e c = ground (
  arith,
  advance-low n m (suc i) bm rs i w,
  c i,
  extract_row-advance n m (suc i) bm rs os w (omega arith) (omega arith)
      (λ j l k. c j (omega arith) k),
)
extract_row-advance n m i bm ((x ∷ s) ∷ rs) (o ∷ os) w h e c =
    let hi : i < n = omega arith in
    let w' = set_bit-IsBitmap n bm w i hi in
    ground (
      arith,
      advance-low n m (suc i) bm rs i w,
      advance-low n m (suc i) (set_bit bm i) rs i w',
      test_bit-set_bit n bm w i hi i,
      c i,
      extract_row-advance n m (suc i) bm rs os w (omega arith) (omega arith)
          (λ j l k. c j (omega arith) k),
      extract_row-advance n m (suc i) (set_bit bm i) rs os w' (omega arith) (omega arith)
          (λ j l k. ground (arith, test_bit-set_bit n bm w i hi j, c j)),
    )

pub join-moved :
    (m i : ℕ) (bm : List ℕ) (rs os : List Sig)
    → length os ≡ length rs
    → join (moved m os rs) (advance m i bm rs).1 ≡ join os rs
unfolding join moved advance
join-moved m i bm [] [] e = refl
join-moved m i bm [] (o ∷ os) e = refl
join-moved m i bm (r ∷ rs) [] e = refl
join-moved m i bm ([] ∷ rs) (o ∷ os) e =
    ap (◌∷◌ (o ++ [])) (join-moved m (suc i) bm rs os (omega arith))
join-moved m i bm ((x ∷ s) ∷ rs) (o ∷ os) e = ground (
  arith,
  append_assoc o (m ∷ []) s,
  join-moved m (suc i) bm rs os,
  join-moved m (suc i) (set_bit bm i) rs os,
)

pub length-moved : (m : ℕ) (rs os : List Sig) → length (moved m os rs) ≡ length os
unfolding moved
length-moved m [] [] = refl
length-moved m [] (o ∷ os) = refl
length-moved m (r ∷ rs) [] = refl
length-moved m ([] ∷ rs) (o ∷ os) = ap suc (length-moved m rs os)
length-moved m ((x ∷ s) ∷ rs) (o ∷ os) = ap suc (length-moved m rs os)

pub length-advance :
    (m i : ℕ) (bm : List ℕ) (rs : List Sig) → length (advance m i bm rs).1 ≡ length rs
unfolding advance
length-advance m i bm [] = refl
length-advance m i bm ([] ∷ rs) = ap suc (length-advance m (suc i) bm rs)
length-advance m i bm ((x ∷ s) ∷ rs) = ap suc (length-advance m (suc i) _ rs)
