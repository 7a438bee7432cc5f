-- ===== src/Saved/Lines.antt =====
-- The lines of a file, chord-0.1-vasil/tools/gpsi.C: getline in loadinitstate.
use mathlib.Core.List.{append_assoc}
use xgossip.Prelude.{
  ℕ, zero, suc, ◌≤◌, ◌≡◌, ◌≢◌, refl, ap, ◌∙◌, List, [], ◌∷◌, ◌++◌, false, length, length-append,
  All, arith, ◌==◌,
}
use xgossip.Text.{Text}
use xgossip.Saved.{joined, get_line, lines_from}

-- Text without the end of a line.
abbrev pub IsPlain : Text → Type 0
IsPlain = All (λ c. (c == b'\n') ≡ false)

abbrev pub newline : Text
newline = b'\n' ∷ []

get_line-plain : (s rest : Text) → IsPlain s → get_line (s ++ (b'\n' ∷ rest)) ≡ (s ++ newline, rest)
unfolding get_line
get_line-plain [] rest a = refl
get_line-plain (c ∷ s) rest a =
    rw a.0 (ap (λ (z : Text × Text). (c ∷ z.0, z.1)) (get_line-plain s rest a.1))

-- Plain texts, each with the end of a line behind it.
abbrev pub ends : List Text → List Text
ends [] = []
ends (s ∷ ss) = (s ++ newline) ∷ ends ss

lines_from-more :
    (fuel : ℕ) (s : Text)
    → s ≢ []
    → lines_from (suc fuel) s ≡ (get_line s).0 ∷ lines_from fuel (get_line s).1
unfolding lines_from
lines_from-more fuel [] h = absurd (h refl)
lines_from-more fuel (c ∷ s) h = refl

line_some : (s rest : Text) → (s ++ (b'\n' ∷ rest)) ≢ []
line_some [] rest h = cc
line_some (c ∷ s) rest h = cc

-- The lines of a file are those that were written to it.
pub lines_from-ends :
    (fuel : ℕ) (ss : List Text)
    → All IsPlain ss
    → length (joined (ends ss)) ≤ fuel
    → lines_from fuel (joined (ends ss)) ≡ ends ss
unfolding lines_from
lines_from-ends zero [] a l = refl
lines_from-ends (suc fuel) [] a l = refl
lines_from-ends zero (s ∷ ss) a l = absurd (
    omega (arith, length-append {0} (s ++ newline) (joined (ends ss)), length-append {0} s newline))
lines_from-ends (suc fuel) (s ∷ ss) a l =
    let rest = joined (ends ss) in
    ap (lines_from (suc fuel)) (append_assoc s newline rest)
    ∙ lines_from-more fuel (s ++ (b'\n' ∷ rest)) (line_some s rest)
    ∙ ap (λ (z : Text × Text). z.0 ∷ lines_from fuel z.1) (get_line-plain s rest a.0)
    ∙ ap (λ z. (s ++ newline) ∷ z)
        (lines_from-ends fuel ss a.1
          (omega (arith, length-append {0} (s ++ newline) rest, length-append {0} s newline)))
