-- ===== src/Sig.antt =====
-- Signatures: `std::vector<POLY>` of chord-0.1-vasil/tools/gpsi.C, where a POLY is an unsigned int
-- and a signature is meant to be sorted. The comparisons of two signatures, the set operations on
-- them and the special multisets. An iterator is the suffix that is left to read.
pub mod Order
pub mod Count
pub mod Sets
mod Examples
use xgossip.Prelude.{
  ℕ, ◌+◌, List, [], ◌∷◌, Option, none, some, Bool, true, false, not, ltb, ◌==◌, if◌then◌else◌,
  length,
}

abbrev pub Sig : Type 0
Sig = List ℕ

-- `dummysig`, and `hldsig`, the first entry of every list of XGossip.
abbrev pub dummysig : Sig
dummysig = 1 ∷ []

abbrev pub hldsig : Sig
hldsig = 0 ∷ []

-- The loop of `samesig` over two signatures of one size.
unfoldable pub same_elems : Sig → Sig → Bool
same_elems (x ∷ s) (y ∷ t) = let rest = same_elems s t in if x == y then rest else false
same_elems s t = true

unfoldable pub samesig : Sig → Sig → Bool
unfolding same_elems
samesig s1 s2 = if length s1 == length s2 then same_elems s1 s2 else false

-- The loop of `sigcmp` over two signatures of one size.
pub lex_less : Sig → Sig → Bool
lex_less (x ∷ s) (y ∷ t) =
    let rest = lex_less s t in if ltb x y then true else if ltb y x then false else rest
lex_less s t = false

-- `sigcmp`, and `CompareSig::operator()` of utils.h, which has the same text.
unfoldable pub sigcmp : Sig → Sig → Bool
unfolding lex_less
sigcmp s1 s2 =
    if ltb (length s1) (length s2)
    then true
    else if length s1 == length s2
    then lex_less s1 s2
    else false

-- The loop of `validsig`.
pub all_nonzero : Sig → Bool
all_nonzero [] = true
all_nonzero (x ∷ s) = let rest = all_nonzero s in if x == 0 then false else rest

pub validsig : Sig → Bool
unfolding all_nonzero
validsig [] = false
validsig (x ∷ s) = all_nonzero (x ∷ s)

-- `inverse` reads `sig[0]`: an empty signature has none.
pub inverse : Sig → Option Sig
inverse [] = none
inverse (x ∷ s) = if x == 0 then some s else some (0 ∷ x ∷ s)
