-- ===== src/Sig/Order.antt =====
-- `sigcmp` is the strict order that the maps keyed by signatures rely on, and `samesig` decides
-- equality.
use xgossip.Prelude.{◌≡◌, ◌↔◌, ◌⊎◌, refl, [], ◌∷◌, some, true, false, arith, length}
use xgossip.Sig.{Sig, same_elems, samesig, lex_less, sigcmp, all_nonzero, validsig, inverse}

same_elems→eq : (s t : Sig) → length s ≡ length t → same_elems s t ≡ true → s ≡ t
unfolding same_elems
same_elems→eq [] [] e h = refl
same_elems→eq [] (y ∷ t) e h = absurd (omega arith)
same_elems→eq (x ∷ s) [] e h = absurd (omega arith)
same_elems→eq (x ∷ s) (y ∷ t) e h = ground (arith, same_elems→eq s t)

same_elems_refl : (s : Sig) → same_elems s s ≡ true
unfolding same_elems
same_elems_refl [] = refl
same_elems_refl (x ∷ s) = ground (arith, same_elems_refl s)

-- `samesig` answers true exactly when the two signatures are the same list.
pub samesig-iff_eq : (s t : Sig) → (samesig s t ≡ true) ↔ (s ≡ t)
unfolding samesig
samesig-iff_eq s t =
    (λ h. ground (arith, same_elems→eq s t), λ e. ground (arith, same_elems_refl s))

lex_less_irrefl : (s : Sig) → lex_less s s ≡ false
unfolding lex_less
lex_less_irrefl [] = refl
lex_less_irrefl (x ∷ s) = ground (arith, lex_less_irrefl s)

lex_less_trans : (s t u : Sig) → lex_less s t ≡ true → lex_less t u ≡ true → lex_less s u ≡ true
unfolding lex_less
lex_less_trans [] t u h k = ground arith
lex_less_trans (x ∷ s) [] u h k = ground arith
lex_less_trans (x ∷ s) (y ∷ t) [] h k = ground arith
lex_less_trans (x ∷ s) (y ∷ t) (z ∷ u) h k = ground (arith, lex_less_trans s t u)

lex_less_total :
    (s t : Sig) → length s ≡ length t → (lex_less s t ≡ true) ⊎ (s ≡ t) ⊎ (lex_less t s ≡ true)
unfolding lex_less
lex_less_total [] [] e = ground arith
lex_less_total [] (y ∷ t) e = absurd (omega arith)
lex_less_total (x ∷ s) [] e = absurd (omega arith)
lex_less_total (x ∷ s) (y ∷ t) e = ground (arith, lex_less_total s t)

pub sigcmp_irrefl : (s : Sig) → sigcmp s s ≡ false
unfolding sigcmp
sigcmp_irrefl s = ground (arith, lex_less_irrefl s)

pub sigcmp_trans : (s t u : Sig) → sigcmp s t ≡ true → sigcmp t u ≡ true → sigcmp s u ≡ true
unfolding sigcmp
sigcmp_trans s t u h k = ground (arith, lex_less_trans s t u)

-- Of two signatures one is below the other by `sigcmp`, unless they are the same list.
pub sigcmp_total : (s t : Sig) → (sigcmp s t ≡ true) ⊎ (s ≡ t) ⊎ (sigcmp t s ≡ true)
unfolding sigcmp
sigcmp_total s t = ground (arith, lex_less_total s t)

-- `sigcmp`, and so CompareSig, is a strict order: of signatures s, t and u with s below t and t below
-- u, s is below u, and neither u is below s nor s below itself.
pub sigcmp_strict_order :
    (s t u : Sig)
    → sigcmp s t ≡ true
    → sigcmp t u ≡ true
    → (sigcmp s u ≡ true) × (sigcmp u s ≡ false) × (sigcmp s s ≡ false)
sigcmp_strict_order s t u h k =
    let su = sigcmp_trans s t u h k in
    (su, ground (arith, sigcmp_trans s u s su, sigcmp_irrefl s), sigcmp_irrefl s)

-- For a valid signature, one that is not empty and has no zero, `inverse` gives the special
-- multiset with a zero in front, and `inverse` of that gives the signature back.
pub inverse-inverse :
    (s : Sig) → validsig s ≡ true → (inverse s ≡ some (0 ∷ s)) × (inverse (0 ∷ s) ≡ some s)
unfolding inverse validsig all_nonzero
inverse-inverse [] h = ground arith
inverse-inverse (x ∷ s) h = ground arith
