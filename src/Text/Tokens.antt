-- ===== src/Text/Tokens.antt =====
-- `tokenize` of chord-0.1-vasil/tools/gpsi.C takes a text apart at the delimiters.
use xgossip.Prelude.{
  ℕ, zero, suc, ◌≤◌, ◌≡◌, ◌≢◌, refl, ap, ◌∙◌, List, [], ◌∷◌, ◌++◌, true, false, length,
  length-append, All, arith,
}
use xgossip.Text.{Text, is_delimiter, skip_delimiters, cut, tokens_from, tokenize}

module _ (ds : Text) where
  -- A token has a character, and no delimiter.
  abbrev pub IsToken : Text → Type 0
  IsToken t = (t ≢ []) × All (λ c. is_delimiter ds c ≡ false) t

  -- Each token with a delimiter behind it.
  unfoldable pub ended : ℕ → List Text → Text
  ended e [] = []
  ended e (t ∷ ts) = t ++ (e ∷ ended e ts)

  module _ (e : ℕ) (end : is_delimiter ds e ≡ true) where
    cut-token :
        (t rest : Text)
        → All (λ c. is_delimiter ds c ≡ false) t
        → cut ds (t ++ (e ∷ rest)) ≡ (t, e ∷ rest)
    unfolding cut
    cut-token [] rest a = rw end refl
    cut-token (c ∷ t) rest a =
        rw a.0 (ap (λ (z : Text × Text). (c ∷ z.0, z.1)) (cut-token t rest a.1))

    -- A text of tokens does not start with a delimiter.
    skip-ended : (ts : List Text) → All IsToken ts → skip_delimiters ds (ended e ts) ≡ ended e ts
    unfolding skip_delimiters ended
    skip-ended [] a = refl
    skip-ended ([] ∷ ts) a = absurd (a.0.0 refl)
    skip-ended ((c ∷ t) ∷ ts) a = rw (a.0.1.0) refl

    skip_end : (ts : List Text) → All IsToken ts → skip_delimiters ds (e ∷ ended e ts) ≡ ended e ts
    unfolding skip_delimiters
    skip_end ts a = rw end (skip-ended ts a)

    tokens_from-ended :
        (fuel : ℕ) (ts : List Text)
        → All IsToken ts
        → length (ended e ts) ≤ fuel
        → tokens_from fuel ds (ended e ts) ≡ ts
    unfolding tokens_from ended
    tokens_from-ended zero [] a l = refl
    tokens_from-ended zero (t ∷ ts) a l =
        absurd (omega (arith, length-append {0} t (e ∷ ended e ts)))
    tokens_from-ended (suc fuel) [] a l = refl
    tokens_from-ended (suc fuel) ([] ∷ ts) a l = absurd (a.0.0 refl)
    tokens_from-ended (suc fuel) ((c ∷ t) ∷ ts) a l =
        let all = cut-token (c ∷ t) (ended e ts) a.0.1 in
        ap (λ (z : Text × Text). z.0 ∷ tokens_from fuel ds (skip_delimiters ds z.1)) all
        ∙ ap (λ z. (c ∷ t) ∷ tokens_from fuel ds z) (skip_end ts a.1)
        ∙ ap (λ z. (c ∷ t) ∷ z)
            (tokens_from-ended fuel ts a.1 (omega (arith, length-append {0} t (e ∷ ended e ts))))

-- Tokens that are not empty and have no delimiter in them are what `tokenize` finds in the text that
-- has a delimiter behind each.
pub tokenize-ended :
    (ds : Text) (e : ℕ) (ts : List Text)
    → is_delimiter ds e ≡ true
    → All (IsToken ds) ts
    → tokenize (ended ds e ts) ds ≡ ts
unfolding tokenize
tokenize-ended ds e ts h a =
    ap (tokens_from (length (ended ds e ts)) ds) (skip-ended ds e h ts a)
    ∙ tokens_from-ended ds e h (length (ended ds e ts)) ts a (omega arith)

module _ (ds : Text) where
  -- Tokens with a delimiter behind each, and a last one without.
  unfoldable pub listed_with : ℕ → List Text → Text → Text
  listed_with e [] last = last
  listed_with e (t ∷ ts) last = t ++ (e ∷ listed_with e ts last)

  cut_last : (t : Text) → All (λ c. is_delimiter ds c ≡ false) t → cut ds t ≡ (t, [])
  unfolding cut
  cut_last [] a = refl
  cut_last (c ∷ t) a = rw a.0 (ap (λ (z : Text × Text). (c ∷ z.0, z.1)) (cut_last t a.1))

  skip_first :
      (e : ℕ) (ts : List Text) (last : Text)
      → All (IsToken ds) ts
      → IsToken ds last
      → skip_delimiters ds (listed_with e ts last) ≡ listed_with e ts last
  unfolding skip_delimiters listed_with
  skip_first e [] [] a b = refl
  skip_first e [] (c ∷ t) a b = rw b.1.0 refl
  skip_first e ([] ∷ ts) last a b = absurd (a.0.0 refl)
  skip_first e ((c ∷ t) ∷ ts) last a b = rw a.0.1.0 refl

  skip_next :
      (e : ℕ) (ts : List Text) (last : Text)
      → is_delimiter ds e ≡ true
      → All (IsToken ds) ts
      → IsToken ds last
      → skip_delimiters ds (e ∷ listed_with e ts last) ≡ listed_with e ts last
  unfolding skip_delimiters
  skip_next e ts last h a b = rw h (skip_first e ts last a b)

  nothing_left : (fuel : ℕ) → tokens_from fuel ds [] ≡ []
  unfolding tokens_from
  nothing_left zero = refl
  nothing_left (suc fuel) = refl

  skip_nothing : skip_delimiters ds [] ≡ []
  unfolding skip_delimiters
  skip_nothing = refl

  tokens_from-listed_with :
      (e fuel : ℕ) (ts : List Text) (last : Text)
      → is_delimiter ds e ≡ true
      → All (IsToken ds) ts
      → IsToken ds last
      → length (listed_with e ts last) ≤ fuel
      → tokens_from fuel ds (listed_with e ts last) ≡ ts ++ last ∷ []
  unfolding tokens_from listed_with
  tokens_from-listed_with e fuel [] [] h a b l = absurd (b.0 refl)
  tokens_from-listed_with e zero [] (c ∷ t) h a b l = absurd (omega arith)
  tokens_from-listed_with e (suc fuel) [] (c ∷ t) h a b l =
      ap (λ (z : Text × Text). z.0 ∷ tokens_from fuel ds (skip_delimiters ds z.1))
        (cut_last (c ∷ t) b.1)
      ∙ ap (λ z. (c ∷ t) ∷ z) (ap (tokens_from fuel ds) skip_nothing ∙ nothing_left fuel)
  tokens_from-listed_with e zero (t ∷ ts) last h a b l =
      absurd (omega (arith, length-append {0} t (e ∷ listed_with e ts last)))
  tokens_from-listed_with e (suc fuel) ([] ∷ ts) last h a b l = absurd (a.0.0 refl)
  tokens_from-listed_with e (suc fuel) ((c ∷ t) ∷ ts) last h a b l =
      ap (λ (z : Text × Text). z.0 ∷ tokens_from fuel ds (skip_delimiters ds z.1))
        (cut-token ds e h (c ∷ t) (listed_with e ts last) a.0.1)
      ∙ ap (λ z. (c ∷ t) ∷ tokens_from fuel ds z) (skip_next e ts last h a.1 b)
      ∙ ap (λ z. (c ∷ t) ∷ z)
          (tokens_from-listed_with e fuel ts last h a.1 b
            (omega (arith, length-append {0} t (e ∷ listed_with e ts last))))

  -- The same for a text that ends in a token.
  pub tokenize-listed_with :
      (e : ℕ) (ts : List Text) (last : Text)
      → is_delimiter ds e ≡ true
      → All (IsToken ds) ts
      → IsToken ds last
      → tokenize (listed_with e ts last) ds ≡ ts ++ last ∷ []
  unfolding tokenize
  tokenize-listed_with e ts last h a b =
      ap (tokens_from (length (listed_with e ts last)) ds) (skip_first e ts last a b)
      ∙ tokens_from-listed_with e (length (listed_with e ts last)) ts last h a b (omega arith)
