-- ===== src/Text/Signature.antt =====
-- The text of a signature, chord-0.1-vasil/tools/gpsi.C: sig2str and string2sig.
use xgossip.Prelude.{
  ℕ, ◌^◌, ◌<◌, ◌≡◌, ◌≢◌, refl, ap, ◌∙◌, [], ◌∷◌, ◌++◌, true, false, All, arith, map,
}
use xgossip.Sig.{Sig}
use xgossip.Text.{
  Text, decimal, is_delimiter, tokenize, read_tokens, string2sig, put_values, sig2str,
}
use xgossip.Text.Decimal.{IsDigit, decimal_loop_some, decimal_loop-IsDigit, strtol-decimal}
use xgossip.Text.Tokens.{IsToken, ended, tokenize-ended}

abbrev dash : Text
dash = b'-' ∷ []

no_dash : (s : Text) → All IsDigit s → All (λ c. is_delimiter dash c ≡ false) s
unfolding is_delimiter
no_dash [] a = tt
no_dash (c ∷ s) a = (ground arith, no_dash s a.1)

pub decimals-IsToken : (s : Sig) → All (IsToken dash) (map decimal s)
decimals-IsToken [] = tt
decimals-IsToken (x ∷ s) =
    ((decimal_loop_some 19 x, no_dash (decimal x) (decimal_loop-IsDigit 20 x)), decimals-IsToken s)

put_values-ended : (s : Sig) → put_values s ≡ ended dash b'-' (map decimal s)
unfolding put_values ended
put_values-ended [] = refl
put_values-ended (x ∷ s) = ap (λ z. decimal x ++ (b'-' ∷ z)) (put_values-ended s)

read_tokens-decimal : (s : Sig) → All (λ x. x < 2 ^ 32) s → read_tokens (map decimal s) ≡ s
unfolding read_tokens
read_tokens-decimal [] a = refl
read_tokens-decimal (x ∷ s) a =
    ap (λ y. y ∷ read_tokens (map decimal s)) (strtol-decimal x a.0)
    ∙ ap (λ z. x ∷ z) (read_tokens-decimal s a.1)

string2sig_some :
    (t : Text) (old : Sig)
    → t ≢ []
    → string2sig t old ≡ (true, old ++ read_tokens (tokenize t dash))
unfolding string2sig
string2sig_some [] old h = absurd (h refl)
string2sig_some (c ∷ t) old h = refl

append_some : (t u : Text) → t ≢ [] → (t ++ u) ≢ []
append_some [] u h e = h refl
append_some (c ∷ t) u h e = cc

pub some_values : (x : ℕ) (s : Sig) → put_values (x ∷ s) ≢ []
unfolding put_values
some_values x s = append_some (decimal x) (b'-' ∷ put_values s) (decimal_loop_some 19 x)

dash_ends : is_delimiter dash b'-' ≡ true
unfolding is_delimiter
dash_ends = refl

-- The text that `sig2str` makes of a signature that is not empty, of 32-bit values, is read back by
-- `string2sig`, behind what the signature had before; both return true.
pub string2sig-sig2str :
    (s old : Sig) (buf : Text)
    → s ≢ []
    → All (λ x. x < 2 ^ 32) s
    → (t : Text) × (sig2str s buf ≡ (true, t)) × (string2sig t old ≡ (true, old ++ s))
unfolding sig2str
string2sig-sig2str [] old buf n a = absurd (n refl)
string2sig-sig2str (x ∷ s) old buf n a = (
  put_values (x ∷ s),
  refl,
  string2sig_some (put_values (x ∷ s)) old (some_values x s)
      ∙ ap (λ t. (true, old ++ read_tokens (tokenize t dash))) (put_values-ended (x ∷ s))
      ∙ ap (λ ts. (true, old ++ read_tokens ts))
          (tokenize-ended dash b'-' (map decimal (x ∷ s)) dash_ends (decimals-IsToken (x ∷ s)))
      ∙ ap (λ z. (true, old ++ z)) (read_tokens-decimal (x ∷ s) a),
)
