-- ===== src/Text/Examples.antt =====
-- Texts and signatures at concrete values.
use xgossip.Prelude.{◌≡◌, [], ◌∷◌, true, refl}
use xgossip.Text.{
  Text, decimal_loop, is_delimiter, skip_delimiters, cut, tokens_from, tokenize, strtol,
  read_digits, read_tokens, string2sig, put_values, sig2str,
}
use xgossip.Text.Tokens.{ended, tokenize-ended}

-- "12-305-"
abbrev sample : Text
sample = b'1' ∷ b'2' ∷ b'-' ∷ b'3' ∷ b'0' ∷ b'5' ∷ b'-' ∷ []

sig2str_run : sig2str (12 ∷ 305 ∷ []) [] ≡ (true, sample)
unfolding sig2str put_values decimal_loop
sig2str_run = refl

string2sig_run : string2sig sample [] ≡ (true, 12 ∷ 305 ∷ [])
unfolding string2sig tokenize tokens_from skip_delimiters cut is_delimiter read_tokens strtol
    read_digits
string2sig_run = refl

-- "--a--" has one token.
tokenize_run : tokenize (b'-' ∷ b'-' ∷ b'a' ∷ b'-' ∷ b'-' ∷ []) (b'-' ∷ []) ≡ (b'a' ∷ []) ∷ []
unfolding tokenize tokens_from skip_delimiters cut is_delimiter
tokenize_run = refl

tokenize-ended_example :
    tokenize (b'a' ∷ b':' ∷ b'b' ∷ b':' ∷ []) (b':' ∷ []) ≡ (b'a' ∷ []) ∷ (b'b' ∷ []) ∷ []
unfolding ended is_delimiter
tokenize-ended_example =
    tokenize-ended (b':' ∷ []) b':' ((b'a' ∷ []) ∷ (b'b' ∷ []) ∷ []) refl
      (((λ h. cc), (refl, tt)), (((λ h. cc), (refl, tt)), tt))
