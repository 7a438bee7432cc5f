-- ===== src/Saved/Entries.antt =====
-- The lines of a saved list as they are read back, chord-0.1-vasil/tools/gpsi.C: loginitstate and
-- loadinitstate.
use mathlib.Core.List.{append_assoc}
use mathlib.Core.Path.{subst, ap₂}
use xgossip.Prelude.{
  ℕ, ◌^◌, ◌<◌, ◌≤◌, ◌≡◌, ◌≢◌, refl, sym, ap, ◌∙◌, List, [], ◌∷◌, ◌++◌, some, Bool, false, All,
  All-append, arith, ◌==◌, Bool-cases, inl, inr,
}
use xgossip.Doubles.{Doubles}
use xgossip.Scale.{Pair, Freqs}
use xgossip.Sig.{Sig, samesig}
use xgossip.Sig.Order.{samesig-iff_eq}
use xgossip.Table.{push_pair}
use xgossip.Collect.{push_entries}
use xgossip.Text.{Text, decimal, is_delimiter, tokenize, put_values, sig2str, string2sig}
use xgossip.Text.Decimal.{IsDigit, decimal_loop-IsDigit, decimal_loop_some}
use xgossip.Text.Tokens.{IsToken, listed_with, tokenize-listed_with}
use xgossip.Text.Signature.{some_values, string2sig-sig2str}
use xgossip.Saved.{
  Forms, index_word, put_entry, log_entries, Loading, load_tokens, load_entry, load_lines,
}
use xgossip.Saved.Lines.{IsPlain, newline, ends}

abbrev pub colon : Text
colon = b':' ∷ []

sig2str_some : (s : Sig) (buf : Text) → s ≢ [] → (sig2str s buf).1 ≡ put_values s
unfolding sig2str
sig2str_some [] buf h = absurd (h refl)
sig2str_some (x ∷ s) buf h = refl

put_values_some : (s : Sig) → s ≢ [] → put_values s ≢ []
put_values_some [] h = absurd (h refl)
put_values_some (x ∷ s) h = some_values x s

-- A signature's text, read.
string2sig_again :
    (s : Sig) → s ≢ [] → All (λ x. x < 2 ^ 32) s → (string2sig (put_values s) []).1 ≡ s
string2sig_again s h a =
    let (t, e, g) = string2sig-sig2str s [] [] h a in
    ap (λ z. (string2sig z []).1) (sym (sig2str_some s [] h) ∙ ap (λ (z : Bool × Text). z.1) e)
    ∙ ap (λ (z : Bool × Sig). z.1) g

-- Characters of numbers and signatures: digits and dashes.
abbrev IsLow : ℕ → Type 0
IsLow c = (45 ≤ c) × (c ≤ 57)

IsDigit-IsLow : (s : Text) → All IsDigit s → All IsLow s
IsDigit-IsLow [] a = tt
IsDigit-IsLow (c ∷ s) a = (omega arith, IsDigit-IsLow s a.1)

put_values-IsLow : (s : Sig) → All IsLow (put_values s)
unfolding put_values
put_values-IsLow [] = tt
put_values-IsLow (x ∷ s) =
    All-append IsLow (decimal x) (b'-' ∷ put_values s)
      (IsDigit-IsLow (decimal x) (decimal_loop-IsDigit 20 x)) (omega arith, put_values-IsLow s)

IsLow-IsPlain : (s : Text) → All IsLow s → IsPlain s
IsLow-IsPlain [] a = tt
IsLow-IsPlain (c ∷ s) a = (ground arith, IsLow-IsPlain s a.1)

no_colon : (s : Text) → All IsLow s → All (λ c. is_delimiter colon c ≡ false) s
unfolding is_delimiter
no_colon [] a = tt
no_colon (c ∷ s) a = (ground arith, no_colon s a.1)

IsLow-IsToken : (s : Text) → s ≢ [] → All IsLow s → IsToken colon s
IsLow-IsToken s h a = (h, no_colon s a)

pub decimal-IsToken : (n : ℕ) → IsToken colon (decimal n)
decimal-IsToken n =
    IsLow-IsToken (decimal n) (decimal_loop_some 19 n)
      (IsDigit-IsLow (decimal n) (decimal_loop-IsDigit 20 n))

pub decimal-IsPlain : (n : ℕ) → IsPlain (decimal n)
decimal-IsPlain n =
    IsLow-IsPlain (decimal n) (IsDigit-IsLow (decimal n) (decimal_loop-IsDigit 20 n))

-- A token at the end of a line.
pub append-IsToken : (s : Text) → IsToken colon s → IsToken colon (s ++ newline)
unfolding is_delimiter
append-IsToken [] a = absurd (a.0 refl)
append-IsToken (c ∷ s) a =
    (λ h. cc, All-append (λ c. is_delimiter colon c ≡ false) (c ∷ s) newline a.1 (refl, tt))

index_high : ¬ All IsLow index_word
index_high a = omega arith

not_index : (s : Text) → All IsLow s → samesig s index_word ≡ false
not_index s a = elim (Bool-cases (samesig s index_word)) [
  | inl h ↦ absurd (index_high (subst (All IsLow) ((samesig-iff_eq s index_word).0 h) a))
  | inr h ↦ h
]

module _ (d : Doubles) (f : Forms d) where
  -- A number that `%f` and `strtod` take there and back, also before the end of a line.
  abbrev pub Prints : d.Double → Type 0
  Prints x =
      IsToken colon (f.put_double x)
      × IsPlain (f.put_double x)
      × (f.strtod (f.put_double x) ≡ x)
      × (f.strtod (f.put_double x ++ newline) ≡ x)

  -- An entry with a signature of 32-bit values and such numbers.
  abbrev pub Writes : Sig × Pair d → Type 0
  Writes e = (e.0 ≢ []) × All (λ x. x < 2 ^ 32) e.0 × Prints e.1.0 × Prints e.1.1

  put_entry-tokens :
      (s : Text) (p : Pair d)
      → IsToken colon s
      → Prints p.0
      → Prints p.1
      → tokenize (put_entry d f s p) colon
        ≡ s ∷ f.put_double p.0 ∷ (f.put_double p.1 ++ newline) ∷ []
  unfolding put_entry listed_with is_delimiter
  put_entry-tokens s p t a b =
      tokenize-listed_with colon b':' (s ∷ f.put_double p.0 ∷ []) (f.put_double p.1 ++ newline) refl
        (t, (a.0, tt)) (append-IsToken (f.put_double p.1) b.0)

  -- The text of an entry is read as that entry.
  pub load_tokens-put_entry :
      (tsize : ℕ) (s : Sig) (p : Pair d) (buf : Text) (st : Loading d f)
      → Writes (s, p)
      → load_tokens d f tsize (tokenize (put_entry d f (sig2str s buf).1 p) colon) st
        ≡ some (record st { unique = push_pair s p st.unique })
  unfolding load_tokens load_entry
  load_tokens-put_entry tsize s p buf st a =
      let text = put_values s in
      let low = put_values-IsLow s in
      let token = IsLow-IsToken text (put_values_some s a.0) low in
      ap (λ z. load_tokens d f tsize (tokenize (put_entry d f z p) colon) st)
        (sig2str_some s buf a.0)
      ∙ ap (λ z. load_tokens d f tsize z st) (put_entry-tokens text p token a.2 a.3)
      ∙ rw (not_index text low) (
          ap₂ (λ k v. some (record st { unique = push_pair k v st.unique }))
            (string2sig_again s a.0 a.1) (ap₂ (λ x y. (x, y)) a.2.2 a.3.3))

  put_entry-IsPlain :
      (s : Sig) (p : Pair d) (buf : Text)
      → Writes (s, p)
      → (t : Text) × (put_entry d f (sig2str s buf).1 p ≡ t ++ newline) × IsPlain t
  unfolding put_entry
  put_entry-IsPlain s p buf a = (
    put_values s ++ (b':' ∷ (f.put_double p.0 ++ (b':' ∷ f.put_double p.1))),
    rw (sig2str_some s buf a.0) (simp append_assoc refl),
    All-append (λ c. (c == b'\n') ≡ false) (put_values s)
        (b':' ∷ (f.put_double p.0 ++ (b':' ∷ f.put_double p.1)))
        (IsLow-IsPlain (put_values s) (put_values-IsLow s))
        (
          refl,
          All-append (λ c. (c == b'\n') ≡ false) (f.put_double p.0) (b':' ∷ f.put_double p.1) a.2.1
              (refl, a.3.1),
        ),
  )

  -- The lines of the entries are read as the entries, in turn.
  pub load_lines-log_entries :
      (tsize : ℕ) (m : Freqs d) (buf : Text) (more : List Text) (st : Loading d f)
      → All Writes m
      → load_lines d f tsize ((log_entries d f buf m).0 ++ more) st
        ≡ load_lines d f tsize more (record st { unique = push_entries d m st.unique })
  unfolding load_lines log_entries push_entries
  load_lines-log_entries tsize [] buf more st a = refl
  load_lines-log_entries tsize ((s, p) ∷ m) buf more st a =
      rw (load_tokens-put_entry tsize s p buf st a.0, load_lines)
        (load_lines-log_entries tsize m (sig2str s buf).1 more
          (record st { unique = push_pair s p st.unique }) a.1)

  -- They are lines.
  pub log_entries-ends :
      (m : Freqs d) (buf : Text)
      → All Writes m
      → (ts : List Text) × ((log_entries d f buf m).0 ≡ ends ts) × All IsPlain ts
  unfolding log_entries
  log_entries-ends [] buf a = ([], refl, tt)
  log_entries-ends ((s, p) ∷ m) buf a =
      let (t, e, q) = put_entry-IsPlain s p buf a.0 in
      let (ts, es, qs) = log_entries-ends m (sig2str s buf).1 a.1 in
      (t ∷ ts, ap₂ (◌∷◌) e es, (q, qs))
