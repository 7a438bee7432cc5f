-- ===== src/Saved/Index.antt =====
-- The line of a team in a saved state, chord-0.1-vasil/tools/gpsi.C: loginitstate and loadinitstate.
use mathlib.Core.List.{append_assoc}
use mathlib.Core.Path.{ap₂}
use xgossip.Prelude.{
  ℕ, ◌+◌, ◌^◌, ◌<◌, ◌≡◌, refl, ap, ◌∙◌, [], ◌∷◌, ◌++◌, some, Bool, true, false, All-append, ◌==◌,
}
use xgossip.Doubles.{Doubles}
use xgossip.Sig.Order.{samesig-iff_eq}
use xgossip.Ring.Hex.{str2chord_id}
use xgossip.Init.{push_index}
use xgossip.Text.{Text, decimal, is_delimiter, tokenize}
use xgossip.Text.Decimal.{strtol-decimal}
use xgossip.Text.Tokens.{IsToken, listed_with, tokenize-listed_with}
use xgossip.Saved.{
  Forms, index_word, listsize_word, team_word, put_index, Loading, load_tokens, load_index, last_of,
  strip_last, finish_team,
}
use xgossip.Saved.Lines.{IsPlain, newline}
use xgossip.Saved.Entries.{colon, append-IsToken, decimal-IsToken, decimal-IsPlain}

module _ (d : Doubles) (f : Forms d) where
  -- An identifier that is printed in a form that `str2chordID` reads.
  abbrev pub Reads : ℕ → Type 0
  Reads id =
      IsToken colon (f.put_id id)
      × IsPlain (f.put_id id)
      × ((old : ℕ) → str2chord_id (f.put_id id) old ≡ (true, id))

  strip_last-newline : (s : Text) → strip_last (s ++ newline) ≡ s
  unfolding strip_last
  strip_last-newline [] = refl
  strip_last-newline (c ∷ []) = refl
  strip_last-newline (c ∷ e ∷ s) = ap (◌∷◌ c) (strip_last-newline (e ∷ s))

  put_index-tokens :
      (i size id : ℕ)
      → Reads id
      → tokenize (put_index d f i size id) colon
        ≡ index_word
          ∷ decimal i
          ∷ listsize_word
          ∷ decimal size
          ∷ team_word
          ∷ (f.put_id id ++ newline)
          ∷ []
  unfolding put_index listed_with is_delimiter
  put_index-tokens i size id r =
      tokenize-listed_with colon b':'
        (index_word ∷ decimal i ∷ listsize_word ∷ decimal size ∷ team_word ∷ [])
        (f.put_id id ++ newline) refl
        (word_token, (decimal-IsToken i, (size_token, (decimal-IsToken size, (team_token, tt)))))
        (append-IsToken (f.put_id id) r.0)
    where
      word_token : IsToken colon index_word
      word_token = ((λ h. cc), (refl, (refl, (refl, (refl, (refl, tt))))))

      size_token : IsToken colon listsize_word
      size_token = ((λ h. cc), (refl, (refl, (refl, (refl, (refl, (refl, (refl, (refl, tt)))))))))

      team_token : IsToken colon team_word
      team_token = ((λ h. cc), (refl, (refl, (refl, (refl, (refl, (refl, tt)))))))

  -- The line of an index starts a list.
  pub load_tokens-put_index :
      (tsize i size id : ℕ) (st : Loading d f)
      → i < 2 ^ 32
      → Reads id
      → load_tokens d f tsize (tokenize (put_index d f i size id) colon) st
        ≡ some (record (finish_team d f st) {
          teamindex = push_index id (tsize + i) st.teamindex;
          n = st.n + 1;
          team_id = id;
        })
  unfolding load_tokens load_index last_of
  load_tokens-put_index tsize i size id st l r =
      ap (λ z. load_tokens d f tsize z st) (put_index-tokens i size id r)
      ∙ rw ((samesig-iff_eq index_word index_word).1 refl) (
          ap₂
            (λ k x. some (record (finish_team d f st) {
              teamindex = push_index x (tsize + k) st.teamindex;
              n = st.n + 1;
              team_id = x;
            }))
            (strtol-decimal i l)
            (ap (λ z. (str2chord_id z st.team_id).1) (strip_last-newline (f.put_id id))
              ∙ ap (λ (z : Bool × ℕ). z.1) (r.2 st.team_id)))

  pub put_index-IsPlain :
      (i size id : ℕ) → Reads id → (t : Text) × (put_index d f i size id ≡ t ++ newline) × IsPlain t
  unfolding put_index
  put_index-IsPlain i size id r = (
    index_word
        ++ (b':'
            ∷ (decimal i
                ++ (b':'
                    ∷ (listsize_word
                        ++ (b':'
                            ∷ (decimal size ++ (b':' ∷ (team_word ++ (b':' ∷ f.put_id id))))))))),
    simp append_assoc refl,
    (
      refl,
      (
        refl,
        (
          refl,
          (
            refl,
            (
              refl,
              (
                refl,
                All-append (λ c. (c == b'\n') ≡ false) (decimal i) _ (decimal-IsPlain i)
                    (
                      refl,
                      (
                        refl,
                        (
                          refl,
                          (
                            refl,
                            (
                              refl,
                              (
                                refl,
                                (
                                  refl,
                                  (
                                    refl,
                                    (
                                      refl,
                                      (
                                        refl,
                                        All-append (λ c. (c == b'\n') ≡ false) (decimal size) _
                                            (decimal-IsPlain size)
                                            (
                                              refl,
                                              (
                                                refl,
                                                (refl, (refl, (refl, (refl, (refl, (refl, r.1)))))),
                                              ),
                                            ),
                                      ),
                                    ),
                                  ),
                                ),
                              ),
                            ),
                          ),
                        ),
                      ),
                    ),
              ),
            ),
          ),
        ),
      ),
    ),
  )
