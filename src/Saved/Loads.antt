-- ===== src/Saved/Loads.antt =====
-- A saved state as it is read back, chord-0.1-vasil/tools/gpsi.C: loginitstate and loadinitstate.
use mathlib.Core.List.{append_assoc, append-nil}
use mathlib.Core.Path.{ap₂}
use mathlib.Core.Option
use xgossip.Prelude.{
  ℕ, ◌+◌, ◌^◌, ◌<◌, ◌≡◌, ◌≢◌, refl, sym, ap, ◌∙◌, List, [], ◌∷◌, ◌++◌, some, false, length, All,
  All-append, arith, ◌==◌, Bool-cases, inl, inr,
}
use xgossip.Doubles.{Doubles}
use xgossip.Scale.{Freqs, Vecomap}
use xgossip.Collect.{push_entries}
use xgossip.Collect.Unions.{Ascending}
use xgossip.Collect.Transport.{push_entries_again}
use xgossip.Init.{TeamIndex, InitState, push_index}
use xgossip.Text.{Text}
use xgossip.Saved.{
  Forms, joined, find_team_id, put_index, log_entries, log_lists, loginitstate, Loading, load_lines,
  finish_team, finished, loadinitstate,
}
use xgossip.Saved.Lines.{IsPlain, newline, ends, lines_from-ends}
use xgossip.Saved.Entries.{Writes, load_lines-log_entries, log_entries-ends}
use xgossip.Saved.Index.{Reads, load_tokens-put_index, put_index-IsPlain}

module _ (d : Doubles) (f : Forms d) where
  -- What the lists from index i on have to be for a round trip: each has a team, whose identifier
  -- is read again, and ascends.
  abbrev pub Saves : TeamIndex → ℕ → List (Vecomap d) → Type 0
  Saves index i [] = Unit
  Saves index i ([] ∷ vs) = ⊥
  Saves index i ((m ∷ ms) ∷ vs) =
      (i < 2 ^ 32)
      × (find_team_id i index ≢ 0)
      × Reads d f (find_team_id i index)
      × All (Writes d f) m
      × Ascending d m
      × Saves index (i + 1) vs

  -- The first lists, each as the only one of its team, and the index of as many teams.
  abbrev pub firsts : List (Vecomap d) → List (Vecomap d)
  firsts [] = []
  firsts ([] ∷ vs) = firsts vs
  firsts ((m ∷ ms) ∷ vs) = (m ∷ []) ∷ firsts vs

  unfoldable pub indexed : TeamIndex → ℕ → ℕ → List (Vecomap d) → TeamIndex → TeamIndex
  indexed index tsize i [] out = out
  indexed index tsize i (v ∷ vs) out =
      indexed index tsize (i + 1) vs (push_index (find_team_id i index) (tsize + i) out)

  -- The state of the loop with the list of a team read.
  abbrev with_list : TeamIndex → ℕ → ℕ → Freqs d → Loading d f → Loading d f
  with_list index tsize i m st = record (finish_team d f st) {
    teamindex = push_index (find_team_id i index) (tsize + i) st.teamindex;
    n = st.n + 1;
    team_id = find_team_id i index;
    unique = m;
  }

  not_zero : (n : ℕ) → n ≢ 0 → (n == 0) ≡ false
  not_zero n h = ground arith

  finish_with_list :
      (index : TeamIndex) (tsize i : ℕ) (m : Freqs d) (st : Loading d f)
      → ((finish_team d f (with_list index tsize i m st)).unique ≡ [])
        × ((finish_team d f (with_list index tsize i m st)).total
            ≡ (finish_team d f st).total ++ (m ∷ []) ∷ [])
  unfolding finish_team
  finish_with_list index tsize i m st =
      let more = not_zero (st.n + 1) (λ h. omega arith) in (rw more refl, rw more refl)

  ends-append : (ts us : List Text) → ends (ts ++ us) ≡ ends ts ++ ends us
  ends-append [] us = refl
  ends-append (t ∷ ts) us = ap (◌∷◌ (t ++ newline)) (ends-append ts us)

  load_list :
      (index : TeamIndex) (tsize i size : ℕ) (buf : Text) (m : Freqs d) (more : List Text)
      (st : Loading d f)
      → i < 2 ^ 32
      → Reads d f (find_team_id i index)
      → All (Writes d f) m
      → Ascending d m
      → (finish_team d f st).unique ≡ []
      → load_lines d f tsize
          (put_index d f i size (find_team_id i index) ∷ ((log_entries d f buf m).0 ++ more))
          st
        ≡ load_lines d f tsize more (with_list index tsize i m st)
  unfolding load_lines
  load_list index tsize i size buf m more st l r w o e =
      let id = find_team_id i index in
      rw (load_tokens-put_index d f tsize i size id st l r, load_lines)
        (load_lines-log_entries d f tsize m buf more _ w
          ∙ ap (λ z. load_lines d f tsize more (with_list index tsize i (push_entries d m z) st)) e
          ∙ ap (λ z. load_lines d f tsize more (with_list index tsize i z st))
              (push_entries_again d m o))

  -- The lines of all lists, and what is left when they are loaded.
  pub record Logged (index : TeamIndex) (tsize i : ℕ) (buf : Text) (vs : List (Vecomap d))
      (st : Loading d f) : Type 0 where
    pub texts : List Text
    pub loaded : Loading d f
    pub log : log_lists d f index i buf vs ≡ some (ends texts)
    pub plain : All IsPlain texts
    pub load : load_lines d f tsize (ends texts) st ≡ some loaded
    pub index_of : loaded.teamindex ≡ indexed index tsize i vs st.teamindex
    pub total_of : (finish_team d f loaded).total ≡ (finish_team d f st).total ++ firsts vs
    pub count_of : loaded.n ≡ st.n + length vs

  logged :
      (index : TeamIndex) (tsize i : ℕ) (buf : Text) (vs : List (Vecomap d)) (st : Loading d f)
      → Saves index i vs
      → (finish_team d f st).unique ≡ []
      → Logged index tsize i buf vs st
  unfolding log_lists load_lines indexed
  logged index tsize i buf [] st a e = record {
    texts = [];
    loaded = st;
    log = refl;
    plain = tt;
    load = refl;
    index_of = refl;
    total_of = sym (append-nil (finish_team d f st).total);
    count_of = omega arith;
  }
  logged index tsize i buf ([] ∷ vs) st a e = absurd a
  logged index tsize i buf ((m ∷ ms) ∷ vs) st a e =
      let (l, n, r, w, o, b) = a in
      let id = find_team_id i index in
      let (t, te, tp) = put_index-IsPlain d f i (length m) id r in
      let (ts, tse, tsp) = log_entries-ends d f m buf w in
      let st2 = with_list index tsize i m st in
      let rest =
        logged index tsize (i + 1) (log_entries d f buf m).1 vs st2 b
          (finish_with_list index tsize i m st).0 in
      let same : ends (t ∷ (ts ++ rest.texts))
          ≡ put_index d f i (length m) id ∷ ((log_entries d f buf m).0 ++ ends rest.texts) =
        ap₂ (◌∷◌) (sym te) (ends-append ts rest.texts ∙ ap (λ z. z ++ ends rest.texts) (sym tse)) in
      record {
        texts = t ∷ (ts ++ rest.texts);
        loaded = rest.loaded;
        log = rw (not_zero id n) (rw rest.log (ap some (sym same)));
        plain = (tp, All-append IsPlain ts rest.texts tsp rest.plain);
        load =
            ap (λ z. load_lines d f tsize z st) same
            ∙ load_list index tsize i (length m) buf m (ends rest.texts) st l r w o e
            ∙ rest.load;
        index_of = rest.index_of;
        total_of =
            rest.total_of
            ∙ ap (λ z. z ++ firsts vs) (finish_with_list index tsize i m st).1
            ∙ append_assoc (finish_team d f st).total ((m ∷ []) ∷ []) (firsts vs);
        count_of = rest.count_of ∙ omega arith;
      }

  finish_rest :
      (st : Loading d f)
      → ((finish_team d f st).teamindex ≡ st.teamindex) × ((finish_team d f st).n ≡ st.n)
  unfolding finish_team
  finish_rest st = elim (Bool-cases (st.n == 0)) [
    | inl h ↦ (rw h refl, rw h refl)
    | inr h ↦ (rw h refl, rw h refl)
  ]

  -- A state and the file that it is saved to, loaded on top of another state.
  pub record Restored (st old : InitState d) : Type 0 where
    pub file : Text
    pub saved : loginitstate d f st ≡ some file
    pub restored :
        loadinitstate d f file old
        ≡ some (
          record {
            teamindex = indexed st.teamindex (length old.total) 0 st.total old.teamindex;
            total = old.total ++ firsts st.total;
          },
          length st.total,
        )

-- What `loginitstate` writes is read back by `loadinitstate`: where every team has an identifier other
-- than 0 that is printed as it is read, and a first list that ascends, of signatures that are not
-- empty and of 32-bit values, with numbers that `%f` and `strtod` take there and back, the first
-- lists are added in order, each as the only one of a new index of its team, behind what the node
-- had, and their number is returned.
pub loadinitstate-loginitstate :
    (d : Doubles) (f : Forms d) (st old : InitState d)
    → Saves d f st.teamindex 0 st.total
    → Restored d f st old
unfolding loginitstate loadinitstate finish_team
loadinitstate-loginitstate d f st old a =
    let begin : Loading d f = record {
      teamindex = old.teamindex;
      total = old.total;
      unique = [];
      n = 0;
      team_id = 0;
    } in
    let g = logged d f st.teamindex (length old.total) 0 [] st.total begin a refl in
    record {
      file = joined (ends g.texts);
      saved = rw g.log refl;
      restored =
          ap (λ ls. Option.map (finished d f) (load_lines d f (length old.total) ls begin))
            (lines_from-ends (length (joined (ends g.texts))) g.texts g.plain (omega arith))
          ∙ ap (Option.map (finished d f)) g.load
          ∙ ap₂ (λ q n. some (q, n))
              (ap₂ (λ i t. record { teamindex = i; total = t })
                ((finish_rest d f g.loaded).0 ∙ g.index_of) g.total_of)
              ((finish_rest d f g.loaded).1 ∙ g.count_of ∙ omega arith);
    }
