-- ===== src/Saved.antt =====
-- The lists of a node saved between the phases, chord-0.1-vasil/tools/gpsi.C: `loginitstate` writes
-- them to a file and `loadinitstate` reads them back. A file is its text.
pub mod Lines
pub mod Entries
pub mod Index
pub mod Loads
mod Examples
use mathlib.Core.Option
use xgossip.Prelude.{
  ℕ, zero, suc, ◌+◌, ◌≡◌, List, [], ◌∷◌, ◌++◌, Option, none, some, Bool, true, false, ◌==◌, ◌||◌,
  if◌then◌else◌, length,
}
use xgossip.Doubles.{Doubles}
use xgossip.Scale.{Pair, Freqs, Vecomap}
use xgossip.Sig.{Sig, samesig}
use xgossip.Ring.Hex.{str2chord_id}
use xgossip.Table.{push_pair}
use xgossip.Init.{TeamIndex, InitState, push_index}
use xgossip.Text.{Text, decimal, strtol, tokenize, string2sig, sig2str}

-- What the C and the bigint libraries print and read: `%f`, `strtod` and `<<` of a chordID.
pub record Forms (d : Doubles) : Type 0 where
  pub put_double : d.Double → Text
  pub strtod : Text → d.Double
  pub put_id : ℕ → Text

-- "index", "listsize" and "teamID"
abbrev pub index_word : Text
index_word = b'i' ∷ b'n' ∷ b'd' ∷ b'e' ∷ b'x' ∷ []

abbrev pub listsize_word : Text
listsize_word = b'l' ∷ b'i' ∷ b's' ∷ b't' ∷ b's' ∷ b'i' ∷ b'z' ∷ b'e' ∷ []

abbrev pub team_word : Text
team_word = b't' ∷ b'e' ∷ b'a' ∷ b'm' ∷ b'I' ∷ b'D' ∷ []

unfoldable pub holds : ℕ → List ℕ → Bool
holds tix [] = false
holds tix (i ∷ is) = let rest = holds tix is in (i == tix) || rest

-- `findteamid`, where 0 is NULL
unfoldable pub find_team_id : ℕ → TeamIndex → ℕ
find_team_id tix [] = 0
find_team_id tix ((team, is) ∷ m) =
    let rest = find_team_id tix m in if holds tix is then team else rest

-- The text of a list of lines.
abbrev pub joined : List Text → Text
joined [] = []
joined (l ∷ ls) = l ++ joined ls

-- `getline`: up to the end of the line, and what is left.
unfoldable pub get_line : Text → Text × Text
get_line [] = ([], [])
get_line (c ∷ s) = let (l, rest) = get_line s in if c == b'\n' then (c ∷ [], s) else (c ∷ l, rest)

-- All lines, on fuel of one for each character.
unfoldable pub lines_from : ℕ → Text → List Text
lines_from zero s = []
lines_from (suc fuel) [] = []
lines_from (suc fuel) (c ∷ s) = let (l, rest) = get_line (c ∷ s) in l ∷ lines_from fuel rest

-- The last token, without its last character.
unfoldable pub last_of : Text → List Text → Text
last_of t [] = t
last_of t (u ∷ ts) = last_of u ts

unfoldable pub strip_last : Text → Text
strip_last [] = []
strip_last (c ∷ []) = []
strip_last (c ∷ e ∷ s) = c ∷ strip_last (e ∷ s)

module _ (d : Doubles) (f : Forms d) where
  -- A line of an index, and one of an entry with what `sigbuf` held.
  unfoldable pub put_index : ℕ → ℕ → ℕ → Text
  put_index i size id =
      index_word
      ++ (b':'
          ∷ (decimal i
              ++ (b':'
                  ∷ (listsize_word
                      ++ (b':'
                          ∷ (decimal size
                              ++ (b':' ∷ (team_word ++ (b':' ∷ (f.put_id id ++ b'\n' ∷ []))))))))))

  unfoldable pub put_entry : Text → Pair d → Text
  put_entry sigbuf p =
      sigbuf ++ (b':' ∷ (f.put_double p.0 ++ (b':' ∷ (f.put_double p.1 ++ b'\n' ∷ []))))

  -- The lines of the entries, and `sigbuf` after them.
  unfoldable pub log_entries : Text → Freqs d → List Text × Text
  log_entries sigbuf [] = ([], sigbuf)
  log_entries sigbuf ((s, p) ∷ m) =
      let buf = (sig2str s sigbuf).1 in
      let (ls, last) = log_entries buf m in (put_entry buf p ∷ ls, last)

  -- The lines of the lists from index i on; a vecomap without a list is read out of bounds, if it
  -- has a team.
  unfoldable pub log_lists : TeamIndex → ℕ → Text → List (Vecomap d) → Option (List Text)
  log_lists index i sigbuf [] = some []
  log_lists index i sigbuf ([] ∷ vs) =
      let rest = log_lists index (i + 1) sigbuf vs in
      if find_team_id i index == 0 then rest else none
  log_lists index i sigbuf ((m ∷ ms) ∷ vs) =
      let skipped = log_lists index (i + 1) sigbuf vs in
      let (ls, buf) = log_entries sigbuf m in
      let rest = log_lists index (i + 1) buf vs in
      if find_team_id i index == 0
      then skipped
      else Option.map (λ z. put_index i (length m) (find_team_id i index) ∷ (ls ++ z)) rest

  -- `loginitstate`
  unfoldable pub loginitstate : InitState d → Option Text
  loginitstate st = Option.map joined (log_lists st.teamindex 0 [] st.total)

  -- The locals of `loadinitstate` and the globals that it writes.
  pub record Loading : Type 0 where
    pub teamindex : TeamIndex
    pub total : List (Vecomap d)
    pub unique : Freqs d
    pub n : ℕ
    pub team_id : ℕ

  -- The list of the team before is added to `totalT`.
  unfoldable pub finish_team : Loading → Loading
  finish_team st =
      if st.n == 0 then st else record st { total = st.total ++ (st.unique ∷ []) ∷ []; unique = [] }

  unfoldable pub load_index : ℕ → Text → Text → Loading → Loading
  load_index tsize number last st =
      let id = (str2chord_id (strip_last last) st.team_id).1 in
      let st' = finish_team st in
      record st' {
        teamindex = push_index id (tsize + strtol number) st.teamindex;
        n = st.n + 1;
        team_id = id;
      }

  unfoldable pub load_entry : Text → List Text → Loading → Option Loading
  load_entry sig (freq ∷ weight ∷ ts) st = some (record st {
    unique = push_pair (string2sig sig []).1 (f.strtod freq, f.strtod weight) st.unique;
  })
  load_entry sig _ st = none

  -- One line; a missing token is read out of bounds.
  unfoldable pub load_tokens : ℕ → List Text → Loading → Option Loading
  load_tokens tsize [] st = none
  load_tokens tsize (t ∷ ts) st =
      let entry = load_entry t ts st in
      if samesig t index_word
      then elim ts [ [] ↦ none | u ∷ us ↦ some (load_index tsize u (last_of u us) st) ]
      else entry

  unfoldable pub load_lines : ℕ → List Text → Loading → Option Loading
  load_lines tsize [] st = some st
  load_lines tsize (l ∷ ls) st = elim (load_tokens tsize (tokenize l (b':' ∷ [])) st) [
    | none ↦ none
    | some st' ↦ load_lines tsize ls st'
  ]

  -- The list of the last team is added, and the number of teams is returned.
  abbrev pub finished : Loading → InitState d × ℕ
  finished st =
      let st' = finish_team st in (record { teamindex = st'.teamindex; total = st'.total }, st'.n)

  -- `loadinitstate`: the state after it, and what it returns.
  unfoldable pub loadinitstate : Text → InitState d → Option (InitState d × ℕ)
  loadinitstate file st =
      let start : Loading = record {
        teamindex = st.teamindex;
        total = st.total;
        unique = [];
        n = 0;
        team_id = 0;
      } in
      Option.map finished (load_lines (length st.total) (lines_from (length file) file) start)
