-- ===== src/Lsh/Teams.antt =====
-- `run_lsh` and `calcteamids`: the teams of a signature, and how often each was found.
use mathlib.Core.Option
use xgossip.Prelude.{
  ℕ, zero, suc, ◌+◌, ◌*◌, ◌≤◌, ◌<◌, ◌≢◌, ◌≡◌, refl, sym, ap, ◌∙◌, List, [], ◌∷◌, Option, none, some,
  map, false, ltb, ◌==◌, if◌then◌else◌, length, length-map, arith, Bool-cases, Option-cases, inl,
  inr, All, ==_iff,
}
use mathlib.Core.Path.{subst}
use xgossip.Sig.{Sig}
use xgossip.Sig.Count.{IsSorted}
use xgossip.Text.{Text}
use xgossip.Lsh.{
  insert_id, sort_ids, get_hash_code, run_lsh, TeamFreqs, team_freq, set_freq, count_id,
  calcteamids,
}
use xgossip.Lsh.Minimum.{SameSet}
use xgossip.Lsh.Groups.{lsh_of, same_pre, pre_end}

insert_id-All : (P : ℕ → Type 0) (x : ℕ) (ys : List ℕ) → P x → All P ys → All P (insert_id x ys)
unfolding insert_id
insert_id-All P x [] p a = (p, tt)
insert_id-All P x (y ∷ ys) p a = elim (Bool-cases (ltb y x)) [
  | inl e ↦ rw e (a.0, insert_id-All P x ys p a.1)
  | inr e ↦ rw e (p, a)
]

All-below : (x y : ℕ) (s : List ℕ) → x ≤ y → All (λ z. y ≤ z) s → All (λ z. x ≤ z) s
All-below x y [] l a = tt
All-below x y (z ∷ s) l a = (omega arith, All-below x y s l a.1)

insert_id-IsSorted : (x : ℕ) (ys : List ℕ) → IsSorted ys → IsSorted (insert_id x ys)
unfolding insert_id
insert_id-IsSorted x [] s = (tt, tt)
insert_id-IsSorted x (y ∷ ys) s = elim (Bool-cases (ltb y x)) [
  | inl e ↦ rw e (insert_id-All (λ z. y ≤ z) x ys (ground arith) s.0, insert_id-IsSorted x ys s.1)
  | inr e ↦ rw e ((ground arith, All-below x y ys (ground arith) s.0), s)
]

sort_ids-IsSorted : (xs : List ℕ) → IsSorted (sort_ids xs)
unfolding sort_ids
sort_ids-IsSorted [] = tt
sort_ids-IsSorted (x ∷ xs) = insert_id-IsSorted x (sort_ids xs) (sort_ids-IsSorted xs)

length-insert_id : (x : ℕ) (ys : List ℕ) → length (insert_id x ys) ≡ suc (length ys)
unfolding insert_id
length-insert_id x [] = refl
length-insert_id x (y ∷ ys) = ground (arith, length-insert_id x ys)

length-sort_ids : (xs : List ℕ) → length (sort_ids xs) ≡ length xs
unfolding sort_ids
length-sort_ids [] = refl
length-sort_ids (x ∷ xs) = length-insert_id x (sort_ids xs) ∙ ap suc (length-sort_ids xs)

module _ (compute_hash : Text → ℕ) (irrnums : List ℕ) (l m seed : ℕ) (hasha hashb : List ℕ) where
  -- When `uflag` is not set, signatures of the same values have the same teams, however often each
  -- value occurs and in whatever order.
  pub run_lsh-SameSet :
      (s t : Sig)
      → SameSet s t
      → run_lsh compute_hash false irrnums l m seed hasha hashb s
        ≡ run_lsh compute_hash false irrnums l m seed hasha hashb t
  unfolding run_lsh get_hash_code lsh_of
  run_lsh-SameSet s t e =
      ap (λ z. Option.map sort_ids (Option.map (map compute_hash) z))
        (same_pre l m seed hasha hashb s t e 0 m)

  -- When `uflag` is not set, a signature that is not empty has as many teams as there are groups, in
  -- ascending order, given a hash function for each row of each group and a seed that is not 0.
  pub run_lsh-IsSorted :
      (s : Sig)
      → s ≢ []
      → 0 < seed
      → m * l ≤ length hasha
      → m * l ≤ length hashb
      → (ids : List ℕ) × (run_lsh compute_hash false irrnums l m seed hasha hashb s ≡ some ids)
        × (length ids ≡ m)
        × IsSorted ids
  unfolding run_lsh get_hash_code lsh_of
  run_lsh-IsSorted s n p la lb =
      let (ts, e, c) = pre_end l m seed hasha hashb s n p 0 m (omega arith) (omega arith) in
      (
        sort_ids (map compute_hash ts),
        ap (λ z. Option.map sort_ids (Option.map (map compute_hash) z)) e,
        length-sort_ids (map compute_hash ts) ∙ length-map compute_hash ts ∙ c,
        sort_ids-IsSorted (map compute_hash ts),
      )

unfoldable pub times : ℕ → List ℕ → ℕ
times id [] = 0
times id (x ∷ xs) = let rest = times id xs in if id == x then suc rest else rest

-- An entry after n more times.
unfoldable pub counted_on : ℕ → Option ℕ → Option ℕ
counted_on zero o = o
counted_on (suc n) none = some (suc n)
counted_on (suc n) (some k) = some (k + suc n)

team_freq-set_freq :
    (id t n : ℕ) (m : TeamFreqs)
    → team_freq id (set_freq t n m) ≡ (if id == t then some n else team_freq id m)
unfolding team_freq set_freq
team_freq-set_freq id t n [] = refl
team_freq-set_freq id t n ((u, k) ∷ m) = ground (arith, team_freq-set_freq id t n m)

-- What is written is what was counted on.
team_freq-count_same :
    (t : ℕ) (m : TeamFreqs) → team_freq t (count_id t m) ≡ counted_on 1 (team_freq t m)
unfolding counted_on count_id team_freq
team_freq-count_same t m = elim (Option-cases (team_freq t m)) [
  | inl e ↦ rw (e, count_id) (team_freq-set_freq t t 1 m ∙ ground arith)
  | inr (n, e) ↦ rw (e, count_id) (team_freq-set_freq t t (n + 1) m ∙ ground arith)
]

team_freq-count_other :
    (id t : ℕ) (m : TeamFreqs) → (id == t) ≡ false → team_freq id (count_id t m) ≡ team_freq id m
unfolding count_id team_freq
team_freq-count_other id t m h = elim (Option-cases (team_freq t m)) [
  | inl e ↦ rw (e, count_id) (team_freq-set_freq id t 1 m ∙ rw h refl)
  | inr (n, e) ↦ rw (e, count_id) (team_freq-set_freq id t (n + 1) m ∙ rw h refl)
]

counted_on_next : (n : ℕ) (o : Option ℕ) → counted_on n (counted_on 1 o) ≡ counted_on (suc n) o
unfolding counted_on
counted_on_next zero none = refl
counted_on_next zero (some k) = refl
counted_on_next (suc n) none = ap some (omega arith)
counted_on_next (suc n) (some k) = ap some (omega arith)

-- `calcteamids` adds to the counter of every team the times that it is among the identifiers.
pub calcteamids-times :
    (ids : List ℕ) (m : TeamFreqs) (id : ℕ)
    → team_freq id (calcteamids ids m) ≡ counted_on (times id ids) (team_freq id m)
unfolding calcteamids times counted_on
calcteamids-times [] m id = refl
calcteamids-times (t ∷ ids) m id = elim (Bool-cases (id == t)) [
  | inl e ↦ rw e (
      calcteamids-times ids (count_id t m) id
      ∙ ap (counted_on (times id ids)) (
          subst (λ u. team_freq u (count_id t m) ≡ counted_on 1 (team_freq u m))
            (sym ((==_iff id t).0 e)) (team_freq-count_same t m))
      ∙ counted_on_next (times id ids) (team_freq id m))
  | inr e ↦ rw e (
      calcteamids-times ids (count_id t m) id
      ∙ ap (counted_on (times id ids)) (team_freq-count_other id t m e))
]
