-- ===== src/Sig/Sets.antt =====
-- `set_inter`, `set_inter_noskip`, `set_uni` and `signcmp` of chord-0.1-vasil/tools/gpsi.C.
-- `s1prev` and `s2prev` start at 0; of the counters of skipped duplicates only the second is read,
-- at the end, and only for being zero.
pub mod Inter
pub mod Union
pub mod Similar
pub mod Subset
use xgossip.Prelude.{
  ℕ, ◌+◌, [], ◌∷◌, Option, none, some, Bool, true, false, not, ltb, ◌==◌, if◌then◌else◌,
}
use xgossip.Sig.{Sig}

-- What the loops carry from round to round.
pub record Walk : Type 0 where
  pub s1prev : ℕ
  pub s2prev : ℕ
  pub n : ℕ
  pub s1skip : ℕ
  pub s2skip : ℕ

abbrev pub start : Walk
start = record { s1prev = 0; s2prev = 0; n = 0; s1skip = 0; s2skip = 0 }

abbrev pub skip_first : Walk → Walk
skip_first w = record w { s1skip = w.s1skip + 1 }

abbrev pub skip_second : Walk → Walk
skip_second w = record w { s2skip = w.s2skip + 1 }

-- The `while` of `set_inter`.
pub inter_loop : Walk → Sig → Sig → Walk
inter_loop w (x ∷ s1) (y ∷ s2) = elim (w.s1prev == x) [
  | true ↦ inter_loop (skip_first (record w { s1prev = x })) s1 (y ∷ s2)
  | false ↦ elim (w.s2prev == y) [
    | true ↦ inter_loop (skip_second (record w { s2prev = y })) (x ∷ s1) s2
    | false ↦ elim (ltb x y) [
      | true ↦ inter_loop (record w { s1prev = x }) s1 (y ∷ s2)
      | false ↦ elim (ltb y x) [
        | true ↦ inter_loop (record w { s2prev = y }) (x ∷ s1) s2
        | false ↦ inter_loop (record w { s1prev = x; s2prev = y; n = w.n + 1 }) s1 s2
      ]
    ]
  ]
]
inter_loop w s1 s2 = w

-- The result and the flag `multi`.
pub finish : Walk → ℕ × Bool
finish w = (w.n, not (w.s2skip == 0))

unfoldable pub set_inter : Sig → Sig → ℕ × Bool
unfolding inter_loop finish
set_inter s1 s2 = finish (inter_loop start s1 s2)

-- The duplicates that `set_inter_noskip` counts before it moves.
pub count_skips : Walk → ℕ → ℕ → Walk
count_skips w x y =
    if w.s1prev == x then skip_first w else if w.s2prev == y then skip_second w else w

pub noskip_loop : Walk → Sig → Sig → Walk
unfolding count_skips
noskip_loop w (x ∷ s1) (y ∷ s2) =
    let v = count_skips w x y in
    elim (ltb x y) [
      | true ↦ noskip_loop (record v { s1prev = x }) s1 (y ∷ s2)
      | false ↦ elim (ltb y x) [
        | true ↦ noskip_loop (record v { s2prev = y }) (x ∷ s1) s2
        | false ↦ noskip_loop (record v { s1prev = x; s2prev = y; n = v.n + 1 }) s1 s2
      ]
    ]
noskip_loop w s1 s2 = w

unfoldable pub set_inter_noskip : Sig → Sig → ℕ × Bool
unfolding noskip_loop finish
set_inter_noskip s1 s2 = finish (noskip_loop start s1 s2)

-- The inner loops of `set_uni`, once one signature has ended.
pub drain_second : Walk → Sig → Walk
drain_second w [] = w
drain_second w (y ∷ s2) =
    drain_second (if w.s2prev == y then skip_second w else record w { s2prev = y; n = w.n + 1 }) s2

pub drain_first : Walk → Sig → Walk
drain_first w [] = w
drain_first w (x ∷ s1) =
    drain_first (if w.s1prev == x then skip_first w else record w { s1prev = x; n = w.n + 1 }) s1

-- The `while (true)` of `set_uni`: the ends are tested after each round, so the first clauses are
-- the two exits.
pub uni_loop : Walk → Sig → Sig → Walk
unfolding drain_first drain_second
uni_loop w [] s2 = drain_second w s2
uni_loop w (x ∷ s1) [] = drain_first w (x ∷ s1)
uni_loop w (x ∷ s1) (y ∷ s2) = elim (w.s1prev == x) [
  | true ↦ uni_loop (skip_first w) s1 (y ∷ s2)
  | false ↦ elim (w.s2prev == y) [
    | true ↦ uni_loop (skip_second w) (x ∷ s1) s2
    | false ↦ elim (ltb x y) [
      | true ↦ uni_loop (record w { s1prev = x; n = w.n + 1 }) s1 (y ∷ s2)
      | false ↦ elim (ltb y x) [
        | true ↦ uni_loop (record w { s2prev = y; n = w.n + 1 }) (x ∷ s1) s2
        | false ↦ uni_loop (record w { s1prev = x; s2prev = y; n = w.n + 1 }) s1 s2
      ]
    ]
  ]
]

-- The first round of `set_uni` reads both signatures before any test for the end: with an empty
-- one it reads past the end.
unfoldable pub set_uni : Sig → Sig → Option (ℕ × Bool)
unfolding uni_loop finish
set_uni [] s2 = none
set_uni (x ∷ s1) [] = none
set_uni (x ∷ s1) (y ∷ s2) = some (finish (uni_loop start (x ∷ s1) (y ∷ s2)))

-- `signcmp`: the numerator and denominator of the quotient that it returns, and `multi`, which
-- `set_uni` writes last.
unfoldable pub signcmp : Sig → Sig → Option (ℕ × ℕ × Bool)
unfolding set_inter set_uni
signcmp s1 s2 = elim (set_uni s1 s2) [
  | none ↦ none
  | some (nunion, multi) ↦ some ((set_inter s1 s2).0, nunion, multi)
]
