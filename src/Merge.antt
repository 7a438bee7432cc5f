-- ===== src/Merge.antt =====
-- `mergelists` and `mergelists_nogossip` of chord-0.1-vasil/tools/gpsi.C: a node merges the
-- lists that it received in a round into its first one, with all values halved.
pub mod Rounds
pub mod Sums
pub mod Away
pub mod Ready
pub mod Loop
pub mod Lookup
pub mod Kept
pub mod NoGossip
mod Examples
use mathlib.Core.Option
use xgossip.Prelude.{
  ℕ, zero, suc, ◌+◌, [], ◌∷◌, Option, none, some, Bool, true, false, if◌then◌else◌, length,
}
use xgossip.Doubles.{Doubles}
use xgossip.Scale.{Pair, Freqs, Vecomap, dividefreq}
use xgossip.Sig.{Sig, dummysig, samesig, sigcmp}
use xgossip.Table.{find, assign, push_pair}

module _ (d : Doubles) where
  -- `++citr[i]`, which needs an entry to pass.
  pub skip : Freqs d → Option (Freqs d)
  skip [] = none
  skip (e ∷ m) = some m

  -- The first dummy is passed over, and the second unless the run is Vanilla.
  pub skip_dummies : Bool → Freqs d → Option (Freqs d)
  skip_dummies true m = skip m
  skip_dummies false m = elim (skip m) [ none ↦ none | some m' ↦ skip m' ]

  -- The iterators `citr`, each as the entries from it to the end of its list.
  pub start_iters : Bool → Vecomap d → Option (Vecomap d)
  start_iters vanilla [] = some []
  start_iters vanilla (m ∷ ms) =
      let rest = start_iters vanilla ms in
      elim (skip_dummies vanilla m) [ none ↦ none | some c ↦ Option.map (◌∷◌ c) rest ]

  -- `j == 0`: all lists are at their ends.
  pub all_done : Vecomap d → Bool
  all_done [] = true
  all_done ([] ∷ cs) = all_done cs
  all_done ((e ∷ c) ∷ cs) = false

  -- The loop that finds `minsig`; nothing is chosen while z is 0.
  pub find_min : Option Sig → Vecomap d → Option Sig
  find_min m [] = m
  find_min m ([] ∷ cs) = find_min m cs
  find_min none (((s, p) ∷ c) ∷ cs) = find_min (some s) cs
  find_min (some m) (((s, p) ∷ c) ∷ cs) = find_min (some (if sigcmp s m then s else m)) cs

  -- `(citr[i] != end) && (citr[i]->first == minsig)`
  pub at_min : Sig → Freqs d → Bool
  at_min m [] = false
  at_min m ((s, p) ∷ c) = samesig s m

  unfoldable pub add_pair : Pair d → Pair d → Pair d
  add_pair (sumf, sumw) (f, w) = (d.add sumf f, d.add sumw w)

  -- What a list adds to the sums: its entry of `minsig`, or else its dummy, `none` if it has none.
  pub contribution : Sig → Freqs d → Freqs d → Option (Pair d)
  contribution m t [] = find dummysig t
  contribution m t ((s, p) ∷ c) = if samesig s m then some p else find dummysig t

  pub sum_lists : Sig → Vecomap d → Vecomap d → Pair d → Option (Pair d)
  sum_lists m (t ∷ ts) (c ∷ cs) acc = elim (contribution m t c) [
    | none ↦ none
    | some p ↦ sum_lists m ts cs (add_pair acc p)
  ]
  sum_lists m ts cs acc = some acc

  pub step_iters : Sig → Vecomap d → Vecomap d
  step_iters m [] = []
  step_iters m ([] ∷ cs) = [] ∷ step_iters m cs
  step_iters m (((s, p) ∷ c) ∷ cs) = (if samesig s m then c else (s, p) ∷ c) ∷ step_iters m cs

  unfoldable pub halve : Pair d → Pair d
  halve (f, w) = (d.div_int f 2, d.div_int w 2)

  -- `teamvecomap[0][minsig]` is written: in place where the first iterator is at it, else pushed.
  pub write_min : Sig → Pair d → Freqs d → Freqs d → Freqs d
  write_min m p t0 c0 = if at_min m c0 then assign m p t0 else push_pair m p t0

  -- The sum of the dummies' weights when all lists are done.
  pub dummy_weights : Vecomap d → d.Double → Option d.Double
  dummy_weights [] acc = some acc
  dummy_weights (t ∷ ts) acc = elim (find dummysig t) [
    | none ↦ none
    | some (f, w) ↦ dummy_weights ts (d.add acc w)
  ]

  -- `teamvecomap[0][dummysig][1] = w`
  pub write_dummy : d.Double → Freqs d → Option (Freqs d)
  write_dummy w t0 = Option.map (λ (f, old). assign dummysig (f, w) t0) (find dummysig t0)

  -- The entries that are left, from which the fuel is taken.
  pub entries : Vecomap d → ℕ
  entries [] = 0
  entries (c ∷ cs) = length c + entries cs

  pub first_iter : Vecomap d → Freqs d
  first_iter [] = []
  first_iter (c ∷ cs) = c

  -- The `while (1)` of `mergelists` on the first list and the others, with the iterators, on fuel;
  -- `none` is the fuel run out or a list without its dummy.
  pub merge_loop : ℕ → Freqs d → Vecomap d → Vecomap d → Option (Freqs d)
  merge_loop zero t0 ts cs = none
  merge_loop (suc fuel) t0 ts cs = elim (all_done cs) [
    | true ↦ elim (dummy_weights (t0 ∷ ts) d.zero) [
      | none ↦ none
      | some sumw ↦ write_dummy (d.div_int sumw 2) t0
    ]
    | false ↦ elim (find_min none cs) [
      | none ↦ none
      | some m ↦ elim (sum_lists m (t0 ∷ ts) cs (d.zero, d.zero)) [
        | none ↦ none
        | some acc ↦
            merge_loop fuel (write_min m (halve acc) t0 (first_iter cs)) ts (step_iters m cs)
      ]
    ]
  ]

  -- `mergelists`, with the global flag `vanilla`; with no list at all it writes past the end.
  unfoldable pub mergelists : Bool → Vecomap d → Option (Vecomap d)
  mergelists vanilla [] = none
  mergelists vanilla (t0 ∷ []) = dividefreq d (t0 ∷ []) 0 2 2
  mergelists vanilla (t0 ∷ t1 ∷ ts) = elim (start_iters vanilla (t0 ∷ t1 ∷ ts)) [
    | none ↦ none
    | some cs ↦ Option.map (λ t. t ∷ []) (merge_loop (suc (entries cs)) t0 (t1 ∷ ts) cs)
  ]

  -- The loop of `mergelists_nogossip` takes the same sums and writes none of them.
  pub nogossip_loop : ℕ → Vecomap d → Vecomap d → Option (Unit {0})
  nogossip_loop zero ts cs = none
  nogossip_loop (suc fuel) ts cs = elim (all_done cs) [
    | true ↦ Option.map (λ _. tt) (dummy_weights ts d.zero)
    | false ↦ elim (find_min none cs) [
      | none ↦ none
      | some m ↦ elim (sum_lists m ts cs (d.zero, d.zero)) [
        | none ↦ none
        | some acc ↦ nogossip_loop fuel ts (step_iters m cs)
      ]
    ]
  ]

  -- `mergelists_nogossip`; its last loop pops all lists but the first, and with no list none.
  pub mergelists_nogossip : Bool → Vecomap d → Option (Vecomap d)
  mergelists_nogossip vanilla [] = some []
  mergelists_nogossip vanilla (t0 ∷ []) = some (t0 ∷ [])
  mergelists_nogossip vanilla (t0 ∷ t1 ∷ ts) = elim (start_iters vanilla (t0 ∷ t1 ∷ ts)) [
    | none ↦ none
    | some cs ↦ Option.map (λ _. t0 ∷ []) (nogossip_loop (suc (entries cs)) (t0 ∷ t1 ∷ ts) cs)
  ]
