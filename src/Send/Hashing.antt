-- ===== src/Send/Hashing.antt =====
-- The teams that hashing gives for a signature that can be sent.
use xgossip.Prelude.{ℕ, ◌*◌, ◌^◌, ◌≤◌, ◌<◌, ◌≡◌, ◌≢◌, List, [], some, false, length, All}
use xgossip.Sig.{Sig}
use xgossip.Sig.Count.{IsSorted}
use xgossip.Text.{Text}
use xgossip.Lsh.{run_lsh}
use xgossip.Lsh.Teams.{run_lsh-IsSorted}
use xgossip.Wire.Laws.{IsWord}
use xgossip.Send.{Settings, team_ids}

-- A list of hash functions for each group, a seed, and teams that are not empty.
pub record IsReady (g : Settings) : Type 0 where
  pub multisets : g.uflag ≡ false
  pub seed : 0 < g.lshseed
  pub enough_a : g.mgroups * g.lfuncs ≤ length g.hasha
  pub enough_b : g.mgroups * g.lfuncs ≤ length g.hashb
  pub members : 0 < g.teamsize

-- Signatures of 32-bit values, neither empty nor too long for a message.
unfoldable pub CanSend : Sig → Type 0
CanSend s = (s ≢ []) × All IsWord s × (length s < 2 ^ 28)

pub nonempty : (s : Sig) → CanSend s → s ≢ []
unfolding CanSend
nonempty s c = c.0

module _ (compute_hash : Text → ℕ) (id_text : ℕ → Text) (rand_r : ℕ → ℕ) (g : Settings)
    (h : IsReady g) where
  pub team_ids-IsSorted :
      (s : Sig)
      → s ≢ []
      → (ids : List ℕ) × (team_ids compute_hash id_text rand_r g 0 s ≡ some ids)
        × (length ids ≡ g.mgroups)
        × IsSorted ids
  unfolding team_ids run_lsh
  team_ids-IsSorted s n =
      let (ids, e, l, o) =
        run_lsh-IsSorted compute_hash g.irrnums g.lfuncs g.mgroups g.lshseed g.hasha g.hashb s n
          h.seed h.enough_a h.enough_b in
      (ids, rw h.multisets e, l, o)
