-- ===== src/Wire/Gossip.antt =====
-- The gossip message of a list of signatures: `makeKeyValue` and `getKeyValue` of VXGOSSIP, XGOSSIP
-- and BCAST, with
-- <msgtype><msglen><keysize><key><teamidsize><teamid><seq><siglistlen> and, for each signature,
-- <sigsize><sig><freq><weight>.
use mathlib.Core.Option
use mathlib.Core.List.{append_assoc, append-nil}
use mathlib.Core.Path.{subst}
use xgossip.Prelude.{
  ℕ, zero, suc, ◌+◌, ◌*◌, ◌<◌, ◌≤◌, ◌≡◌, refl, [], ◌∷◌, ◌++◌, none, some, All, length, arith,
  length-append,
}
use xgossip.Doubles.{Doubles}
use xgossip.Scale.{Pair, Freqs}
use xgossip.Sig.{Sig}
use xgossip.Wire.{Bytes, put_int, put_str, put_sig, DoubleBytes, InsertType, type_code}
use xgossip.Wire.Read.{
  Reader, ◌>>=◌, return, get_int, get_str, get_sig, get_double, rounds, get_message, Decoded,
  decoded,
}
use xgossip.Wire.Laws.{
  IsWord, get_int-put_int, get_str-put_str, get_sig-put_sig, get_double-put_double, length-put_int,
  length-put_str, length-put_sig, rounds_small, get_message-put,
}

module _ (d : Doubles) (r : DoubleBytes d) where
  unfoldable pub put_entries : Freqs d → Bytes
  put_entries [] = []
  put_entries ((s, p) ∷ m) = put_sig s ++ (r.put_double p.0 ++ (r.put_double p.1 ++ put_entries m))

  -- What follows the length.
  unfoldable pub put_gossip_body : Bytes → Bytes → ℕ → Freqs d → Bytes
  put_gossip_body key teamid seq m =
      put_str key ++ (put_str teamid ++ (put_int seq ++ (put_int (length m) ++ put_entries m)))

  -- The length counts the type and itself; it is summed up before the buffer is made.
  unfoldable pub entries_len : Freqs d → ℕ
  entries_len [] = 0
  entries_len ((s, p) ∷ m) = 4 + 4 * length s + 8 + 8 + entries_len m

  unfoldable pub gossip_len : Bytes → Bytes → Freqs d → ℕ
  unfolding entries_len
  gossip_len key teamid m = 4 + 4 + 4 + length key + 4 + length teamid + 4 + 4 + entries_len m

  -- `makeKeyValue` for a list of signatures
  unfoldable pub make_gossip : InsertType → Bytes → Bytes → ℕ → Freqs d → Bytes
  make_gossip t key teamid seq m =
      put_int (type_code t)
      ++ (put_int (gossip_len key teamid m) ++ put_gossip_body key teamid seq m)

  -- The outputs of `getKeyValue`; its lists of signatures, frequencies and weights side by side.
  pub record GossipMsg : Type 0 where
    pub key : Bytes
    pub teamid : Bytes
    pub seq : ℕ
    pub entries : Freqs d

  pub get_entry : Reader (Sig × Pair d)
  get_entry = do s ← get_sig; f ← get_double r; w ← get_double r; return (s, (f, w))

  pub get_entries : ℕ → Reader (Freqs d)
  get_entries zero b = some ([], b)
  get_entries (suc n) b = elim (get_entry b) [
    | none ↦ none
    | some (e, b') ↦ Option.map (λ (m, rest). (e ∷ m, rest)) (get_entries n b')
  ]

  unfoldable pub get_gossip_body : Reader GossipMsg
  get_gossip_body = do
    key ← get_str
    teamid ← get_str
    seq ← get_int
    n ← get_int
    entries ← get_entries (rounds n)
    return (record { key = key; teamid = teamid; seq = seq; entries = entries })

  -- `getKeyValue` for a list of signatures
  pub get_gossip : Bytes → ℕ → Decoded GossipMsg
  get_gossip = get_message get_gossip_body

  abbrev pub AreWords : Freqs d → Type 0
  AreWords = All (λ (e : Sig × Pair d). All IsWord e.0)

  get_entry-put_entry :
      (s : Sig) (p : Pair d) (rest : Bytes)
      → All IsWord s
      → 4 * length s < 0x80000000
      → get_entry (put_sig s ++ (r.put_double p.0 ++ (r.put_double p.1 ++ rest)))
        ≡ some ((s, p), rest)
  unfolding get_entry
  get_entry-put_entry s p rest w l =
      rw (get_sig-put_sig s (r.put_double p.0 ++ (r.put_double p.1 ++ rest)) w l, ◌>>=◌)
        (rw (get_double-put_double r p.0 (r.put_double p.1 ++ rest), ◌>>=◌)
          (rw (get_double-put_double r p.1 rest, ◌>>=◌)))

  get_entries-put_entries :
      (m : Freqs d) (rest : Bytes)
      → AreWords m
      → entries_len m < 0x80000000
      → get_entries (length m) (put_entries m ++ rest) ≡ some (m, rest)
  unfolding get_entries put_entries entries_len
  get_entries-put_entries [] rest w l = refl
  get_entries-put_entries ((s, p) ∷ m) rest w l = simp append_assoc (
      rw (get_entry-put_entry s p (put_entries m ++ rest) w.0 (omega arith), get_entries)
        (rw (get_entries-put_entries m rest w.1 (omega arith))))

  length-le-entries_len : (m : Freqs d) → length m ≤ entries_len m
  unfolding entries_len
  length-le-entries_len [] = omega arith
  length-le-entries_len ((s, p) ∷ m) = omega (arith, length-le-entries_len m)

  length-put_entries : (m : Freqs d) → length (put_entries m) ≡ entries_len m
  unfolding put_entries entries_len
  length-put_entries [] = refl
  length-put_entries ((s, p) ∷ m) =
      simp (length-append, length-put_sig, r.length-put_double, length-put_entries m) (omega arith)

  -- The buffer that `makeKeyValue` allocates is filled exactly: the length that it computes first
  -- is the number of bytes that it writes.
  pub length-make_gossip :
      (t : InsertType) (key teamid : Bytes) (seq : ℕ) (m : Freqs d)
      → length (make_gossip t key teamid seq m) ≡ gossip_len key teamid m
  unfolding make_gossip put_gossip_body gossip_len
  length-make_gossip t key teamid seq m =
      simp (length-append, length-put_int, length-put_str, length-put_entries) (omega arith)

  get_gossip_body-put :
      (key teamid : Bytes) (seq : ℕ) (m : Freqs d)
      → gossip_len key teamid m < 0x80000000
      → IsWord seq
      → AreWords m
      → get_gossip_body (put_gossip_body key teamid seq m)
        ≡ some (record { key = key; teamid = teamid; seq = seq; entries = m }, [])
  unfolding get_gossip_body put_gossip_body gossip_len
  get_gossip_body-put key teamid seq m l ws w =
      let small = length-le-entries_len m in
      let tail = put_int (length m) ++ put_entries m in
      rw (get_str-put_str key (put_str teamid ++ (put_int seq ++ tail)) (omega arith), ◌>>=◌)
        (rw (get_str-put_str teamid (put_int seq ++ tail) (omega arith), ◌>>=◌)
          (rw (get_int-put_int seq tail ws, ◌>>=◌)
            (rw (get_int-put_int (length m) (put_entries m) (omega arith), ◌>>=◌)
              (rw (rounds_small (length m) (omega arith), ◌>>=◌)
                (rw (get_all m w (omega arith), ◌>>=◌))))))
    where
      get_all :
          (m : Freqs d)
          → AreWords m
          → entries_len m < 0x80000000
          → get_entries (length m) (put_entries m) ≡ some (m, [])
      get_all m w l =
          subst (λ b. get_entries (length m) b ≡ some (m, [])) (append-nil (put_entries m))
            (get_entries-put_entries m [] w l)

-- A gossip message of less than 2 ^ 31 bytes, with a 32-bit sequence number and 32-bit values in its
-- signatures, reads back: `getKeyValue` on what `makeKeyValue` wrote, told the number of bytes
-- written, returns the key, the team, the sequence number and the list.
pub get_gossip-make_gossip :
    (d : Doubles) (r : DoubleBytes d) (t : InsertType) (key teamid : Bytes) (seq : ℕ) (m : Freqs d)
    → gossip_len d r key teamid m < 0x80000000
    → IsWord seq
    → AreWords d r m
    → get_gossip d r
        (make_gossip d r t key teamid seq m)
        (length (make_gossip d r t key teamid seq m))
      ≡ decoded (record { key = key; teamid = teamid; seq = seq; entries = m })
unfolding get_gossip make_gossip
get_gossip-make_gossip d r t key teamid seq m l ws w =
    rw (length-make_gossip d r t key teamid seq m) (
      get_message-put (get_gossip_body d r) t (gossip_len d r key teamid m)
        (put_gossip_body d r key teamid seq m) _ (omega arith)
        (get_gossip_body-put d r key teamid seq m l ws w))
