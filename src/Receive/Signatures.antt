-- ===== src/Receive/Signatures.antt =====
-- `readgossip` of chord-0.1-vasil/tools/gpsi.C on the messages of one signature: those of the
-- initialisation phase, and queries.
use mathlib.Core.Option
use xgossip.Prelude.{
  ℕ, ◌≡◌, ◌<◌, ◌⊎◌, refl, ap, ◌∙◌, List, [], ◌∷◌, Option, none, some, true, length, map, All,
}
use xgossip.Doubles.{Doubles}
use xgossip.Sig.{Sig, dummysig, sigcmp}
use xgossip.Init.{InitState, initgossiprecv}
use xgossip.Init.Lists.{Regular}
use xgossip.Init.Step.{WellFormed, Handled, initgossiprecv-Handled}
use xgossip.Wire.{Bytes, DoubleBytes, InsertType, type_code}
use xgossip.Wire.Laws.{IsWord}
use xgossip.Wire.Init.{InitMsg, make_init, init_len, put_init_body, get_init-make_init}
use xgossip.Receive.{init_kind, kind_of, Globals, id_of, Node, Done}
use xgossip.Receive.Socket.{Parts, read_bytes}
use xgossip.Receive.Lists.{take_init}
use xgossip.Receive.Handle.{by_kind, readgossip}
use xgossip.Receive.Accepts.{readgossip-by_kind}

any_sig : Sig
any_sig = 2 ∷ []

any_sig-Regular : Regular any_sig
unfolding any_sig sigcmp
any_sig-Regular = refl

module _ (d : Doubles) (r : DoubleBytes d) where
  readgossip-init :
      (g : Globals) (t : InsertType) (m : InitMsg d r) (c : Bytes) (cs : List Bytes) (node : Node d)
      → kind_of (type_code t) ≡ init_kind
      → Parts c cs (make_init d r t m)
      → init_len d r m < 0x80000000
      → All IsWord m.sig
      → g.initphase ≡ true
      → readgossip d r g (map read_bytes (c ∷ cs)) node
        ≡ Option.map
            (λ (st, informs). record {
              node = record node { lists = st };
              informs = informs;
              result = none;
              closed = true;
            })
            (initgossiprecv d g.teamsize
              (id_of m.key)
              (id_of m.teamid)
              m.sig
              m.freq
              m.weight
              node.lists)
  unfolding make_init by_kind take_init
  readgossip-init g t m c cs node k p l w phase =
      let (fits, read) = get_init-make_init d r t m l w in
      readgossip-by_kind d r g t (init_len d r m) (put_init_body d r m) c cs node p fits l
      ∙ ap (λ z. by_kind d r g z (make_init d r t m) (length (make_init d r t m)) node) k
      ∙ rw read (rw phase refl)

  -- What a message of the initialisation leaves.
  pub record Informed (g : Globals) (m : InitMsg d r) (node : Node d) (out : Option (Done d))
      : Type 0 where
    pub lists : InitState d
    pub informs : List (ℕ × Sig)
    pub done :
        out
        ≡ some (record {
          node = record node { lists = lists };
          informs = informs;
          result = none;
          closed = true;
        })
    pub call :
        initgossiprecv d g.teamsize (id_of m.key) (id_of m.teamid) m.sig m.freq m.weight node.lists
        ≡ some (lists, informs)
    pub kept : WellFormed d lists

  Handled-some :
      (ts id team : ℕ) (t s : Sig) (f w : d.Double) (st : InitState d)
      (out : Option (InitState d × List (ℕ × Sig)))
      → Handled d ts id team t s f w st out
      → (st' : InitState d) × (informs : List (ℕ × Sig)) × (out ≡ some (st', informs))
        × WellFormed d st'
  Handled-some ts id team t s f w st none h = absurd h
  Handled-some ts id team t s f w st (some (st', informs)) h = (st', informs, refl, h.0)

-- A message of the initialisation phase, INITGOSSIP or INFORMTEAM, made by `makeKeyValue` and read in
-- that phase, in parts that are not empty and of which the first has at least eight bytes, is handled by `initgossiprecv` without fault, where its signature is the
-- dummy or above it and the lists of the node are well-formed: these are what that leaves, again
-- well-formed, the messages that it sends are sent, and the socket is closed.
pub readgossip-make_init :
    (d : Doubles) (r : DoubleBytes d) (g : Globals) (t : InsertType) (m : InitMsg d r) (c : Bytes)
    (cs : List Bytes) (node : Node d)
    → kind_of (type_code t) ≡ init_kind
    → Parts c cs (make_init d r t m)
    → init_len d r m < 0x80000000
    → All IsWord m.sig
    → g.initphase ≡ true
    → WellFormed d node.lists
    → (m.sig ≡ dummysig) ⊎ Regular m.sig
    → Informed d r g m node (readgossip d r g (map read_bytes (c ∷ cs)) node)
readgossip-make_init d r g t m c cs node k p l w phase ok q =
    let (st, informs, e, ok') =
      Handled-some d r g.teamsize (id_of m.key) (id_of m.teamid) any_sig m.sig m.freq m.weight
        node.lists _
        (initgossiprecv-Handled d g.teamsize (id_of m.key) (id_of m.teamid) any_sig m.sig m.freq
          m.weight node.lists ok any_sig-Regular q) in
    record {
      lists = st;
      informs = informs;
      done = readgossip-init d r g t m c cs node k p l w phase ∙ ap (Option.map _) e;
      call = e;
      kept = ok';
    }
