-- ===== src/Receive/Accepts.antt =====
-- What `readgossip` of chord-0.1-vasil/tools/gpsi.C does with the messages that `makeKeyValue` of
-- chord-0.1-vasil/utils/utils.C makes, in parts of which the first has the type and the length.
use xgossip.Prelude.{
  ℕ, ◌≡◌, ◌<◌, ◌⊎◌, inl, inr, refl, sym, ap, ◌∙◌, List, [], ◌∷◌, ◌++◌, some, true, false, length,
  map, set, get_elem?, if◌then◌else◌, arith, Bool-cases,
}
use xgossip.Doubles.{Doubles}
use xgossip.Scale.{Freqs, Vecomap}
use xgossip.Init.{InitState, find_team}
use xgossip.Collect.Unions.{Ascending}
use xgossip.Collect.Transport.{add_known, push_entries_again}
use xgossip.Wire.{Bytes, DoubleBytes, InsertType, type_code, put_int, xgossip_msg}
use xgossip.Wire.Laws.{IsWord, get_int-put_int, IsWord-type_code}
use xgossip.Wire.Gossip.{
  make_gossip, gossip_len, put_gossip_body, AreWords, length-make_gossip, get_gossip-make_gossip,
}
use xgossip.Receive.{Target, to_team, list_kind, kind_of, Globals, id_of, Node, quiet}
use xgossip.Receive.Round.{Near, Far, in_round-Near, in_round-Far}
use xgossip.Receive.Socket.{Parts, read_bytes, get_key_value_len, read_message-Parts}
use xgossip.Receive.Lists.{store, take_list, take_gossip}
use xgossip.Receive.Handle.{by_kind, handle, readgossip}

pub get_key_value_len-put :
    (t : InsertType) (len : ℕ) (body : Bytes)
    → IsWord len
    → get_key_value_len (put_int (type_code t) ++ (put_int len ++ body)) ≡ some len
unfolding get_key_value_len
get_key_value_len-put t len body w =
    rw (get_int-put_int (type_code t) (put_int len ++ body) (IsWord-type_code t), get_key_value_len)
      (rw (get_int-put_int len body w, get_key_value_len) refl)

module _ (d : Doubles) (r : DoubleBytes d) where
  -- A message with a right length, in parts, is handled by its kind.
  pub readgossip-by_kind :
      (g : Globals) (t : InsertType) (len : ℕ) (body c : Bytes) (cs : List Bytes) (node : Node d)
      → Parts c cs (put_int (type_code t) ++ (put_int len ++ body))
      → length (put_int (type_code t) ++ (put_int len ++ body)) ≡ len
      → len < 0x80000000
      → readgossip d r g (map read_bytes (c ∷ cs)) node
        ≡ by_kind d r g
            (kind_of (type_code t))
            (put_int (type_code t) ++ (put_int len ++ body))
            (length (put_int (type_code t) ++ (put_int len ++ body)))
            node
  unfolding readgossip handle
  readgossip-by_kind g t len body c cs node p e l =
      let msg = put_int (type_code t) ++ (put_int len ++ body) in
      let whole = get_key_value_len-put t len body (omega arith) ∙ ap some (sym e) in
      rw (read_message-Parts c cs msg p whole (rw e l), readgossip)
        (rw (get_int-put_int (type_code t) (put_int len ++ body) (IsWord-type_code t), handle) refl)

  module _ (g : Globals) (key teamid : Bytes) (seq : ℕ) (m : Freqs d) (c : Bytes) (cs : List Bytes)
      (node : Node d) (small : gossip_len d r key teamid m < 0x80000000) (ws : IsWord seq)
      (wm : AreWords d r m) where
    pub readgossip-by_phase :
        (t : InsertType) (target : Target)
        → kind_of (type_code t) ≡ list_kind false target
        → Parts c cs (make_gossip d r t key teamid seq m)
        → readgossip d r g (map read_bytes (c ∷ cs)) node ≡ (
            if g.initphase
            then some (quiet d node false)
            else take_list d g target teamid seq m node)
    unfolding by_kind make_gossip take_gossip
    readgossip-by_phase t target k p =
        let len = gossip_len d r key teamid m in
        let body = put_gossip_body d r key teamid seq m in
        let fits = length-make_gossip d r t key teamid seq m in
        readgossip-by_kind g t len body c cs node p fits small
        ∙ ap
            (λ z.
              by_kind d r g z (make_gossip d r t key teamid seq m)
                (length (make_gossip d r t key teamid seq m)) node)
            k
        ∙ ap
            (λ z.
              if g.initphase then some (quiet d node false) else take_gossip d r g target z node)
            (get_gossip-make_gossip d r t key teamid seq m small ws wm)

  pub store-team :
      (g : Globals) (teamid : Bytes) (m : Freqs d) (i : ℕ) (is : List ℕ) (st : InitState d)
      (v : Vecomap d)
      → Ascending d m
      → find_team (id_of teamid) st.teamindex ≡ some (i ∷ is)
      → get_elem? st.total i ≡ some v
      → store d g to_team teamid m st
        ≡ some (record { teamindex = st.teamindex; total = set st.total i (v ++ m ∷ []) })
  unfolding store
  store-team g teamid m i is st v o f e =
      rw (add_known d g.bcast m (id_of teamid) i is st.teamindex st.total v f e) (
        ap (λ z. some (record { teamindex = st.teamindex; total = set st.total i (v ++ z ∷ []) }))
          (push_entries_again d m o))

-- A gossip message for a team that the node knows, made by `makeKeyValue` from an ascending list and
-- read in the phase of execution, in parts that are not empty and of which the first has at least
-- eight bytes, in a round that differs from the node's by at most one unless any round is accepted, is appended, as the list it was made of, to the lists of that
-- team. Nothing else changes but `rxseq`, which the sequence number is put in, and the socket is
-- closed.
pub readgossip-make_gossip :
    (d : Doubles) (r : DoubleBytes d) (g : Globals) (key teamid : Bytes) (seq : ℕ) (m : Freqs d)
    (c : Bytes) (cs : List Bytes) (node : Node d) (i : ℕ) (is : List ℕ) (v : Vecomap d)
    → Parts c cs (make_gossip d r xgossip_msg key teamid seq m)
    → gossip_len d r key teamid m < 0x80000000
    → IsWord seq
    → AreWords d r m
    → Ascending d m
    → g.initphase ≡ false
    → Near g seq
    → find_team (id_of teamid) node.lists.teamindex ≡ some (i ∷ is)
    → get_elem? node.lists.total i ≡ some v
    → readgossip d r g (map read_bytes (c ∷ cs)) node
      ≡ some (
          quiet d
            (record node {
              lists = record {
                teamindex = node.lists.teamindex;
                total = set node.lists.total i (v ++ m ∷ []);
              };
              rxseq = node.rxseq ++ seq ∷ [];
            })
            true)
unfolding kind_of type_code take_list
readgossip-make_gossip d r g key teamid seq m c cs node i is v p small ws wm o phase round f e =
    readgossip-by_phase d r g key teamid seq m c cs node small ws wm xgossip_msg to_team refl p
    ∙ rw (in_round-Near g seq round)
        (rw (store-team d r g teamid m i is node.lists v o f e) (rw phase refl))

-- A message of an uncompressed list of signatures, of any of the three kinds, changes nothing if it
-- arrives in the initialisation phase, or if its round differs from the node's by more than one and
-- not any round is accepted; its socket is not closed.
pub readgossip_discards :
    (d : Doubles) (r : DoubleBytes d) (g : Globals) (t : InsertType) (target : Target)
    (key teamid : Bytes) (seq : ℕ) (m : Freqs d) (c : Bytes) (cs : List Bytes) (node : Node d)
    → kind_of (type_code t) ≡ list_kind false target
    → Parts c cs (make_gossip d r t key teamid seq m)
    → gossip_len d r key teamid m < 0x80000000
    → IsWord seq
    → AreWords d r m
    → (g.initphase ≡ true) ⊎ Far g seq
    → readgossip d r g (map read_bytes (c ∷ cs)) node ≡ some (quiet d node false)
unfolding take_list
readgossip_discards d r g t target key teamid seq m c cs node k p small ws wm out =
    readgossip-by_phase d r g key teamid seq m c cs node small ws wm t target k p ∙ dropped out
  where
    dropped :
        (g.initphase ≡ true) ⊎ Far g seq
        → (if g.initphase
            then some (quiet d node false)
            else take_list d g target teamid seq m node)
          ≡ some (quiet d node false)
    dropped (inl h) = rw h refl
    dropped (inr h) = elim (Bool-cases g.initphase) [
      | inl q ↦ rw q refl
      | inr q ↦ rw (in_round-Far g seq h) (rw q refl)
    ]
