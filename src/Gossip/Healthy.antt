-- ===== src/Gossip/Healthy.antt =====
-- What the lists of the peers and the messages between them have in common in every state that a
-- team reaches, chord-0.1-vasil/tools/gpsi.C: `xgossip exec` of `main`.
use mathlib.Core.Option.{some-injective}
use mathlib.Core.Path.{subst, ap₂}
use xgossip.Prelude.{
  ℕ, ◌≡◌, refl, sym, ◌∙◌, List, [], ◌∷◌, ◌++◌, Option, some, Bool, true, false, All, All-get_elem?,
  All-set, All-append, All-middle, get_elem?, set, Bool-cases, inl, inr,
}
use xgossip.Doubles.{Doubles}
use xgossip.Scale.{Freqs, Vecomap}
use xgossip.Sig.{sigcmp, hldsig, dummysig}
use xgossip.Table.{SortedAbove}
use xgossip.Merge.{mergelists}
use xgossip.Merge.Lookup.{Listed}
use xgossip.Collect.{Entries, push_entries, vecomap2vec}
use xgossip.Collect.Unions.{Ascending}
use xgossip.Collect.Transport.{push_entries_again}
use xgossip.Gossip.{
  Peer, Net, Step, merges, sends, fails, delivers, merge_peer, message, after_success,
  after_failure, receive,
}
use xgossip.Gossip.Exact.{Exact}
use xgossip.Gossip.Mass.{Sound}
use xgossip.Gossip.Scaled.{
  scale, doubled, Listed-scale, Sound-doubled, mergelists_one, multiplyfreq-doubled,
  mergelists-Halved,
}

module _ (d : Doubles) where
  -- What a kind of list has to offer for the steps to keep it.
  pub record Keeps (vanilla : Bool) (P : Freqs d → Type 0) : Type 0 where
    pub listed : (t : Freqs d) → P t → Listed d vanilla t
    pub merged_one :
        (t : Freqs d) (v : Vecomap d)
        → All P (t ∷ v)
        → (t' : Freqs d) × (mergelists d vanilla (t ∷ v) ≡ some (t' ∷ [])) × P t'
    pub doubles : (t : Freqs d) → P t → P (scale d (doubled d) t)

  pub Listed-Keeps : (vanilla : Bool) → Keeps vanilla (Listed d vanilla)
  Listed-Keeps vanilla = record {
    listed = λ t l. l;
    merged_one = mergelists_one d vanilla;
    doubles = Listed-scale d (doubled d) vanilla;
  }

  pub Sound-Keeps : Exact d → (vanilla : Bool) → Keeps vanilla (Sound d vanilla)
  Sound-Keeps e vanilla = record {
    listed = λ t a. a.0;
    merged_one =
        λ t v a. let (t', h) = mergelists-Halved d e vanilla t v a in (t', h.call, h.sound);
    doubles = Sound-doubled d e vanilla;
  }

  below_dummy : sigcmp hldsig dummysig ≡ true
  unfolding sigcmp
  below_dummy = refl

  pub Listed-Ascending : (vanilla : Bool) (t : Freqs d) → Listed d vanilla t → Ascending d t
  Listed-Ascending true [] l = absurd l
  Listed-Ascending true ((k, p) ∷ m) l = subst (λ z. SortedAbove z m) (sym l.0) l.1
  Listed-Ascending false [] l = absurd l
  Listed-Ascending false (e ∷ []) l = absurd l
  Listed-Ascending false ((h, q) ∷ (k, p) ∷ m) l =
      (ap₂ sigcmp l.0 l.1 ∙ below_dummy, subst (λ z. SortedAbove z m) (sym l.1) l.2)

  abbrev pub peer : Vecomap d → Bool → Peer d
  peer v b = record { lists = v; pending = b }

  -- A peer has a list, and its lists are of one kind.
  abbrev pub Filled : (Freqs d → Type 0) → Peer d → Type 0
  Filled P p = elim p.lists [ [] ↦ ⊥ | t ∷ ts ↦ P t × All P ts ]

  -- All peers have lists, and these and the messages are of one kind.
  abbrev pub Healthy : (Freqs d → Type 0) → Net d → Type 0
  Healthy P n = All (Filled P) n.peers × All P n.flying

  module _ (vanilla consume : Bool) (P : Freqs d → Type 0) (k : Keeps vanilla P) where
    merged_lists :
        (v : Vecomap d) (b : Bool)
        → Filled P (peer v b)
        → (q : Peer d) × (merge_peer d vanilla (peer v b) ≡ some q) × Filled P q
    unfolding merge_peer
    merged_lists [] b a = absurd a
    merged_lists (t ∷ ts) b a =
        let (t', c, p) = k.merged_one t ts a in (peer (t' ∷ []) true, rw c refl, (p, tt))

    -- A peer with lists has one to merge into.
    pub merge_peer-Filled :
        (p : Peer d) → Filled P p → (q : Peer d) × (merge_peer d vanilla p ≡ some q) × Filled P q
    merge_peer-Filled p a = merged_lists p.lists p.pending a

    first_list :
        (v : Vecomap d) (b : Bool)
        → Filled P (peer v b)
        → (es : Entries d) × (message d (peer v b) ≡ some es) × P es
    unfolding message vecomap2vec
    first_list [] b a = absurd a
    first_list (t ∷ ts) b a = (t, refl, a.0)

    -- It has one to send.
    pub message-Filled :
        (p : Peer d) → Filled P p → (es : Entries d) × (message d p ≡ some es) × P es
    message-Filled p a = first_list p.lists p.pending a

    doubled_lists :
        (v : Vecomap d) (b : Bool)
        → Filled P (peer v b)
        → (q : Peer d) × (after_failure d consume (peer v b) ≡ some q) × Filled P q
    unfolding after_failure
    doubled_lists [] b a = absurd a
    doubled_lists (t ∷ ts) b a = elim (Bool-cases consume) [
      | inl c ↦ (
        peer (scale d (doubled d) t ∷ ts) false,
        rw (c, multiplyfreq-doubled d vanilla t ts (k.listed t a.0)) refl,
        (k.doubles t a.0, a.1),
      )
      | inr c ↦ (peer (t ∷ ts) false, rw c refl, a)
    ]

    -- It has one to take back.
    pub after_failure-Filled :
        (p : Peer d) → Filled P p → (q : Peer d) × (after_failure d consume p ≡ some q) × Filled P q
    after_failure-Filled p a = doubled_lists p.lists p.pending a

    received :
        (v : Vecomap d) (b : Bool) (t : Freqs d)
        → P t
        → Filled P (peer v b)
        → Filled P (peer (v ++ t ∷ []) b)
    received [] b t p a = absurd a
    received (u ∷ us) b t p a = (a.0, All-append P us (t ∷ []) a.1 (p, tt))

    pub again : (es : Entries d) → P es → push_entries d es [] ≡ es
    again es p = push_entries_again d es (Listed-Ascending vanilla es (k.listed es p))

    -- A list that is received is the one that was sent.
    pub receive-Filled :
        (es : Entries d) (p : Peer d) → P es → Filled P p → Filled P (receive d es p)
    unfolding receive
    receive-Filled es p b a =
        received p.lists p.pending (push_entries d es []) (subst P (sym (again es b)) b) a

    pub same_result :
        {A : Type 0} {Q : A → Type 0} {o : Option A} {q : A}
        → (x : A) × (o ≡ some x) × Q x
        → o ≡ some q
        → Q q
    same_result {Q = Q} {q = q} (x, c, h) g = subst Q (some-injective x q (sym c ∙ g)) h

    module _ (n : Net d) where
      replaced :
          (i : ℕ) (p q : Peer d) (es : List (Entries d))
          → get_elem? n.peers i ≡ some p
          → Healthy P n
          → Filled P q
          → All P es
          → Healthy P (record { peers = set n.peers i q; flying = es })
      replaced i p q es g h a b = (All-set (Filled P) n.peers i q h.0 a, b)

      pub filled : (i : ℕ) (p : Peer d) → get_elem? n.peers i ≡ some p → Healthy P n → Filled P p
      filled i p g h = All-get_elem? (Filled P) n.peers i p h.0 g

    pub Step-Healthy : (n m : Net d) → Step d vanilla consume n m → Healthy P n → Healthy P m
    unfolding after_success
    Step-Healthy n m (merges i p q g w c) h =
        replaced n i p q n.flying g h
          (same_result {Q = Filled P} (merge_peer-Filled p (filled n i p g h)) c) h.1
    Step-Healthy n m (sends i p es g w c) h =
        let a = filled n i p g h in
        replaced n i p (after_success d p) (es ∷ n.flying) g h a
          (same_result {Q = P} (message-Filled p a) c, h.1)
    Step-Healthy n m (fails i p q g w c) h =
        replaced n i p q n.flying g h
          (same_result {Q = Filled P} (after_failure-Filled p (filled n i p g h)) c) h.1
    Step-Healthy n m (delivers i p xs es ys g f) h =
        let (b, bs) = All-middle P xs es ys (subst (All P) f h.1) in
        replaced n i p (receive d es p) (xs ++ ys) g h (receive-Filled es p b (filled n i p g h)) bs
