-- ===== src/Gossip/Examples.antt =====
-- Two peers that gossip, over numbers modulo 3, where a half is exact: half of x is 2x.
use xgossip.Prelude.{◌≡◌, refl, arith, [], ◌∷◌, some, Bool, true, false}
use xgossip.Doubles.{Doubles}
use xgossip.Scale.{Freqs, dividefreq, divide_all, at_list}
use xgossip.Sig.{dummysig, hldsig, sigcmp}
use xgossip.Merge.{mergelists}
use xgossip.Merge.Lookup.{Listed}
use xgossip.Collect.{vecomap2vec}
use xgossip.Gossip.{
  Peer, Net, merges, sends, Reach, start, later, merge_peer, message, after_success,
}
use xgossip.Gossip.Exact.{Exact}
use xgossip.Gossip.Mass.{Sound}
use xgossip.Gossip.Healthy.{Healthy}
use xgossip.Gossip.Weights.{net_mass}
use xgossip.Gossip.Safety.{Reach-Healthy}
use xgossip.Gossip.Conserved.{Reach-mass}

data Third : Type 0 where
  nought first second : Third

plus : Third → Third → Third
plus nought y = y
plus first nought = first
plus first first = second
plus first second = nought
plus second nought = second
plus second first = nought
plus second second = first

abbrev thirds : Doubles
thirds = record {
  Double = Third;
  zero = nought;
  one = first;
  add = plus;
  div_int = λ x k. plus x x;
  mul_int = λ x k. plus x x;
  div = λ x y. x;
  ratio = λ m n. nought;
  less = λ x y. false;
  is_nan = λ x. false;
  is_inf = λ x. false;
}

plus_comm : (x y : Third) → plus x y ≡ plus y x
unfolding plus
plus_comm nought nought = refl
plus_comm nought first = refl
plus_comm nought second = refl
plus_comm first nought = refl
plus_comm first first = refl
plus_comm first second = refl
plus_comm second nought = refl
plus_comm second first = refl
plus_comm second second = refl

plus_assoc : (x y z : Third) → plus (plus x y) z ≡ plus x (plus y z)
unfolding plus
plus_assoc nought y z = refl
plus_assoc first y z = ground arith
plus_assoc second y z = ground arith

plus_fourfold : (x : Third) → plus (plus x x) (plus x x) ≡ x
unfolding plus
plus_fourfold nought = refl
plus_fourfold first = refl
plus_fourfold second = refl

exact_thirds : Exact thirds
unfolding plus
exact_thirds = record {
  add_comm = plus_comm;
  add_assoc = plus_assoc;
  zero_add = λ x. refl;
  halves = plus_fourfold;
  half_zero = refl;
  twice = λ x. refl;
}

abbrev here : Freqs thirds
here = (hldsig, (nought, first)) ∷ (dummysig, (nought, first)) ∷ (5 ∷ 6 ∷ [], (first, first)) ∷ []

abbrev there : Freqs thirds
there = (hldsig, (nought, first)) ∷ (dummysig, (nought, first)) ∷ []

abbrev merged_here : Freqs thirds
merged_here =
    (hldsig, (nought, second)) ∷ (dummysig, (nought, second)) ∷ (5 ∷ 6 ∷ [], (second, second)) ∷ []

abbrev peer_of : Freqs thirds → Bool → Peer thirds
peer_of m b = record { lists = m ∷ []; pending = b }

abbrev before : Net thirds
before = record { peers = peer_of here false ∷ peer_of there false ∷ []; flying = [] }

abbrev after : Net thirds
after = record {
  peers = peer_of merged_here false ∷ peer_of there false ∷ [];
  flying = merged_here ∷ [];
}

merge_here : merge_peer thirds false (peer_of here false) ≡ some (peer_of merged_here true)
unfolding merge_peer mergelists dividefreq divide_all at_list plus
merge_here = refl

message_here : message thirds (peer_of merged_here true) ≡ some merged_here
unfolding message vecomap2vec
message_here = refl

-- One peer merges and sends.
one_round : (consume : Bool) → Reach thirds false consume before after
unfolding after_success
one_round consume =
    later
      (later start (merges 0 (peer_of here false) (peer_of merged_here true) refl refl merge_here))
      (sends 0 (peer_of merged_here true) merged_here refl refl message_here)

before-Listed : Healthy thirds (Listed thirds false) before
unfolding sigcmp
before-Listed = ((((refl, refl, (refl, tt)), tt), (((refl, refl, tt), tt), tt)), tt)

before-Sound : Healthy thirds (Sound thirds false) before
unfolding sigcmp
before-Sound = (((((refl, refl, (refl, tt)), refl), tt), ((((refl, refl, tt), refl), tt), tt)), tt)

dummy_below : sigcmp dummysig (5 ∷ 6 ∷ []) ≡ true
unfolding sigcmp
dummy_below = refl

Reach-Healthy_example : Healthy thirds (Listed thirds false) after
Reach-Healthy_example = Reach-Healthy thirds false true before after before-Listed (one_round true)

Reach-mass_example :
    net_mass thirds false (5 ∷ 6 ∷ []) after ≡ net_mass thirds false (5 ∷ 6 ∷ []) before
Reach-mass_example =
    Reach-mass thirds false (5 ∷ 6 ∷ []) before after exact_thirds dummy_below before-Sound
      (one_round true)
