-- ===== src/Receive/Compressed.antt =====
-- `readgossip` of chord-0.1-vasil/tools/gpsi.C on the messages with compressed signatures.
use mathlib.Core.Option.{some-injective}
use xgossip.Prelude.{
  ℕ, ◌≡◌, refl, sym, ap, ◌∙◌, List, [], ◌∷◌, ◌++◌, some, Bool, true, false, length, length-map, map,
  set, get_elem?, All,
}
use xgossip.Doubles.{Doubles}
use xgossip.Scale.{Pair, Vecomap}
use xgossip.Sig.{Sig}
use xgossip.Init.{find_team}
use xgossip.Collect.{Entries}
use xgossip.Collect.Unions.{Ascending}
use xgossip.Compress.{has_empty, compress_signatures, uncompress_signatures}
use xgossip.Compress.Roundtrip.{IsPoly, uncompress_signatures-compress_signatures}
use xgossip.Wire.{Bytes, DoubleBytes, type_code, xgossipc}
use xgossip.Wire.Compressed.{
  Row, CompressedMsg, make_compressed, compressed_len, put_compressed_body, Fits,
  get_compressed-make_compressed,
}
use xgossip.Receive.{kind_of, Globals, id_of, Node, quiet}
use xgossip.Receive.Round.{Near, in_round-Near}
use xgossip.Receive.Socket.{Parts, read_bytes}
use xgossip.Receive.Lists.{take_list, take_compressed, pair_up}
use xgossip.Receive.Handle.{by_kind, readgossip}
use xgossip.Receive.Accepts.{readgossip-by_kind, store-team}

-- The two lists that `compressSignatures` makes, side by side.
abbrev pub polys : List Row → List ℕ
polys rows = map (λ (x : Row). x.0) rows

abbrev pub bitmaps : List Row → List (List ℕ)
bitmaps rows = map (λ (x : Row). x.1) rows

module _ (d : Doubles) where
  abbrev pub sigs_of : Entries d → List Sig
  sigs_of es = map (λ (e : Sig × Pair d). e.0) es

  abbrev pub pairs_of : Entries d → List (Pair d)
  pairs_of es = map (λ (e : Sig × Pair d). e.1) es

  pair_up_again : (es : Entries d) → pair_up d (sigs_of es) (pairs_of es) ≡ es
  unfolding pair_up
  pair_up_again [] = refl
  pair_up_again (e ∷ es) = ap (◌∷◌ e) (pair_up_again es)

  module _ (r : DoubleBytes d) where
    -- The compressed form of a list.
    abbrev pub compressed : Bytes → Bytes → ℕ → List Row → Entries d → CompressedMsg d r
    compressed key teamid seq rows es = record {
      key = key;
      teamid = teamid;
      seq = seq;
      rows = rows;
      numbers = pairs_of es;
    }

    uncompressed :
        (rows : List Row) (e : Sig × Pair d) (es : Entries d)
        → All IsPoly (sigs_of (e ∷ es))
        → has_empty (sigs_of (e ∷ es)) ≡ false
        → compress_signatures (sigs_of (e ∷ es)) ≡ some (true, polys rows, bitmaps rows)
        → uncompress_signatures (polys rows) (bitmaps rows) (length (pairs_of (e ∷ es)))
          ≡ some (true, sigs_of (e ∷ es))
    uncompressed rows e es a h c =
        let (ps, bms, c', x) = uncompress_signatures-compress_signatures e.0 (sigs_of es) a h in
        let same = some-injective _ _ (sym c ∙ c') in
        ap
          (λ (z : Bool × List ℕ × List (List ℕ)).
            uncompress_signatures z.1 z.2 (length (pairs_of (e ∷ es))))
          same
        ∙ ap (uncompress_signatures ps bms) (
            length-map (λ (q : Sig × Pair d). q.1) (e ∷ es)
            ∙ sym (length-map (λ (q : Sig × Pair d). q.0) (e ∷ es)))
        ∙ x

    readgossip-compressed :
        (g : Globals) (m : CompressedMsg d r) (c : Bytes) (cs : List Bytes) (node : Node d)
        → Parts c cs (make_compressed d r xgossipc m)
        → Fits d r m
        → readgossip d r g (map read_bytes (c ∷ cs)) node
          ≡ by_kind d r g
              (kind_of (type_code xgossipc))
              (make_compressed d r xgossipc m)
              (length (make_compressed d r xgossipc m))
              node
    unfolding make_compressed
    readgossip-compressed g m c cs node p f =
        let fits = (get_compressed-make_compressed d r xgossipc m f).0 in
        readgossip-by_kind d r g xgossipc (compressed_len d r m) (put_compressed_body d r m) c cs
          node p fits f.0

-- A gossip message with compressed signatures, made by `compressSignatures` and `makeKeyValue` from
-- an ascending list of one or more entries, none of whose signatures is empty, has the effect of the
-- list itself: in the phase of execution, and in a round that differs from the node's by at most one
-- unless any round is accepted, it is appended, as it was, to the lists of its team, if the node
-- knows that; `rxseq` gets the sequence number, and the socket is closed.
pub readgossip-make_compressed :
    (d : Doubles) (r : DoubleBytes d) (g : Globals) (key teamid : Bytes) (seq : ℕ) (rows : List Row)
    (e : Sig × Pair d) (es : Entries d) (c : Bytes) (cs : List Bytes) (node : Node d) (i : ℕ)
    (is : List ℕ) (v : Vecomap d)
    → compress_signatures (sigs_of d (e ∷ es)) ≡ some (true, polys rows, bitmaps rows)
    → Parts c cs (make_compressed d r xgossipc (compressed d r key teamid seq rows (e ∷ es)))
    → Fits d r (compressed d r key teamid seq rows (e ∷ es))
    → All IsPoly (sigs_of d (e ∷ es))
    → has_empty (sigs_of d (e ∷ es)) ≡ false
    → Ascending d (e ∷ es)
    → g.initphase ≡ false
    → Near g seq
    → find_team (id_of teamid) node.lists.teamindex ≡ some (i ∷ is)
    → get_elem? node.lists.total i ≡ some v
    → readgossip d r g (map read_bytes (c ∷ cs)) node
      ≡ some (
          quiet d
            (record node {
              lists = record {
                teamindex = node.lists.teamindex;
                total = set node.lists.total i (v ++ (e ∷ es) ∷ []);
              };
              rxseq = node.rxseq ++ seq ∷ [];
            })
            true)
unfolding by_kind kind_of type_code take_compressed take_list
readgossip-make_compressed d r g key teamid seq rows e es c cs node i is v k p f a h o phase round t
      q =
    let m = compressed d r key teamid seq rows (e ∷ es) in
    readgossip-compressed d r g m c cs node p f
    ∙ rw (get_compressed-make_compressed d r xgossipc m f).1 (
        rw (uncompressed d r rows e es a h k, take_compressed)
          (rw (pair_up_again d (e ∷ es)) (
            rw (in_round-Near g seq round)
              (rw (store-team d r g teamid (e ∷ es) i is node.lists v o t q) (rw phase refl)))))
