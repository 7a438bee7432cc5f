-- ===== src/Wire/Examples.antt =====
-- The messages at concrete values.
use xgossip.Prelude.{◌≡◌, [], ◌∷◌, refl, arith, length}
use xgossip.Numbers.{num, eights, eight_bytes}
use xgossip.Scale.{Freqs}
use xgossip.Wire.{Bytes, put_int, vxgossip, vxgossipc}
use xgossip.Wire.Read.{decoded}
use xgossip.Wire.Gossip.{make_gossip, get_gossip, gossip_len, get_gossip-make_gossip}
use xgossip.Wire.Init.{InitMsg}
use xgossip.Wire.Compressed.{
  CompressedMsg, Fits, compressed_len, make_compressed, get_compressed,
  get_compressed-make_compressed,
}
use xgossip.Wire.Query.{QueryMsg}

abbrev team : Bytes
team = b'a' ∷ b'7' ∷ []

abbrev one_list : Freqs eights
one_list = (2 ∷ 300 ∷ [], (num 4, num 1)) ∷ []

int_run : put_int 0x01020304 ≡ 4 ∷ 3 ∷ 2 ∷ 1 ∷ []
unfolding put_int
int_run = refl

get_gossip-make_gossip_example :
    get_gossip eights eight_bytes
      (make_gossip eights eight_bytes vxgossip team team 3 one_list)
      (length (make_gossip eights eight_bytes vxgossip team team 3 one_list))
    ≡ decoded (record { key = team; teamid = team; seq = 3; entries = one_list })
unfolding gossip_len
get_gossip-make_gossip_example =
    get_gossip-make_gossip eights eight_bytes vxgossip team team 3 one_list (omega arith)
      (omega arith) (omega arith)

abbrev init_msg : InitMsg eights eight_bytes
init_msg = record { key = team; teamid = team; sig = 2 ∷ 300 ∷ []; freq = num 1; weight = num 1 }

abbrev query_msg : QueryMsg
query_msg = record { key = team; teamid = team; dtd = b'd' ∷ []; sig = 2 ∷ 300 ∷ []; qid = 12 }

-- The signatures (2, 300) and (2), compressed.
abbrev compressed_msg : CompressedMsg eights eight_bytes
compressed_msg = record {
  key = team;
  teamid = team;
  seq = 3;
  rows = (2, 0xc0 ∷ []) ∷ (300, 0x80 ∷ []) ∷ [];
  numbers = (num 4, num 1) ∷ (num 2, num 1) ∷ [];
}

compressed_msg-Fits : Fits eights eight_bytes compressed_msg
unfolding compressed_len
compressed_msg-Fits = (omega arith, omega arith, ((omega arith, refl), ((omega arith, refl), tt)))

get_compressed-make_compressed_example :
    (length (make_compressed eights eight_bytes vxgossipc compressed_msg)
      ≡ compressed_len eights eight_bytes compressed_msg)
    × (get_compressed eights eight_bytes
          (make_compressed eights eight_bytes vxgossipc compressed_msg)
          (length (make_compressed eights eight_bytes vxgossipc compressed_msg))
        ≡ decoded compressed_msg)
get_compressed-make_compressed_example =
    get_compressed-make_compressed eights eight_bytes vxgossipc compressed_msg compressed_msg-Fits
