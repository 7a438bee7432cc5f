-- ===== src/Receive/Examples.antt =====
-- Messages as a node of one team receives them, each in two parts.
use xgossip.Prelude.{ℕ, ◌≡◌, refl, List, [], ◌∷◌, ◌++◌, some, true, false, inl, inr, arith, map}
use xgossip.Numbers.{num, eights, eight_bytes}
use xgossip.Scale.{Freqs}
use xgossip.Sig.{dummysig, hldsig, sigcmp}
use xgossip.Ring.Hex.{str2chord_id, read_hex, hex_value}
use xgossip.Init.{find_team}
use xgossip.Init.Step.{WellFormed}
use xgossip.Collect.Unions.{Ascending}
use xgossip.Compress.{
  compress_signatures, compress_loop, least, advance, ended, total, has_empty, set_bit,
}
use xgossip.Wire.Read.{get_int}
use xgossip.Wire.{
  Bytes, InsertType, put_int, put_str, put_sig, put_polys, type_code, xgossip_msg, xgossipc,
  vxgossip, informteam, queryx,
}
use xgossip.Wire.Gossip.{make_gossip, gossip_len, entries_len, put_gossip_body, put_entries}
use xgossip.Wire.Compressed.{
  Row, CompressedMsg, make_compressed, compressed_len, Fits, put_compressed_body, put_rows,
  put_pairs,
}
use xgossip.Wire.Init.{InitMsg, make_init, init_len, put_init_body}
use xgossip.Wire.Query.{QueryMsg, make_query, query_len, put_query_body}
use xgossip.Receive.{Globals, Node, quiet, to_first, kind_of}
use xgossip.Receive.Round.{Near, Far}
use xgossip.Receive.Socket.{
  Parts, read_bytes, get_key_value_len, read_message, arrived, read_message-Parts,
}
use xgossip.Receive.Handle.{readgossip}
use xgossip.Receive.Accepts.{readgossip-make_gossip, readgossip_discards}
use xgossip.Receive.Compressed.{compressed, readgossip-make_compressed}
use xgossip.Receive.Signatures.{Informed, readgossip-make_init}
use xgossip.Receive.Answers.{Answered, readgossip-make_query}

-- The team 0xa7, in hexadecimal.
abbrev team : Bytes
team = b'a' ∷ b'7' ∷ []

abbrev here : Freqs eights
here = (hldsig, (num 0, num 1)) ∷ (dummysig, (num 0, num 1)) ∷ (3 ∷ 9 ∷ [], (num 8, num 2)) ∷ []

abbrev node : Node eights
node = record {
  lists = record { teamindex = (0xa7, 0 ∷ []) ∷ []; total = (here ∷ []) ∷ [] };
  rxseq = [];
  rxqseq = 0;
  proxyminsim = num 0;
  proxyavgsim = num 0;
}

abbrev running : Globals
running = record {
  initphase = false;
  vanilla = false;
  bcast = false;
  accept_anyround = false;
  teamsize = 8;
  txseq = 4;
  gproxysig = [];
}

abbrev starting : Globals
starting = record running { initphase = true }

abbrev sent : Freqs eights
sent = (2 ∷ [], (num 4, num 1)) ∷ (2 ∷ 300 ∷ [], (num 2, num 1)) ∷ []

-- The type and the length, the first part of a message.
abbrev head : InsertType → ℕ → Bytes
head t len = put_int (type_code t) ++ put_int len

abbrev after : Node eights
after = record node {
  lists = record { teamindex = (0xa7, 0 ∷ []) ∷ []; total = (here ∷ sent ∷ []) ∷ [] };
  rxseq = 5 ∷ [];
}

abbrev gossip_body : Bytes
gossip_body = put_gossip_body eights eight_bytes team team 5 sent

gossip_body-Parts :
    Parts
      (head xgossip_msg 80)
      (gossip_body ∷ [])
      (make_gossip eights eight_bytes xgossip_msg team team 5 sent)
unfolding make_gossip put_gossip_body put_entries put_int put_str put_sig put_polys type_code
    gossip_len entries_len
gossip_body-Parts = (refl, omega arith, (tt, tt))

abbrev late_body : Bytes
late_body = put_gossip_body eights eight_bytes team team 2 sent

late_body-Parts :
    Parts
      (head vxgossip 80)
      (late_body ∷ [])
      (make_gossip eights eight_bytes vxgossip team team 2 sent)
unfolding make_gossip put_gossip_body put_entries put_int put_str put_sig put_polys type_code
    gossip_len entries_len
late_body-Parts = (refl, omega arith, (tt, tt))

sent-Ascending : Ascending eights sent
unfolding sigcmp
sent-Ascending = (refl, tt)

in_time : Near running 5
in_time = (omega arith, omega arith, inr (omega arith, omega arith))

too_late : Far running 2
too_late = (omega arith, omega arith, refl, inr (omega arith))

readgossip-make_gossip_example :
    readgossip eights eight_bytes running
      (map read_bytes (head xgossip_msg 80 ∷ gossip_body ∷ []))
      node
    ≡ some (quiet eights after true)
unfolding gossip_len entries_len find_team str2chord_id read_hex hex_value
readgossip-make_gossip_example =
    readgossip-make_gossip eights eight_bytes running team team 5 sent (head xgossip_msg 80)
      (gossip_body ∷ []) node 0 [] (here ∷ []) gossip_body-Parts (omega arith) (omega arith)
      (omega arith) sent-Ascending refl in_time refl refl

readgossip_discards_example :
    readgossip eights eight_bytes running (map read_bytes (head vxgossip 80 ∷ late_body ∷ [])) node
    ≡ some (quiet eights node false)
unfolding gossip_len entries_len kind_of type_code
readgossip_discards_example =
    readgossip_discards eights eight_bytes running vxgossip to_first team team 2 sent
      (head vxgossip 80) (late_body ∷ []) node refl late_body-Parts (omega arith) (omega arith)
      (omega arith) (inr too_late)

-- The two signatures compressed: 2 is in both, and 300 in the second.
abbrev rows : List Row
rows = (2, 0xc0 ∷ []) ∷ (300, 0x40 ∷ []) ∷ []

rows_run :
    compress_signatures ((2 ∷ []) ∷ (2 ∷ 300 ∷ []) ∷ [])
    ≡ some (true, 2 ∷ 300 ∷ [], (0xc0 ∷ []) ∷ (0x40 ∷ []) ∷ [])
unfolding compress_signatures compress_loop least advance ended total has_empty set_bit
rows_run = refl

abbrev packed : CompressedMsg eights eight_bytes
packed = compressed eights eight_bytes team team 5 rows sent

abbrev packed_body : Bytes
packed_body = put_compressed_body eights eight_bytes packed

packed-Parts :
    Parts (head xgossipc 74) (packed_body ∷ []) (make_compressed eights eight_bytes xgossipc packed)
unfolding make_compressed put_compressed_body put_rows put_pairs put_int put_str type_code
    compressed_len
packed-Parts = (refl, omega arith, (tt, tt))

packed-Fits : Fits eights eight_bytes packed
unfolding compressed_len
packed-Fits = (omega arith, omega arith, ((omega arith, refl), ((omega arith, refl), tt)))

readgossip-make_compressed_example :
    readgossip eights eight_bytes running
      (map read_bytes (head xgossipc 74 ∷ packed_body ∷ []))
      node
    ≡ some (quiet eights after true)
unfolding find_team str2chord_id read_hex hex_value has_empty
readgossip-make_compressed_example =
    readgossip-make_compressed eights eight_bytes running team team 5 rows (2 ∷ [], (num 4, num 1))
      ((2 ∷ 300 ∷ [], (num 2, num 1)) ∷ []) (head xgossipc 74) (packed_body ∷ []) node 0 []
      (here ∷ []) rows_run packed-Parts packed-Fits (omega arith) refl sent-Ascending refl in_time
      refl refl

abbrev inform_msg : InitMsg eights eight_bytes
inform_msg = record { key = team; teamid = team; sig = dummysig; freq = num 0; weight = num 1 }

abbrev inform_body : Bytes
inform_body = put_init_body eights eight_bytes inform_msg

inform-Parts :
    Parts
      (head informteam 44)
      (inform_body ∷ [])
      (make_init eights eight_bytes informteam inform_msg)
unfolding make_init put_init_body put_int put_str put_sig put_polys type_code init_len
inform-Parts = (refl, omega arith, (tt, tt))

node-WellFormed : WellFormed eights node.lists
unfolding sigcmp
node-WellFormed = ((omega arith, tt), ((refl, refl, (refl, tt)), tt))

readgossip-make_init_example : Informed eights eight_bytes starting inform_msg node (
    readgossip eights eight_bytes starting
      (map read_bytes (head informteam 44 ∷ inform_body ∷ []))
      node)
unfolding kind_of type_code init_len
readgossip-make_init_example =
    readgossip-make_init eights eight_bytes starting informteam inform_msg (head informteam 44)
      (inform_body ∷ []) node refl inform-Parts (omega arith) (omega arith) refl node-WellFormed
      (inl refl)

abbrev query_msg : QueryMsg
query_msg = record { key = team; teamid = team; dtd = b'd' ∷ []; sig = 9 ∷ []; qid = 12 }

abbrev query_body : Bytes
query_body = put_query_body query_msg

query-Parts : Parts (head queryx 37) (query_body ∷ []) (make_query queryx query_msg)
unfolding make_query put_query_body put_int put_str put_sig put_polys type_code query_len
query-Parts = (refl, omega arith, (tt, tt))

readgossip-make_query_example :
    Answered eights eight_bytes query_msg here node (
      readgossip eights eight_bytes running
        (map read_bytes (head queryx 37 ∷ query_body ∷ []))
        node)
unfolding query_len find_team str2chord_id read_hex hex_value
readgossip-make_query_example =
    readgossip-make_query eights eight_bytes running queryx query_msg (head queryx 37)
      (query_body ∷ []) node 0 [] here [] (inl refl) query-Parts (omega arith) (omega arith)
      (omega arith) refl refl refl (λ h. cc) (omega arith) (omega arith)

whole_len : get_key_value_len (make_query queryx query_msg) ≡ some 37
unfolding get_key_value_len get_int make_query put_query_body put_int put_str put_sig put_polys
    type_code query_len
whole_len = refl

read_message-Parts_example :
    read_message (map read_bytes (head queryx 37 ∷ query_body ∷ []))
    ≡ some (arrived (make_query queryx query_msg))
unfolding make_query put_query_body put_int put_str put_sig put_polys type_code query_len
read_message-Parts_example =
    read_message-Parts (head queryx 37) (query_body ∷ []) (make_query queryx query_msg) query-Parts
      whole_len (omega arith)
