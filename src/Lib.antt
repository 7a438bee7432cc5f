-- ===== src/Lib.antt =====
-- XGossip: a verification library for the gossip on XML signatures of this repository.
--
-- The program chord-0.1-vasil/tools/gpsi.C runs on every node of a Chord ring. A node turns its
-- XML documents into signatures, sorted multisets of polynomials; it sends each signature to the
-- teams that locality-sensitive hashing picks (the initialisation phase); the members of a team
-- then gossip, each sending half of its frequencies and weights and merging what it receives,
-- until the quotient of frequency and weight of a signature is near its average over the team;
-- and queries are answered from these lists. The messages are written and read by
-- chord-0.1-vasil/utils/utils.C, identifiers are compared by chord-0.1-vasil/utils/id_utils.C.
--
-- Files, and the code that they model:
-- - Ring: the identifier circle, utils/id_utils.C (Ring/Hex has str2chordID; incIDby, incID,
--   decID, successorID, predecessorID, doubleID, the four between tests, distance, diff).
-- - Sig: signatures, tools/gpsi.C and CompareSig of utils/utils.h. Sig has samesig, sigcmp,
--   validsig and inverse; Sig/Sets has set_inter, set_inter_noskip, set_uni and signcmp, whose
--   iterators are the suffixes that are left to read.
-- - Compress: compressSignatures and uncompressSignatures of utils/utils.C.
-- - Doubles: the operations on double, a parameter, and fixnan; Numbers is a concrete choice for
--   the examples.
-- - Table: mapType, a std::map, as the list of its entries in the order of CompareSig, with find
--   and the two ways of writing. Scale: vecomap, dividefreq, multiplyfreq.
-- - Merge: mergelists and mergelists_nogossip.
-- - Team: make_team and the destination of informteam.
-- - Init: initgossiprecv on the globals teamindex and totalT; the messages that it makes
--   informteam send are a result.
-- - Collect: calcfreq, calcfreqM, add2vecomapx, add2vecomapv, mergeinit, mergebyteamid and
--   vecomap2vec.
-- - Query: run_query; a tally of its outputs and of the two proxy globals is passed through.
-- - Gossip: a team of peers in the loop xgossip exec of main, as a step relation on their lists
--   of one team and the messages on their way. Gossip/Exact is the arithmetic that conserving
--   mass needs, which the machine's rounding only approximates; Gossip/Weights says what a
--   signature weighs in a team.
-- - Receive: readgossip of tools/gpsi.C. Receive/Socket is its read loop, Receive/Lists and
--   Receive/Queries what it does with the kinds of messages, Receive/Handle the choice between
--   them; Receive/Round says which rounds it accepts.
-- - Text: tokenize, string2sig and sig2str of tools/gpsi.C, with decimal numbers.
-- - Saved: loginitstate, loadinitstate and findteamid of tools/gpsi.C; a file is its text, and
--   what the C library prints of a double and the bigint library of a chordID is a parameter.
-- - Lsh: getUniqueSet, isMinimum and getHashCode of the class lsh in utils/utils.C, run_lsh and
--   calcteamids of tools/gpsi.C; SHA-1 is a parameter.
-- - Send: lshsig and lshquery of tools/gpsi.C, which send a signature or a query to one node of
--   each of its teams; the calls of insertDHT are a result.
-- - Poly: multiplyPoly and addPoly of utils/utils.C on polynomials over GF(2), vectors of 32-bit
--   words.
-- - Division: getDegree, shiftLeft, shiftRight, remainder, quotient, gcd, gcdSpecial and lcm of
--   utils/utils.C. Division/Long is long division of numbers; Right, Frames, Rounds, State and
--   Loop follow the code's loop, whose divisor moves to the right past the words of the dividend;
--   Ideal is divisibility.
-- - Modular: modularMultPoly and findMod of utils/utils.C; Modular/Residues is congruence modulo
--   a polynomial.
-- - Payload: marshal_block, get_payload, makeDocid and getDocid of utils/utils.C.
-- - Wire: makeKeyValue and getKeyValue for gossip messages (Wire/Gossip), gossip messages with
--   compressed signatures (Wire/Compressed), messages of one signature (Wire/Init) and queries
--   (Wire/Query), on lists of bytes.
-- - Prelude: shared lists, tests and library names.
--
-- Conventions. Globals that a function writes are arguments and results. A read out of bounds,
-- which is undefined in C++, is none, and so is a missing entry that the code reads. Numbers are
-- natural numbers; where the code wraps, the modulus is written. A bigint difference that may be
-- negative is written out. A double is an abstract type with the operations that the code uses
-- and no laws: sums are stated in the order of the code. The eight bytes of a double, with their
-- round trip, are a parameter of the Wire modules. Output to the log is left out, as is the
-- timing.
--
-- Fuel. merge_loop, nogossip_loop and compress_loop take as fuel one more than the entries or
-- values that are left; each round consumes at least one, and the theorems on them show that they
-- end with a result. tokens_from and lines_from take the length of the text, of which each token
-- and line uses a character; word_loop and mod_loop take 32, the bits of a POLY, and find_bits 8;
-- get_payload takes the length of its input, of which each string uses four bytes; gcd_special
-- gives gcd two more than the bits of both polynomials, of which each call uses one; decimal_loop
-- takes 20, the digits of a 64-bit number.
--
-- Not modelled: the rest of main and the socket calls around the functions above, tools/psi.C (an
-- older index), tools/push_sum.C, and the Chord and DHash code in chord, dhash, lsd, merkle and
-- svc, which the program uses as a library.
pub mod Collect
pub mod Compress
pub mod Division
pub mod Doubles
pub mod Gossip
pub mod Init
pub mod Lsh
pub mod Merge
pub mod Modular
pub mod Numbers
pub mod Payload
pub mod Poly
pub mod Prelude
pub mod Query
pub mod Receive
pub mod Ring
pub mod Saved
pub mod Scale
pub mod Send
pub mod Sig
pub mod Table
pub mod Team
pub mod Text
pub mod Wire
