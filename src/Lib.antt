-- ===== src/Lib.antt =====
-- Verification of the parts of the Bitcoin application for Ledger devices that parse data and that
-- fetch data from the untrusted host.
--
-- The device keeps almost nothing of a wallet policy or of a transaction: a command carries SHA-256
-- hashes and Merkle roots, and the handlers ask the host for their preimages and for leaves of the
-- trees. Each answer must be checked against what the device already trusts, so the functions of
-- src/handler/lib are where the security of all the command handlers rests.
--
-- The files and the code they model:
--   Bytes      src/common/read.c and write.c: words in byte arrays, in both byte orders
--   Varint     src/common/varint.c: Bitcoin's variable-length integers
--   Bip32      src/common/bip32.c: derivation paths
--   Buffer     src/common/buffer.c and buffer.h: cursors over byte arrays
--   Parser     src/common/parser.c: reads across two buffers, and a parser run in steps
--   Script     src/common/script.c and script.h: script types and a printed form of OP_RETURN
--   Policy     src/handler/lib/policy.c: the stack machine that writes the script of a wallet policy,
--              over the syntax tree of src/common/wallet.h, the script sizes and the decimal
--              numbers of wallet.c
--   Dispatcher src/boilerplate/apdu_parser.c and the exchange with the host in dispatcher.c
--   Preimage   src/handler/lib/get_preimage.c, get_merkle_preimage.c and stream_preimage.c
--   Merkle     src/common/merkle.c and merkle.h, and src/handler/lib/get_merkle_leaf_hash.c,
--              get_merkle_leaf_index.c and get_merkle_leaf_element.c
--   MerkleMap  src/handler/lib/get_merkleized_map*.c, check_merkle_tree_sorted.c,
--              stream_merkle_leaf_element.c and stream_merkleized_map_value.c
--   Rawtx      src/handler/lib/psbt_parse_rawtx.c: the transaction parser, which is fed with pieces
--   Common     Boolean tests, lists, bits and results that all of these share
-- A definition has the name of the C function it models. The files below a module state and prove
-- what is known of it, and its Tests file holds runs on concrete data.
--
-- How the code is modelled. A byte array is the list of its bytes, a number is a natural number with
-- its wrap-around written out, and `size_t` has the 32 bits it has on the device. A pointer into an
-- array is the list from that place on; a function that changes what a pointer refers to returns the
-- new value. A `bool` with an output parameter is an Option or a pair with a Boolean. A function that
-- returns a count or a negative error code returns a Result, where `err n` is the value -n; `err 0` is
-- a call that does not return, which only ceil_lg causes.
--
-- The host is a list of exchanges: each either fails or leaves any bytes at all as the next APDU. A
-- theorem that takes any list of exchanges therefore holds against any host. SHA-256 is a parameter,
-- an arbitrary function from byte lists to byte lists, and nothing is assumed of it. A hash context is
-- the list of the bytes that it was updated with.
--
-- Bounds and fuel. ceil_lg has 33 rounds, one more than the 32 that a 32-bit power of two can be
-- doubled before it wraps; merkle_get_ith_direction has 32, since a tree of at most 2^31 leaves is at
-- most 31 deep. The loops of the transaction parser have twice the number of unread bytes and two:
-- each round but at most one reads a byte. The loops over replies run on the list of exchanges, and
-- the loops over elements on the number of elements that are left. The machine of Policy has fuel for
-- its passes, and its theorem gives the number that a tree needs. Its stack has the 10 places of
-- MAX_POLICY_DEPTH, its steps 8 bits and its lengths 16; where the code would read beyond one of its
-- arrays, the outcome of the machine is `broken`.
--
-- Not modelled: the user interface, the transport and the main loop, which are I/O; the cryptographic
-- library and the address encoders, which the code only calls; the parser of descriptor templates and
-- the checks of miniscript types and of limits but the script size; the outer scripts, taproot trees
-- and the derivation of keys, which the machine of Policy takes as a parameter; the signing flow.
pub mod Common
pub mod Bytes
pub mod Varint
pub mod Bip32
pub mod Buffer
pub mod Parser
pub mod Policy
pub mod Script
pub mod Dispatcher
pub mod Preimage
pub mod Merkle
pub mod MerkleMap
pub mod Rawtx
