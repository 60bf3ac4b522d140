-- ===== src/Lib.antt =====
-- The Bitcoin wallet app of the device (src/): what it computes on the bytes that an untrusted host
-- sends. The app is a set of command handlers. A handler gets a command from the dispatcher
-- (src/boilerplate/dispatcher.c), writes a response to a global buffer (src/boilerplate/io.c), and may
-- interrupt itself to ask the host for data (src/handler/lib): leaves of Merkle trees, with their
-- proofs, and preimages of hashes. What the host answers is read with a cursor over the command's
-- bytes (src/common/buffer.c) and counts only once it is verified.
--
-- Files, and the code that they are about:
--   Base         shared names: Boolean tests on numbers, lists, memory, bit operations
--   Bytes        src/common/read.c, write.c: integers in memory, both byte orders
--   Varint       src/common/varint.c: Bitcoin's variable-length integers
--   Buffer       src/common/buffer.c, buffer.h: the cursor
--   Merkle       src/common/merkle.c, merkle.h: node hashes and the path to a leaf; Merkle/Tree is the
--                tree as doc/merkle.md defines it
--   Io           src/boilerplate/io.c: the response under construction
--   Apdu         src/boilerplate/apdu_parser.c: the header of a command
--   Dispatcher   src/boilerplate/dispatcher.c, dispatcher.h: the context of a handler, and the exchange
--                with the host in the middle of a command; Dispatch is the choice of the handler,
--                which is any function of the context
--   Client       src/handler/lib: the requests to the host, and how the answers are verified:
--                LeafHash (get_merkle_leaf_hash.c), Preimage (get_preimage.c, get_merkle_preimage.c),
--                Leaf (get_merkle_leaf_index.c, get_merkle_leaf_element.c, get_merkleized_map_value.c,
--                get_merkleized_map_value_hash.c), Stream (stream_preimage.c,
--                stream_merkle_leaf_element.c), Sorted (check_merkle_tree_sorted.c,
--                get_merkleized_map.c)
--   Parser       src/common/parser.c: two buffers read as one, and the resumable parser
--   Rawtx        src/handler/lib/psbt_parse_rawtx.c: the parser of raw transactions. State is what the
--                parser keeps; Input, Output, Witness and Whole have its steps; Format is the wire
--                format of transactions
--   Script       src/common/script.c: output script types, push sizes, and the description of
--                OP_RETURN outputs
--   Bip32        src/common/bip32.c: derivation paths
--   Policy       src/common/wallet.c: the header of a serialized wallet policy, and the numbers,
--                hashes in hexadecimal, derivation steps and key placeholders of its text
--   Miniscript   src/common/wallet.c, wallet.h and src/handler/lib/policy.c: the nodes of a descriptor
--                template (Node), `parse_descriptor_template` on text (Token, Fragment, Parse), the
--                type rules of `parse_script` (Typing), the analysis
--                compute_miniscript_policy_ext_info (Info, Script2, Thresh, Amount, Analysis) and the
--                sanity checks; Ways has the canonical ways to satisfy a script, from the
--                definition of the language, Typed the nodes that get their flags by the checks of
--                the parser, Rules the type system by the tables of the language, and Accepted the
--                nodes that the parser accepts
--   Format       src/common/format.c: bytes in hexadecimal
--   Bitvector    src/common/bitvector.h: flags in an array of bytes
--
-- Memory is a list of bytes, and a pointer is the memory from it on. An access outside it is undefined
-- behaviour in C and `none` here, in a type Option around what the function returns. Integers are
-- natural numbers; every wrap-around is written out. `size_t` has 32 bits, as on the devices. A
-- handler is a function of the context with the messages that the host will send, in order: a theorem
-- on all contexts holds for every host. SHA-256 is an argument of the definitions that use it.
--
-- Loops: those over a list or a count are structural. `ceil_lg` has 32 rounds and the loop of
-- `get_ith_direction` 32, which is enough for trees of at most 2 ^ 31 leaves. The loops that ask the
-- host for more take one round per message, so they get one round more than there are messages.
-- The loops over a script take one round more than it has bytes, and that over decimal digits one more
-- than the buffer has. `io_add_to_response` calls itself at most once where it ends.
--
-- The fuel of `parse_script` is a round more than there are characters left: each nesting, each key and
-- each script of a thresh takes a character at least. The counts `n` of a thresh and a multi are
-- int16_t; the theorems on the parser are for texts of at most 2 ^ 15 - 2 characters, where they do not
-- wrap around, while a device reads at most 512.
--
-- Not modelled: the user interface, the SDK with its timeouts and its cryptography, segwit_addr.c (a
-- third-party copy), and so far the keys of wallet policies and the scripts made of them, the signing
-- of transactions, the commands' handlers, and the formatting of numbers, addresses and paths for the
-- screen.
pub mod Base
pub mod Bytes
pub mod Varint
pub mod Buffer
pub mod Merkle
pub mod Io
pub mod Apdu
pub mod Dispatcher
pub mod Client
pub mod Format
pub mod Parser
pub mod Script
pub mod Bip32
pub mod Rawtx
pub mod Policy
pub mod Bitvector
pub mod Miniscript
