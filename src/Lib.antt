-- ===== src/Lib.antt =====
-- Verification library of c_datum_prime, a DATUM Prime mining pool server in C.
--
-- Miners' gateways connect over TCP (src/main.c). A connection starts with a handshake
-- (src/handshake.c), then carries frames: a four-byte header that a ratchet masks, and an encrypted
-- payload (src/framing.c). Large replies come in fragments (src/bulk.c). Mining messages
-- (src/mining.c) carry jobs and shares; a share is checked (src/pow.c, src/abw.c) and counted in the
-- share ledger (src/ledger.c), by which a block's value is split among the miners. A thread keeps the
-- pool's share of the network's hashes under a cap (src/cap.c).
--
-- Files:
--   Common       shared names, Boolean tests, lists over the native numbers, laws of the bit operations
--   Wire         little-endian fields and byte comparison (`rd_u16` ... `wr_u64` of src/mining.c)
--   Framing      src/framing.c: `prime_feedback`, the header codec, the ratchet, the nonces, hex text
--   Bulk         src/bulk.c and the part of `handle_client` that calls it
--   Ledger       src/ledger.c; Ledger/Types has the rows and `ident_add`, Ledger/Split the split of a
--                block's value (`pot_split`, `split_window`), Ledger/Window the share window
--                (`prime_pool_record_share`, `trim`, `prime_pool_work_since`), Ledger/Empty the book of blocks
--                found empty,
--                Ledger/Owed the book of what is owed for finds (`prime_pool_record_owed`), Ledger/Replay
--                the replay guard, Ledger/Pool the pool with its fee, split and found blocks,
--                Ledger/Resume the saved sessions
--   Abw          src/abw.c: Abw/Mask the mask of a key, Abw/Keys and Abw/Rotation the slots of keys,
--                Abw/Notices `prime_abw_encode_notices`
--   Cap          src/cap.c: the policy (`prime_cap_policy`) and the measurements (`refresh_snap`),
--                Cap/Thread the tick of `cap_thread`, Cap/Command the text of a command (`json_escape`,
--                `gw_cmd`)
--   Pow          src/pow.c: Pow/Compact compact sizes, Pow/Target targets, Pow/Txid transaction ids,
--                Pow/Proof the hash of a header
--   Address      src/address.c: `base58_script` and `prime_address_script`
--   Config       src/handshake.c: `prime_encode_config_v1` and `prime_encode_config_v3`
--   Session      src/handshake.c: the encrypted channel (`prime_session_encrypt`, `prime_session_decrypt`),
--                and how `handle_client` reads a frame
--   Handshake    src/handshake.c: `prime_open_hello`, `prime_accept`, `prime_new_resume_token`
--   Connection   src/main.c: the loop of `handle_client`; Connection/Greeting what stands before and
--                behind it, Connection/Socket `read_exact`
--   Keys         src/keys.c: the key file and its reading
--   Mining       src/mining.c: the connection's state and the check of the split; Mining/Coinbaser
--                `on_coinbaser`, Mining/Job `install_job` and `install_coinbase`, Mining/Share and its
--                child modules `on_share` (Share/Verify `verify_pow`, Share/Judge the rest), Mining/Block
--                `stash_or_submit_block` and `prime_submit_block`, Mining/Merkle `merkle_of_txns`,
--                Mining/Validation `on_validation` and
--                `prime_submit_raw_block` of src/rpc.c, Mining/Handle `prime_handle_mining`
--
-- Connection composes the parts: Handshake opens the hello and gives a Session; a frame that Session
-- decrypts goes to Bulk or to Mining, whose encryption is a parameter that Connection fills with
-- `encrypt` of Session. A share passes through Mining/Share to the replay guard and the window of
-- Ledger; a block through Mining/Block, or Mining/Validation once its transactions came, to the node,
-- and through Ledger/Pool to the books. What the node and the file system answer is the record `Node`;
-- the time of a message is an argument.
--
-- A byte array is the list of its bytes, a C string the characters before its NUL, and a fixed-width
-- integer a natural number whose wrap-around is written out. Loops are structural recursion: on the
-- array, or on the number of rounds that the C code's bound gives, so no fuel can run out. `malloc` is
-- a parameter where the code tests its result, but for `install_coinbase`, where it is taken to
-- succeed.
--
-- What `poll` and `recv` answer on a connection is a list of events, each with the time and the random
-- bytes it finds; a run is over any list, so no idle or hostile peer is left out, but a connection
-- runs alone: what other connections do to the pool meanwhile is not modelled. libsodium is the record
-- `Sodium` of functions, SHA-256 and BLAKE2b are functions; what a theorem needs of them is a
-- hypothesis.
--
-- A `double` is any type with the operations of the record `Doubles`: no theorem needs more of them.
--
-- Not modelled: the listening sockets, the threads and the command line of src/main.c, JSON and HTTP
-- (src/http_source.c, src/rpc.c, src/stats.c), the self test, and, so far, the files of src/ledger.c,
-- and in src/cap.c the HTTP exchange with the public gateway and the reading of its list of clients.
-- `prime_address_script` of src/address.c is a parameter of Mining, which `address_script` of Address
-- fills.
pub mod Common
pub mod Wire
pub mod Framing
pub mod Bulk
pub mod Cap
pub mod Ledger
pub mod Abw
pub mod Pow
pub mod Session
pub mod Address
pub mod Config
pub mod Connection
pub mod Handshake
pub mod Keys
pub mod Mining
