-- ===== src/Lib.antt =====
-- primo-arm-miner is a CPU miner for ARM: a service thread keeps a stratum session with one pool
-- at a time, miner threads scan nonces of the work it publishes and send shares, and a scheduler
-- moves the session to a hidden dev pool for a short slice of every cycle. This library models the
-- parts that decide where the miner is connected, what it makes of the messages of its pool, and
-- what becomes of its shares. Session takes the outcome of a setup as given; Opening says what a
-- setup does to the session.
--
-- * Hex (Hex/Digits, Hex/Accepts, Hex/RoundTrip): the hexadecimal helpers of src/stratum.cpp,
--   decode_hex_nibble, cbin2hex, bin2hex and hex2bin. A C string is the list of its bytes.
-- * Pools (Pools/Usable): struct pool_infos of include/miner.h, with what selection reads of a
--   slot, and miner_pool_is_usable, miner_get_pool_timeout and find_first_usable_pool_index of
--   src/config.cpp. The global array is a function from indices to slots with the count num_pools.
-- * DevFee (DevFee/Targets, DevFee/Slot, DevFee/Install, DevFee/Cycle): all of src/dev_fee.cpp.
--   The state g_devfee and the pool table are one record, Globals; each reading of the clock is an
--   argument, and so are the environment variables and the number that rand_r draws.
-- * Service (Service/Receive): the state of the service thread of src/stratum_session.cpp, and
--   stratum_run_message_loop with the bounds on its waits; a redirect is stratum_reconnect of
--   src/stratum_rpc.cpp from the assembled URL on.
-- * Session (Session/Failover, Session/Steps, Session/Hidden, Session/Boundary, Session/Places,
--   Session/Flags, Session/Reconnect, Session/Returns, Session/Retries, Session/Handling,
--   Session/Limit, Session/Spin): stratum_service_thread with its failover, retry cycle and slice
--   boundaries. It reads the pools through Pools, and asks DevFee where to go at a boundary. What
--   stratum_disconnect resets on the way is modelled with its state, in Submit and Publish.
-- * Submit (Submit/Slots, Submit/Table, Submit/Send, Submit/Ledger, Submit/Trace): the table of
--   the shares that wait for a reply in src/stratum_rpc.cpp; a trace is any interleaving of the
--   threads that use it.
-- * Transport (Transport/Framing, Transport/Capacity, Transport/Receive): the receive buffer of
--   src/stratum_transport.cpp and the loop of stratum_recv_line_timeout. Each turn of the loop is
--   given as an arrival: bytes, a retry, an expired deadline or a closed connection.
-- * Nonce (Nonce/Range, Nonce/Turn, Nonce/Fresh, Nonce/Scans): miner_get_thread_nonce_range, and
--   the turn of miner_thread in src/miner.cpp from the copied work to the advanced position. The
--   chunk size and the count that the backend reports are given.
-- * Publish (Publish/Restart, Publish/Wake, Publish/Shares): the published work, the restart
--   generation and the update counter of src/stratum_state.cpp, with the waiting test of
--   src/miner.cpp; and the share totals, which ask DevFee which pool is the dev pool.
-- * Reply (Reply/Accounting): stratum_handle_submit_response of src/stratum_rpc.cpp, which matches
--   a reply through Submit and books it in the totals of Publish and in the counters of the
--   thread.
-- * Json (Json/Sample): the JSON library (jansson) as a parameter, a record of its values and of
--   the calls that the code makes. Every parser below reads its values through it.
-- * Job (Job/Decode): the session state of include/miner.h that jobs live in, and
--   src/stratum_job.cpp; a commit applies a job, builds the work and publishes it through Publish.
-- * Coinbase (Coinbase/Height): get_block_height of src/stratum_standard.cpp; a read outside the
--   coinbase would be none.
-- * Standard (Standard/Header, Standard/Apply, Standard/Notify), Verus (Verus/Wire, Verus/Apply,
--   Verus/Payload, Verus/Share, Verus/Header, Verus/Notify, Verus/Outcome) and Monero
--   (Monero/Target, Monero/Jobs): src/stratum_standard.cpp, src/stratum_verus.cpp and
--   src/stratum_xmr.cpp, from the parameters of a job to the published work, and what a share
--   says. The three meet in handle_notify of Peer, as in stratum_get_protocol_ops.
-- * Numeral (Numeral/Decimal) and RpcId (RpcId/Exact): strtol and strtoul as C defines them on 64
--   bits, and stratum_parse_rpc_id.
-- * Extranonce (Extranonce/Layout): stratum_parse_extranonce of src/stratum_handshake.cpp and
--   stratum_set_extranonce of src/stratum_session.cpp.
-- * Redirect (Redirect/Spelled, Redirect/Port): the target of client.reconnect, which Service then
--   follows, and the height in client.show_message.
-- * Peer and Rpc (Rpc/Isolation, Rpc/Layouts, Rpc/Dropped, Rpc/Buffers): the handlers and the
--   dispatch of src/stratum_rpc.cpp on the state of a session, the published work, the books of
--   Reply, the lines that are sent and a redirect, with stratum_disconnect of
--   src/stratum_session.cpp, in which a redirect and a failed handshake end. Peer/Sample is a
--   state for the tests.
-- * Handshake (Handshake/Waiting) and Opening (Opening/Steps, Opening/Nicehash, Opening/Opened):
--   src/stratum_handshake.cpp, with stratum_open_pool_connection of src/stratum_session.cpp on a
--   connected socket. What the connection delivers is given, and other messages go through Rpc
--   meanwhile.
-- * Prelude (Prelude/Tests, Prelude/Lists, Prelude/Int, Prelude/Tables, Prelude/Options,
--   Prelude/Memory): the numbers, lists, integers, Boolean tests, chains of options and memory
--   copies that the others share.
--
-- Bounds. A round of the service thread is given what it meets: the outcome of the setup, the
-- turns of the message loop, the clock, and the flags that other threads raise. A run is a list of
-- rounds, and the message loop a list of turns, so there is no fuel; a loop over pools or slots is
-- recursion on what is left of it. Seconds are natural numbers, the submit id, the restart
-- generation and the share counters wrap at 2^32 and the update counters at 2^64, and the
-- difference of two times is compared as the code does, through int. The words of a work are bytes
-- in a memory of a little-endian machine. A handshake that still waits where its receipts end has
-- no outcome.
--
-- Not modelled: sockets, TLS and DNS, the JSON parser and the texts of requests, the hash kernels
-- and the floating point of targets (parameters where a model needs them), RandomX, the API
-- server, the command line and the Android application; logging is left out everywhere, and so are
-- failures of memory allocation.
pub mod Prelude
pub mod Hex
pub mod Pools
pub mod DevFee
pub mod Service
pub mod Session
pub mod Submit
pub mod Transport
pub mod Nonce
pub mod Publish
pub mod Reply
pub mod Json
pub mod Job
pub mod Coinbase
pub mod Standard
pub mod Numeral
pub mod RpcId
pub mod Extranonce
pub mod Verus
pub mod Monero
pub mod Redirect
pub mod Peer
pub mod Rpc
pub mod Handshake
pub mod Opening
