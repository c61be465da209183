-- ===== src/Lib.antt =====
-- Verification of taiko-preconfer, which builds, publishes and confirms preconfirmed L2 blocks for a
-- Taiko based rollup. Paths are from the repository's root.
--
-- The program runs three loops beside each other. taiko-preconfer/src/preconfirmation_loop.rs builds a
-- block in each L2 slot in which the whitelist and the handover windows allow it;
-- taiko-preconfer/src/confirmation_loop.rs proposes built blocks to L1 in batches;
-- taiko-preconfer/src/onchain_tracking_loop.rs follows both chains. They share a cache of unconfirmed
-- blocks, the anchor and the last headers. The parts and their files:
--   Prelude: Rust's words, vectors and results. A word is a native number with its wrap-around written
--     out, since the shipped binary is a release build; a panic is `none` or `panic`.
--   Clock: preconfirmation/src/slot.rs, slot_model.rs and `remaining_until_next_slot` of util.rs.
--   Handover: preconfirmation/src/preconf/slot_model.rs.
--   Whitelist: taiko-preconfer/src/util.rs, with the contract's answers as arguments.
--   Anchor: preconfirmation/src/taiko/anchor.rs, with the node's answer as an argument.
--   Chain: the parts of alloy's headers and blocks that are read.
--   Cache: preconfirmation/src/tx_cache.rs.
--   Streams: preconfirmation/src/stream/header_stream.rs and the id streams of
--     preconfirmation/src/stream/l2_head_info_stream.rs. A stream is the list of its items.
--   Head: `get_l2_head_stream` of preconfirmation/src/stream/l2_head_info_stream.rs, one step an item;
--     Head/Runs interleaves the steps with removals by the confirmation strategy, and Head/Stream
--     yields the items of a whole run. Head/Views reads the cache as a map, and Head/Refine
--     specifies an arrival on it; Head/Verified is the confirmation of a batch of this preconfer.
--   Blob: preconfirmation/src/blob.rs; Blob/Sequence is about data of several blobs,
--     and Blob/Sidecar about their commitments and proofs.
--   Confirm: preconfirmation/src/preconf/confirmation_strategy.rs and `ValidTimestamp` of util.rs.
--   Batch: preconfirmation/src/verification.rs, the structs of preconfirmation/src/taiko/contracts.rs
--     and the proposal of preconfirmation/src/taiko/taiko_l1_client.rs: Batch/Propose is its `send`,
--     with the thread that prices a transaction and hands it over, Batch/Calls is the call in it, and
--     Batch/Published reads it again. Batch/Contract is the hash that the inbox contract stores.
--   Compression: preconfirmation/src/compression.rs, over libdeflater's compressor.
--   Hex: the hexadecimal numbers of preconfirmation/src/util.rs.
--   Rpc: the requests of preconfirmation/src/client/reqwest.rs, over a server.
--   Builder: preconfirmation/src/preconf/block_builder.rs, with the request and the anchor transaction of
--     preconfirmation/src/taiko/taiko_l2_client.rs, taiko/anchor.rs and taiko/sign.rs. Builder/Sign is
--     the signature, and Builder/Client makes the client from its nodes, with the mempool's lists of
--     preconfirmation/src/client/alloy_util.rs; Builder/Pool puts both together.
--   Loops: an iteration of taiko-preconfer/src/preconfirmation_loop.rs (Loops/Preconfirm) and of
--     taiko-preconfer/src/confirmation_loop.rs. What is read of shared state is an argument, so each
--     interleaving with the other loops is covered. Loops/Runs is a run of the first loop,
--     whose sleeps move the clock on, Loops/Sequencing its flag for the end of sequencing, and
--     Loops/Sync its wait for the previous preconfer. Loops/Confirming is an iteration of the second with
--     its call of the strategy, and a run of it beside the stream of heads.
--   Monitor: preconfirmation/src/preconf/sequencing_monitor.rs, a round as an answer and a header.
--   Tracking: taiko-preconfer/src/onchain_tracking_loop.rs, with the streams that it follows in
--     Tracking/Sources, and the blocks that taiko-preconfer/src/main.rs picks up.
--   Configuration: preconfirmation/src/preconf/config.rs, over any environment and parsers.
--   InboxErrors: the error texts of preconfirmation/src/util.rs.
--   Application: the start in taiko-preconfer/src/main.rs. Its result is the state from which Head,
--     Loops and Confirm go on; Application/Sending and Application/Deliveries put them together.
--   UnitTests: the repository's own unit tests, run on the model, but those of libraries.
--   Examples: every theorem with a hypothesis or a binder at a concrete input, and tests.
--
-- Fuel: `chunks` of Blob takes the length of its list as fuel, and each round removes at least one
-- element. `digits` of Hex takes the number of hexadecimal digits, sixteen for a u64. No other definition
-- takes fuel. The loops that never end are steps, or run over a list of observations.
--
-- Not modelled: the sleeps of the confirmation loop and of the polls, the join of the three loops at the
-- end of `main`, the set-up of logging and of the KZG settings, and the texts
-- of JSON. The requests to nodes and contracts, KZG commitments, hashes, signatures, RLP, ABI,
-- compression, parsers and quotients in floating point are arguments where a definition uses them. A
-- panic on the overflow of a Duration or a thread's stack is not modelled. Log lines are left out.
pub mod Prelude
pub mod Clock
pub mod Handover
pub mod Whitelist
pub mod Anchor
pub mod Application
pub mod Chain
pub mod Cache
pub mod Streams
pub mod Head
pub mod Blob
pub mod Configuration
pub mod Confirm
pub mod Batch
pub mod Examples
pub mod InboxErrors
pub mod Loops
pub mod Builder
pub mod Tracking
pub mod Monitor
pub mod Hex
pub mod UnitTests
pub mod Rpc
pub mod Compression
