-- ===== src/Lib.antt =====
-- The verification library of the reference node, crates/ and ducp-node/: the ledger
-- (crates/ledger/src/lib.rs), the consensus (crates/consensus/src/lib.rs), the rates
-- (crates/governance/src/lib.rs), the virtual machine (crates/dvm/src/lib.rs), the verification
-- (crates/verification/src/lib.rs), the node (ducp-node/src/lib.rs, ducp-node/src/main.rs), the
-- conformance harness (crates/conformance/src/lib.rs) and the types they share
-- (crates/ducp-types/src/lib.rs).
--
-- How the parts interact: a node's sequencer (Consensus.produce) runs the transactions of its
-- mempool one by one through the ledger (Ledger.Apply.apply), which checks the signature and the
-- nonce and then calls the handler of the transaction; the handlers read the rates of Governance.
-- What a node does without a transaction is a transition of its own: the epoch boundary
-- (advance_epoch), an audit that found fraud (resolve_fraud), the end of a challenge
-- (resolve_challenge). A replica runs a block's transactions again (Consensus.commit). A challenge
-- is settled by running the proof's program again on the virtual machine (Verification.check,
-- Dvm.execute), and the node (Node) keeps the head, the blocks and the blobs, and answers the
-- calls of its clients (Node.Rpc).
--
-- Which file models which part:
--   Common      tests on numbers, u128, u64 and i128 arithmetic, `BTreeMap`
--   Types       crates/ducp-types/src/lib.rs: Bytes (hashes, byte strings), Task, Quant, Records,
--               Tx, Reject, and Primitives, which holds the functions of other packages; Text and
--               Wire are the JSON form
--   Governance  crates/governance/src/lib.rs, with the laws of its rates in Rates and Stake
--   Ledger      crates/ledger/src/lib.rs: State, Accounts, Handlers, Apply, Epoch, Fraud; then the
--               proofs: Guards (what acceptance says), Conservation, Escrow, Settled,
--               Consistent (the invariant), Reach (histories), Replay, Finality, Settlement, Supply,
--               Minted, Slashing, Penalty, Clock, Neutrality; Lifecycle (a task from submission
--               to settlement), Status (the abstract machine of a task) and Release
--   Consensus   crates/consensus/src/lib.rs: the sequencer; then Replicas, Valid, Produced, Sealed
--   Dvm         crates/dvm/src/lib.rs: benchmark, run and meter; Abi has the host functions
--   Verification  crates/verification/src/lib.rs, with Checks, Sampling and Seals
--   Node        ducp-node/src/lib.rs, `NodeHandle`; Commits and Replies; Rpc is its JSON-RPC
--               interface (Calls, then Answers, Disputes, Reads and the table of errors in
--               Published); Stuck is about challenges that cannot be run again; Program is ducp-node/src/main.rs
--   Conformance crates/conformance/src/lib.rs: Samples and Codec, Settlement (with finality),
--               Replication, Fraud, Metering, Observable
--   Tests       a worked history, on which the theorems are applied
--
-- How the code is written in the model:
--   - A handler that mutates `self` takes the state and answers `Result State`; `?` and
--     `return Err` are the do blocks of Types.Reject. An access by `acct_mut` reads the account or a
--     new one, and writes the changed one back (Accounts.update).
--   - u128 and u64 arithmetic wraps, as in the release profile; with debug assertions the source
--     would panic where the model wraps. i128 arithmetic wraps in two's complement.
--   - A `BTreeMap` is a list of pairs in the order of the keys. A 32-byte array is the number that
--     its bytes spell, first byte first, so that the order of numbers is the order of the arrays.
--   - blake3, Ed25519 and borsh are packages that the source only calls: they are the fields of
--     Types.Primitives, and the encoding of a state is an argument of `state_root`. The theorems
--     hold for any such functions; `SignsCorrectly` is the one law that is asked, where it is.
--     wasmtime is the parameter Dvm.Wasmtime: what it answers to each call of the source.
--   - A division by a benchmark's rate of 0 would panic in the source; the theorems on it ask for a
--     positive rate. Where `input_read` slices out of range, the model answers `none`.
--   - The node's mutex makes each operation one step. `resolve_pending_challenge` lets go of it while
--     the machine runs: Node.gather and Node.commit_verdict are its two halves.
--   - The `while` of `advance_to_epoch` runs on fuel; the distance to the target is enough, since a
--     round raises the epoch by one.
--
--   - The hex package is the parameter Types.Text.Hex; HexLaws says what the round trips ask of it.
--     Rust's own decimal printing and parsing are written out in Types.Text.
--   - A call of the JSON-RPC interface that takes the mutex several times is modelled as it runs when
--     no other call comes in between.
--   - What `NodeHandle::with_storage` makes once besides the state, the machine, the benchmark and the
--     parameters, is the Config of a node; `Benchmark::devnet`, which can panic, is Dvm.calibrate.
--   - In the conformance harness a panic of an `unwrap`, an `expect` or an index is `none`.
--
-- Not modelled: reading and writing the files of the conformance vectors, and their JSON; the
-- derivations of serde, borsh and jsonrpsee; `version`; random seeds; the reserved TEE and ZK
-- verifiers, which only panic; the server, the log and the signal of the node program; and the
-- worker's client. They are input and output, or code that a macro generates. The registry of IRs
-- and the configuration of wasmtime's engine are left out, too.
pub mod Common
pub mod Conformance
pub mod Consensus
pub mod Dvm
pub mod Tests
pub mod Types
pub mod Verification
pub mod Governance
pub mod Ledger
pub mod Node
