-- ===== src/Lib.antt =====
-- A verification library for near-workspaces (workspaces/src), the Rust library that drives NEAR
-- networks from tests and scripts.
--
-- The program. A `Worker` stands for a network and its gas hooks. Its `Client` sends requests to a
-- node, retries them, and keeps a cache of access key nonces. `Account`s and `Contract`s sign
-- transactions, which builders collect; a transaction's outcome is converted into results. Queries
-- are built first and sent when awaited. In the sandbox, the state of accounts can be patched, and
-- contracts of other networks imported.
--
-- How it is modelled. The node is a parameter `call`, a function from a request and the node's state
-- to an answer and the node's next state, so every theorem holds for all nodes. Async code is a
-- sequence of such steps: an action takes a state and returns a result and the next state, and what
-- was written before an error stays written (Result). Code that may panic returns an option.
-- Numbers are natural numbers with the wrap-around of 64 or 32 bits written out where the code
-- computes with them. Gas counts units, balances count yoctoNEAR.
--
--   Result         results, actions, `?`
--   Primitives     types of near_primitives that the code takes apart; Rpc: the requests of
--                  near_jsonrpc_client and their responses
--   Error          workspaces/src/error; Shown: `Display` and `source`
--   Outcome        workspaces/src/result.rs: outcomes, details, failures, logs
--   Execution      workspaces/src/result.rs: final results, values, views; Kept and Success: the
--                  accessors
--   Types          workspaces/src/types/mod.rs: hashes, access keys, signers, finality; Keys: key
--                  types and the byte forms of public keys; Texts: keys and hashes as texts; Made: keys
--                  made from seeds or at random; Sdk (types/sdk.rs): the conversion of near_sdk's keys
--   Account        workspaces/src/types/account.rs: account details and their patches
--   Chain          workspaces/src/types/block.rs and chunk.rs
--   Map            std's HashMap, as an association list
--   Client         workspaces/src/rpc/client.rs: `query`, `fetch_tx_nonce`, `send_tx`,
--                  `send_batch_tx_and_retry`; Retry: `retry`; Nonces: the cache's atomic accesses;
--                  Nonces/Race: the interleavings of tasks on it; Calls: the transactions sent by
--                  name and `wait_for_rpc`; Keeps, Requests, Sending: what these do to the node and
--                  to the cache; Refines: the client's steps against those of the interleavings;
--                  Tasks: any number of tasks that fetch and send at once, each in its phases
--                  (Tasks/Alone: one of them, uninterrupted, against `send_once`); Recovers:
--                  sending with a stale nonce, to a node that answers;
--                  Experimental: the methods behind that feature
--   Meter          workspaces/src/types/gas_meter.rs: `GasMeter` and the hooks; the cells behind the
--                  shared mutexes stand in a store, a meter is a place in it
--   Operations     workspaces/src/operations.rs; Function: `Function`; Batch: the builder
--                  `Transaction`; Env: the state of a running program; Transact: the sending, with
--                  the hooks; Status: polling an asynchronous transaction
--                  (Transact/Builders, Hooks, Creates and Metered: the builders' setters, the
--                  reports, the creation of accounts, and meters over what was sent)
--   Query          workspaces/src/rpc/query.rs and `into_state_map` of rpc/tool.rs; Kinds: the kinds
--                  of queries
--   Patch          workspaces/src/rpc/patch.rs: `PatchTransaction`; the sandbox requests of
--                  network/sandbox.rs
--   Import         workspaces/src/rpc/patch.rs: `ImportContractTransaction`; Spooned: reading an imported
--                  contract back
--   Network        workspaces/src/worker/impls.rs, network/variants.rs, network/sandbox.rs and
--                  network/testnet.rs: what is sent at once, and the creation of accounts;
--                  Tla: the sandbox's creation against batches; Generated: accounts with random names
--   Server         workspaces/src/network/server.rs: ports and lock files; the choice of a server
--                  in network/sandbox.rs
--   Launch         workspaces/src/network/builder.rs, worker/mod.rs and the networks' `from_builder`:
--                  opening a network; Sandbox: starting the sandbox's process, and its end,
--                  alone and around the task of `with_sandbox`, which may
--                  leave copies of its worker behind
--   Config         workspaces/src/network/config.rs: the sandbox's configuration file
--   Handles        workspaces/src/types/account.rs and worker/impls.rs: the methods of workers,
--                  accounts and contracts; OfSandbox: those of a sandbox's worker; Experimental:
--                  those behind that feature; Credentials: `store_credentials` and `write_cred_to_file`
--   Compile        workspaces/src/cargo/mod.rs: `compile_project`
--   Examples       sample nodes and data
--
-- Parameters. Crates that are not part of the repository are parameters with the behaviour that they
-- document: tokio_retry runs a task, and once more after each delay while it fails (Client/Retry);
-- the base64 engine decodes what it encodes (Execution); borsh and near_crypto read what they write
-- (Types/Keys, Types/Texts); json_patch merges as RFC 7396 says, and a file holds what was written to
-- it last (Config). Processes, sockets, files and the environment are operations on a state that
-- only they know (Server, Launch, Config, Compile, Handles/Credentials). Hash functions, key
-- derivation, serializers, parsers and the helper's web service are parameters with no laws.
--
-- Bounds. `retry` is four delays, so at most five runs. The loops of `TransactionStatus::wait` and
-- `acquire_unused_port` run on fuel, one for each turn; fuel for one turn more than those that do not
-- end the loop is enough. All other recursion is on the data.
--
-- Not modelled: logging and Debug; in the texts of errors, the numbers, and
-- most addresses, paths and keys that the code prints into them (so `wait_for_rpc` names neither the
-- address nor the seconds, and `choose_server` no validator key); the time that delays and sleeps
-- take; signatures; the closing of files; methods that read a field; the programs of
-- examples/src, which use the library, and its tests.
mod Prelude
pub mod Result
pub mod Primitives
pub mod Outcome
pub mod Error
pub mod Execution
pub mod Types
pub mod Account
pub mod Map
pub mod Client
pub mod Meter
pub mod Operations
pub mod Chain
pub mod Query
pub mod Patch
pub mod Import
pub mod Network
mod Examples
pub mod Server
pub mod Launch
pub mod Config
pub mod Handles
pub mod Compile
