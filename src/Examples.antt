-- ===== src/Examples.antt =====
-- Concrete libraries, nodes and data, and the theorems of the other modules applied to them.
mod Sent
pub mod Codes
mod Results
mod Queries
mod Cases
pub mod Configs
mod Starts
mod Accounts
mod Tasks
mod Imports
use near_workspaces_rs.Prelude.{
  ℕ, ◌+◌, refl, String, Option, none, some, List, [], ◌∷◌, ◌++◌, ◌==◌, nat_eq, if◌then◌else◌,
}
use near_workspaces_rs.Result.{Result, ok, err, Exec}
use near_workspaces_rs.Primitives
use near_workspaces_rs.Primitives.{
  AccountId, PublicKey, SecretKey, Bytes, FinalExecutionStatus, ExecutionStatusView,
  FinalExecutionOutcomeView, ExecutionOutcomeWithIdView, AccessKeyView, AccountView, BlockReference,
}
use near_workspaces_rs.Primitives.Rpc.{
  Request, Response, Call, QueryRequest, QueryResponseKind, JsonRpcError, server_error,
  handler_error, invalid_transaction, invalid_nonce, unknown_transaction, transport_error,
  ChunkHeaderView, ChunkView, BlockHeaderView, BlockView,
}
use near_workspaces_rs.Error.{BoxedError, text}
use near_workspaces_rs.Types.{InMemorySigner, zero_hash}
use near_workspaces_rs.Client.Retry.{RetryLib, or_else}
use near_workspaces_rs.Client.{Client}
use near_workspaces_rs.Operations.Env.{Env, Worker}

abbrev spawn_all : {S A E : Type 0} → List ℕ → Exec S A E → Exec S A E
spawn_all [] task s = task s
spawn_all (d ∷ ds) task s = or_else (task s) (spawn_all ds task)

-- Retries without delays.
abbrev pub lib : RetryLib
lib = record {
  from_millis = λ base i. base;
  jitter = λ d. d;
  spawn = λ S A E. spawn_all;
  spawn-nil = λ S A E task s. refl;
  spawn-cons = λ S A E d ds task s. refl;
}

abbrev pub public_key : SecretKey → PublicKey
public_key sk = "pk"

abbrev pub signer : InMemorySigner
signer = record { account_id = "alice.test"; secret_key = "sk" }

abbrev pub outcome : Bytes → ℕ → ExecutionStatusView → ExecutionOutcomeWithIdView
outcome id gas status = record {
  id = id;
  block_hash = [];
  outcome = record {
    logs = [];
    receipt_ids = [];
    gas_burnt = gas;
    tokens_burnt = 0;
    executor_id = "alice.test";
    status = status;
  };
}

-- A transaction that burnt 7 units of gas, with one receipt that failed.
abbrev pub executed : FinalExecutionOutcomeView
executed = record {
  status = FinalExecutionStatus.success_value (1 ∷ 2 ∷ []);
  transaction_outcome = outcome (1 ∷ []) 4 ExecutionStatusView.unknown;
  receipts_outcome = outcome (2 ∷ []) 3 (ExecutionStatusView.failure "out of gas") ∷ [];
}

abbrev pub key_view : AccessKeyView
key_view = record { nonce = 41; permission = Primitives.AccessKeyPermissionView.full_access }

abbrev pub account_view : AccountView
account_view = record {
  amount = 500;
  locked = 0;
  code_hash = 1 ∷ [];
  storage_usage = 182;
  storage_paid_at = 0;
}

abbrev chunk_header : ChunkHeaderView
chunk_header = record {
  chunk_hash = [];
  prev_block_hash = [];
  height_created = 10;
  height_included = 10;
  shard_id = 0;
  gas_used = 0;
  gas_limit = 0;
  balance_burnt = 0;
  tx_root = [];
  outcome_root = [];
  prev_state_root = [];
  outgoing_receipts_root = [];
  encoded_merkle_root = [];
  encoded_length = 0;
}

abbrev block_header : BlockHeaderView
block_header = record {
  height = 10;
  epoch_id = [];
  next_epoch_id = [];
  hash = 5 ∷ [];
  prev_hash = [];
  timestamp_nanosec = 0;
  random_value = [];
  gas_price = 100;
  block_ordinal = none;
  total_supply = 0;
  last_final_block = [];
  last_ds_final_block = [];
  next_bp_hash = [];
  latest_protocol_version = 60;
  prev_state_root = [];
  chunk_receipts_root = [];
  chunk_headers_root = [];
  chunk_tx_root = [];
  outcome_root = [];
  challenges_root = [];
  block_merkle_root = [];
}

abbrev answer : QueryRequest → QueryResponseKind
answer (QueryRequest.view_account a) = QueryResponseKind.account account_view
answer (QueryRequest.view_code a) = QueryResponseKind.contract_code (0 ∷ [])
answer (QueryRequest.view_access_key_list a) =
    QueryResponseKind.access_key_list (record { public_key = "pk"; access_key = key_view } ∷ [])
answer (QueryRequest.view_state a p) =
    QueryResponseKind.state_values ((1 ∷ [], 2 ∷ []) ∷ (1 ∷ [], 3 ∷ []) ∷ [])
answer (QueryRequest.view_access_key a k) = QueryResponseKind.access_key key_view
answer (QueryRequest.call_function a m args) =
    QueryResponseKind.call_result (record { result = 6 ∷ []; logs = [] })

-- Sample nodes count the transactions, the patches and the looks at a transaction's status.
abbrev looked : ℕ → Result FinalExecutionOutcomeView JsonRpcError
looked n =
    if n == 0
    then err (server_error (handler_error (unknown_transaction "not yet")))
    else ok executed

-- A node that executes every transaction, and knows its status from the second look on.
abbrev pub call : Call ℕ
call (Request.broadcast_tx_commit tx) n = (ok executed, n + 1)
call (Request.broadcast_tx_async tx) n = (ok (1 ∷ []), n)
call (Request.query r q) n = (ok (record { kind = answer q; block_hash = 8 ∷ [] }), n)
call (Request.block r) n =
    (ok (record { author = "bob.test"; header = block_header; chunks = [] }), n)
call (Request.chunk r) n = (ok (record { author = "bob.test"; header = chunk_header }), n)
call (Request.gas_price b) n = (ok 100, n)
call (Request.tx_status a h) n = (looked n, n + 1)
call Request.status n = (ok tt, n)
call (Request.patch_state rs) n = (ok tt, n + 1)
call (Request.fast_forward d) n = (ok tt, n)

-- A node that refuses the nonce of every transaction, and forgets what it was sent before.
abbrev pub refusing : Call ℕ
refusing (Request.broadcast_tx_commit tx) n =
    (err (server_error (handler_error (invalid_transaction (invalid_nonce 1 41)))), n + 1)
refusing (Request.tx_status a h) n = (err (transport_error "closed"), n + 1)
refusing r n = call r n

-- A node that counts the transactions that it is asked to broadcast and wait for.
abbrev pub counting : Call ℕ
counting (Request.broadcast_tx_commit tx) n = (ok executed, n + 1)
counting r n = ((call r n).0, n)

abbrev pub client : Client ℕ
client = record { access_key_nonces = []; node = 0 }

-- A client that knows the nonce of the signer's key.
abbrev pub caching : Client ℕ
caching = record { access_key_nonces = (("alice.test", "pk"), 41) ∷ []; node = 0 }

abbrev pub idle : Worker
idle = record { tx_callbacks = [] }

abbrev pub env : Env ℕ
env = record { client = client; meters = [] }
