-- ===== src/Examples/Queries.antt =====
-- Queries, patches and imports on the sample nodes.
use near_workspaces_rs.Prelude.{
  ℕ, ◌≤◌, ◌≡◌, refl, none, some, List, [], ◌∷◌, arith, list_eq, nat_eq,
}
use near_workspaces_rs.Result.{err, ◌>>=◌, ◌>>◌}
use near_workspaces_rs.Primitives
use near_workspaces_rs.Primitives.{
  SecretKey, PublicKey, Bytes, BlockReference, BlockId, StateRecord,
}
use near_workspaces_rs.Primitives.Rpc.{Request, Call, transport_error}
use near_workspaces_rs.Error.{Error, rpc_error, rpc_custom, query_failure}
use near_workspaces_rs.Account.{AccountDetailsPatch, into_near_account}
use near_workspaces_rs.Query
use near_workspaces_rs.Query.{Query, run, run_chunk, new_chunk, block_hash_and_shard, block_height}
use near_workspaces_rs.Query.Kinds
use near_workspaces_rs.Query.Kinds.{
  ViewFunction, ViewAccount, view_function, view_args, GasPrice, gas_price_query, gas_price,
  into_state_map,
}
use near_workspaces_rs.Query.Asked.{run_requests}
use near_workspaces_rs.Patch
use near_workspaces_rs.Patch.{PatchTransaction, update, send_records}
use near_workspaces_rs.Patch.Records.{patched_account, transact_patches, transact_code}
use near_workspaces_rs.Import.{worker_account}
use near_workspaces_rs.Examples.{lib, call, client}

abbrev latest : BlockReference
latest = BlockReference.finality Primitives.final

abbrev items : List (Bytes × Bytes)
items = (1 ∷ [], 2 ∷ []) ∷ (1 ∷ [], 3 ∷ []) ∷ []

abbrev account_query : Query ViewAccount
account_query = record { method = record { account_id = "bob.test" }; block_ref = none }

run_requests_example : (run lib call latest Kinds.view_account account_query client).1.node ≤ 0
unfolding Kinds.view_account
run_requests_example =
    run_requests lib call latest Kinds.view_account account_query (λ n. n ≤ 0) (λ m e n h. h) client
      (omega arith)

abbrev price_query : Query GasPrice
price_query = block_height (Query.new gas_price_query) 10

abbrev richer : AccountDetailsPatch
richer = record {
  balance = some 900;
  locked = none;
  code_hash = none;
  storage_usage = none;
  storage_paid_at = none;
}

abbrev patch : PatchTransaction
patch = record {
  account_id = "bob.test";
  records = [];
  account_updates = update richer ∷ [];
  code_hash_update = none;
}

transact_patches_example :
    Patch.transact lib call (worker_account lib call latest) patch client
    ≡ (send_records lib call (patched_account "bob.test" (richer ∷ []) none ∷ [])
          >> send_records lib call (patched_account "bob.test" (richer ∷ []) none ∷ []))
        client
transact_patches_example =
    transact_patches lib call (worker_account lib call latest) patch richer [] client refl

abbrev plain_patch : PatchTransaction
plain_patch = record patch {
  account_updates = [];
  records = StateRecord.contract "bob.test" [] ∷ [];
}

abbrev code_patch : PatchTransaction
code_patch = record plain_patch { code_hash_update = some (4 ∷ []) }

transact_code_example :
    Patch.transact lib call (worker_account lib call latest) code_patch client
    ≡ (do
      d ← worker_account lib call latest "bob.test"
      let record_of =
          StateRecord.account "bob.test" (into_near_account (record d { code_hash = 4 ∷ [] }))
      send_records lib call (record_of ∷ code_patch.records)
      send_records lib call (record_of ∷ code_patch.records))
        client
transact_code_example =
    transact_code lib call (worker_account lib call latest) code_patch (4 ∷ []) client refl refl

-- A node that answers no queries.
abbrev silent : Call ℕ
silent (Request.query r q) n = (err (transport_error "closed"), n)
silent r n = call r n

abbrev closed : Error
closed = rpc_custom query_failure (rpc_error (transport_error "closed"))
