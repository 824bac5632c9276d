-- ===== src/Handles/OfWorker.antt =====
-- The worker's methods that make queries and builders (workspaces/src/worker/impls.rs).
use near_workspaces_rs.Prelude.{String, none}
use near_workspaces_rs.Result
use near_workspaces_rs.Result.{Result, Exec, ◌>>=◌, ◌>>◌, mapping_err}
use near_workspaces_rs.Primitives.{AccountId, PublicKey, SecretKey}
use near_workspaces_rs.Error.{Error, BoxedError}
use near_workspaces_rs.Types.{InMemorySigner}
use near_workspaces_rs.Operations.Function as FunctionOps
use near_workspaces_rs.Operations.Function.{Function}
use near_workspaces_rs.Operations.Transact.{Account, CallTransaction, new_call}
use near_workspaces_rs.Query
use near_workspaces_rs.Query.{Query, QueryChunk, new_chunk}
use near_workspaces_rs.Query.Kinds.{
  ViewBlock, view_block_query, GasPrice, gas_price_query, ViewFunction, ViewCode, ViewState,
  ViewAccount, ViewAccessKey, ViewAccessKeyList,
}
use near_workspaces_rs.Network.{ValidatorKey, root_signer}
use near_workspaces_rs.Import
use near_workspaces_rs.Import.{ImportContractTransaction}
use near_workspaces_rs.Patch
use near_workspaces_rs.Patch.{PatchTransaction}

unfoldable pub view_by_function : AccountId → Function → Query ViewFunction
view_by_function contract_id function =
    Query.new (record { account_id = contract_id; function = function })

unfoldable pub view : AccountId → String → Query ViewFunction
unfolding view_by_function
view contract_id function = view_by_function contract_id (FunctionOps.new function)

unfoldable pub view_code : AccountId → Query ViewCode
view_code contract_id = Query.new (record { account_id = contract_id })

unfoldable pub view_state : AccountId → Query ViewState
view_state contract_id = Query.new (record { account_id = contract_id; prefix = none })

unfoldable pub view_access_key : AccountId → PublicKey → Query ViewAccessKey
view_access_key id pk = Query.new (record { account_id = id; public_key = pk })

unfoldable pub view_access_keys : AccountId → Query ViewAccessKeyList
view_access_keys id = Query.new (record { account_id = id })

unfoldable pub view_account : AccountId → Query ViewAccount
view_account account_id = Query.new (record { account_id = account_id })

unfoldable pub view_chunk : QueryChunk
view_chunk = new_chunk

unfoldable pub call : InMemorySigner → AccountId → String → CallTransaction
call signer contract_id function = new_call contract_id signer function

-- `Worker<Sandbox>`
unfoldable pub root_account :
    (String → Result (AccountId × SecretKey) BoxedError)
    → (String → String)
    → ValidatorKey
    → Result Account Error
root_account read join key =
    Result.map (λ signer. record { signer = signer }) (root_signer read join key)

unfoldable pub import_contract : AccountId → ImportContractTransaction
import_contract id = Import.new id

unfoldable pub patch : AccountId → PatchTransaction
patch account_id = Patch.new account_id

unfoldable pub view_block : Query ViewBlock
view_block = Query.new view_block_query

unfoldable pub gas_price : Query GasPrice
gas_price = Query.new gas_price_query
