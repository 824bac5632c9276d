-- ===== src/Query/Kinds.antt =====
-- The kinds of queries of workspaces/src/rpc/query.rs: how each becomes a request, and how its
-- response is read.
use near_workspaces_rs.Prelude.{
  ℕ, Option, none, some, unwrap_or, List, [], ◌∷◌, map, list_eq, nat_eq,
}
use near_workspaces_rs.Result
use near_workspaces_rs.Result.{Result, ok, err}
use near_workspaces_rs.Primitives.{AccountId, PublicKey, Bytes, BlockReference, BlockId}
use near_workspaces_rs.Primitives.Rpc.{Request, QueryRequest, QueryResponseKind}
use near_workspaces_rs.Error.{
  Error, BoxedError, rpc_message, query_failure, query_returned_invalid_data,
}
use near_workspaces_rs.Execution.{ViewResultDetails, view_result_from_call}
use near_workspaces_rs.Types.{
  AccessKey, AccessKeyInfo, access_key_from_view, access_key_info_from_view,
}
use near_workspaces_rs.Account.{AccountDetails, details_from_view}
use near_workspaces_rs.Chain.{Block, block_from_view}
use near_workspaces_rs.Map
use near_workspaces_rs.Operations.Function as FunctionOps
use near_workspaces_rs.Operations.Function.{Function}
use near_workspaces_rs.Query.{ProcessQuery, Query}

-- `methods::query::RpcQueryRequest`
pub record RpcQueryRequest : Type 0 where
  pub block_reference : BlockReference
  pub request : QueryRequest

-- The queries whose method is `RpcQueryRequest`, by their request and the reading of their response
abbrev pub with_query_request :
    {T O : Type 0}
    → (T → Result QueryRequest Error)
    → (QueryResponseKind → Result O Error)
    → ProcessQuery T RpcQueryRequest O
with_query_request request from_kind = record {
  request = λ m. Request.query m.block_reference m.request;
  into_request = λ self block_ref.
      Result.map (λ q. record { block_reference = block_ref; request = q }) (request self);
  from_response = λ m resp. from_kind resp.kind;
}

pub record ViewFunction : Type 0 where
  pub account_id : AccountId
  pub function : Function

call_result : QueryResponseKind → Result ViewResultDetails Error
call_result (QueryResponseKind.call_result r) = ok (view_result_from_call r)
call_result _ = err (rpc_message query_returned_invalid_data "while querying account")

-- `impl ProcessQuery for ViewFunction`
unfoldable pub view_function : ProcessQuery ViewFunction RpcQueryRequest ViewResultDetails
unfolding call_result
view_function =
    with_query_request
      (λ self.
        Result.map (λ args. QueryRequest.call_function self.account_id self.function.name args)
          self.function.args)
      call_result

-- `args`, `args_json` and `args_borsh` of a view
unfoldable pub view_args : Query ViewFunction → Bytes → Query ViewFunction
view_args self bytes = record self {
  method = record self.method { function = FunctionOps.args self.method.function bytes };
}

module _ {U : Type 0} (to_vec : U → Result Bytes BoxedError) where
  unfoldable pub view_args_json : Query ViewFunction → U → Query ViewFunction
  view_args_json self value = record self {
    method = record self.method {
      function = FunctionOps.args_json to_vec self.method.function value;
    };
  }

  unfoldable pub view_args_borsh : Query ViewFunction → U → Query ViewFunction
  view_args_borsh self value = record self {
    method = record self.method {
      function = FunctionOps.args_borsh to_vec self.method.function value;
    };
  }

pub record ViewCode : Type 0 where
  pub account_id : AccountId

contract_code : QueryResponseKind → Result Bytes Error
contract_code (QueryResponseKind.contract_code code) = ok code
contract_code _ = err (rpc_message query_returned_invalid_data "while querying code")

-- `impl ProcessQuery for ViewCode`
unfoldable pub view_code : ProcessQuery ViewCode RpcQueryRequest Bytes
unfolding contract_code
view_code = with_query_request (λ self. ok (QueryRequest.view_code self.account_id)) contract_code

pub record ViewAccount : Type 0 where
  pub account_id : AccountId

account_details : QueryResponseKind → Result AccountDetails Error
account_details (QueryResponseKind.account account) = ok (details_from_view account)
account_details _ = err (rpc_message query_returned_invalid_data "while querying account")

-- `impl ProcessQuery for ViewAccount`
unfoldable pub view_account : ProcessQuery ViewAccount RpcQueryRequest AccountDetails
unfolding account_details
view_account =
    with_query_request (λ self. ok (QueryRequest.view_account self.account_id)) account_details

pub data ViewBlock : Type 0 where
  view_block_query : ViewBlock

-- `impl ProcessQuery for ViewBlock`
unfoldable pub view_block : ProcessQuery ViewBlock BlockReference Block
view_block = record {
  request = Request.block;
  into_request = λ self block_ref. ok block_ref;
  from_response = λ m view. ok (block_from_view view);
}

pub record ViewState : Type 0 where
  pub account_id : AccountId
  pub prefix : Option Bytes

-- `collect` into a `HashMap`: a later entry takes the place of an earlier one with its key.
unfoldable pub collected : List (Bytes × Bytes) → List (Bytes × Bytes) → List (Bytes × Bytes)
collected m [] = m
collected m ((key, value) ∷ items) = collected (Map.insert key value m) items

-- The keys and values of the items are the bytes that `into()` takes out of `StoreKey` and `StoreValue`.
unfoldable pub into_state_map : List (Bytes × Bytes) → List (Bytes × Bytes)
unfolding collected
into_state_map state_items = collected [] state_items

state_values : QueryResponseKind → Result (List (Bytes × Bytes)) Error
unfolding into_state_map
state_values (QueryResponseKind.state_values items) = ok (into_state_map items)
state_values _ = err (rpc_message query_returned_invalid_data "while querying state")

-- `impl ProcessQuery for ViewState`
unfoldable pub view_state : ProcessQuery ViewState RpcQueryRequest (List (Bytes × Bytes))
unfolding state_values
view_state =
    with_query_request
      (λ self. ok (QueryRequest.view_state self.account_id (unwrap_or self.prefix []))) state_values

-- `prefix`
unfoldable pub with_prefix : Query ViewState → Bytes → Query ViewState
with_prefix self value = record self { method = record self.method { prefix = some value } }

pub record ViewAccessKey : Type 0 where
  pub account_id : AccountId
  pub public_key : PublicKey

one_access_key : QueryResponseKind → Result AccessKey Error
one_access_key (QueryResponseKind.access_key key) = ok (access_key_from_view key)
one_access_key _ = err (rpc_message query_returned_invalid_data "while querying access key")

-- `impl ProcessQuery for ViewAccessKey`
unfoldable pub view_access_key : ProcessQuery ViewAccessKey RpcQueryRequest AccessKey
unfolding one_access_key
view_access_key =
    with_query_request (λ self. ok (QueryRequest.view_access_key self.account_id self.public_key))
      one_access_key

pub record ViewAccessKeyList : Type 0 where
  pub account_id : AccountId

listed_access_keys : QueryResponseKind → Result (List AccessKeyInfo) Error
listed_access_keys (QueryResponseKind.access_key_list keys) =
    ok (map access_key_info_from_view keys)
listed_access_keys _ = err (rpc_message query_returned_invalid_data "while querying access keys")

-- `impl ProcessQuery for ViewAccessKeyList`
unfoldable pub view_access_key_list :
    ProcessQuery ViewAccessKeyList RpcQueryRequest (List AccessKeyInfo)
unfolding listed_access_keys
view_access_key_list =
    with_query_request (λ self. ok (QueryRequest.view_access_key_list self.account_id))
      listed_access_keys

pub data GasPrice : Type 0 where
  gas_price_query : GasPrice

gas_price_block : BlockReference → Result (Option BlockId) Error
gas_price_block (BlockReference.block_id block_id) = ok (some block_id)
gas_price_block (BlockReference.finality f) = ok none
gas_price_block (BlockReference.sync_checkpoint point) =
    err (rpc_message query_failure "Cannot supply sync checkpoint to gas price. Potential API bug?")

-- `impl ProcessQuery for GasPrice`. The message's text carries no checkpoint here.
unfoldable pub gas_price : ProcessQuery GasPrice (Option BlockId) ℕ
unfolding gas_price_block
gas_price = record {
  request = Request.gas_price;
  into_request = λ self block_ref. gas_price_block block_ref;
  from_response = λ m price. ok price;
}
