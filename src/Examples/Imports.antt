-- ===== src/Examples/Imports.antt =====
-- Imports from a sample node into sample sandboxes.
use near_workspaces_rs.Prelude.{
  ℕ, ap, sym, ◌∙◌, Bool, false, ◌==◌, string_eq, unwrap_or, Option, if◌then◌else◌, ◌≡◌, refl,
  String, true, none, some, List, [], ◌∷◌, ◌++◌, map, list_eq, nat_eq,
}
use near_workspaces_rs.Result
use near_workspaces_rs.Result.{Result, ok, err, ◌>>=◌, ◌>>◌, mapping_err}
use near_workspaces_rs.Primitives
use near_workspaces_rs.Primitives.{
  AccountId, SecretKey, PublicKey, Bytes, BlockReference, BlockId, StateRecord,
}
use near_workspaces_rs.Primitives.Rpc.{Request, Call, QueryRequest, QueryResponseKind}
use near_workspaces_rs.Error.{rpc_custom}
use near_workspaces_rs.Types.{CryptoHash}
use near_workspaces_rs.Account.{overwrite, AccountDetails, details_from_view}
use near_workspaces_rs.Map
use near_workspaces_rs.Client.Retry.{retry}
use near_workspaces_rs.Client.{query}
use near_workspaces_rs.Query
use near_workspaces_rs.Query.{Query, run, run_chunk, new_chunk, block_hash_and_shard, block_height}
use near_workspaces_rs.Query.Kinds
use near_workspaces_rs.Query.Kinds.{
  ViewFunction, ViewAccount, view_function, view_args, GasPrice, gas_price_query, gas_price,
  into_state_map,
}
use near_workspaces_rs.Query.StateMap.{last_value}
use near_workspaces_rs.Import
use near_workspaces_rs.Import.{
  ImportContractTransaction, Networks, worker_account, account_of, code_of, states_of,
}
use near_workspaces_rs.Import.Written.{signer_of, written, account_records, import_writes}
use near_workspaces_rs.Import.Spooned.{Ledger, code_in, value_in, import_spoons}
use near_workspaces_rs.Examples.{lib, call, client, public_key}

abbrev latest : BlockReference
latest = BlockReference.finality Primitives.final

abbrev hash_bytes : Bytes → CryptoHash
hash_bytes code = 4 ∷ []

abbrev seed : String → SecretKey
seed s = "sk"

abbrev networks : Networks ℕ ℕ
networks = record { from_network = client; into_network = client }

abbrev import_all : ImportContractTransaction
import_all = record {
  account_id = "bob.test";
  import_data = true;
  initial_balance = some 900;
  block_ref = none;
  into_account_id = none;
}

abbrev read_details : AccountDetails
read_details = record {
  balance = 500;
  locked = 0;
  code_hash = 1 ∷ [];
  storage_usage = 182;
  storage_paid_at = 0;
}

import_writes_example :
    Import.transact lib call call latest hash_bytes seed public_key import_all networks
    ≡ written lib call seed import_all
        (account_records seed public_key import_all read_details (some (4 ∷ []))
          ++ StateRecord.contract "bob.test" (0 ∷ [])
            ∷ map
                (λ (e : Bytes × Bytes). StateRecord.data_record "bob.test" e.0 e.1)
                ((1 ∷ [], 3 ∷ []) ∷ []))
        client
        client
unfolding account_of code_of states_of run query retry ◌>>=◌ Result.lift mapping_err rpc_custom
    details_from_view Kinds.view_account Kinds.view_code Kinds.view_state Map.insert Map.remove
import_writes_example =
    import_writes lib call call latest hash_bytes seed public_key import_all networks read_details
      (0 ∷ []) ((1 ∷ [], 3 ∷ []) ∷ []) client client client refl refl refl refl refl

-- A sandbox whose state is the records that it was sent.
abbrev items_in : AccountId → List StateRecord → List (Bytes × Bytes)
items_in id [] = []
items_in id (StateRecord.data_record a key value ∷ rs) =
    if a == id then (key, value) ∷ items_in id rs else items_in id rs
items_in id (r ∷ rs) = items_in id rs

shown :
    (b : Bool) (key value k : Bytes) (items : List (Bytes × Bytes)) (o : Option Bytes)
    → last_value k items ≡ o
    → last_value k (if b then (key, value) ∷ items else items)
      ≡ overwrite (if b then (if key == k then some value else none) else none) o
shown true key value k items o e = ap (overwrite (if key == k then some value else none)) e
shown false key value k items o e = e ∙ sym (nothing o)
  where
    nothing : (o : Option Bytes) → overwrite none o ≡ o
    nothing none = refl
    nothing (some x) = refl

last_value-items_in :
    (id : AccountId) (rs : List StateRecord) (k : Bytes)
    → last_value k (items_in id rs) ≡ value_in id k rs
unfolding value_in
last_value-items_in id [] k = refl
last_value-items_in id (StateRecord.data_record a key value ∷ rs) k =
    shown (a == id) key value k (items_in id rs) (value_in id k rs) (last_value-items_in id rs k)
last_value-items_in id (StateRecord.account a details ∷ rs) k = last_value-items_in id rs k
last_value-items_in id (StateRecord.access_key a pk key ∷ rs) k = last_value-items_in id rs k
last_value-items_in id (StateRecord.contract a code ∷ rs) k = last_value-items_in id rs k

abbrev kept_in : QueryRequest → List StateRecord → QueryResponseKind
kept_in (QueryRequest.view_code id) rs =
    QueryResponseKind.contract_code (unwrap_or (code_in id rs) [])
kept_in (QueryRequest.view_state id prefix) rs = QueryResponseKind.state_values (items_in id rs)
kept_in q rs = QueryResponseKind.contract_code []

abbrev keeping : Call (List StateRecord)
keeping (Request.patch_state records) rs = (ok tt, rs ++ records)
keeping (Request.query r q) rs = (ok (record { kind = kept_in q rs; block_hash = [] }), rs)
keeping r rs = ((call r 1).0, rs)

abbrev kept : Ledger keeping
kept = record {
  stored = λ rs. rs;
  patches = λ records rs. (rs ++ records, refl, refl);
  shows_code = λ r id code rs e. (
    [],
    rs,
    ap
        (λ (o : Option Bytes). (
          ok (record { kind = QueryResponseKind.contract_code (unwrap_or o []); block_hash = [] }),
          rs,
        ))
        e,
  );
  shows_state = λ r id rs. (items_in id rs, [], rs, refl, last_value-items_in id rs);
}

abbrev spooning : Networks ℕ (List StateRecord)
spooning = record {
  from_network = client;
  into_network = record {
    access_key_nonces = [];
    node = StateRecord.data_record "bob.test" (7 ∷ []) (8 ∷ []) ∷ [];
  };
}

import_spoons_example :
    ((Import.transact lib call keeping latest hash_bytes seed public_key import_all spooning).0
      ≡ ok (signer_of seed import_all))
    × ((run lib keeping latest Kinds.view_code
          (Query.new (record { account_id = "bob.test" }))
          (Import.transact lib call keeping latest hash_bytes seed public_key import_all
            spooning).1.into_network).0
        ≡ ok (0 ∷ []))
    × ((items : List (Bytes × Bytes)) × ((run lib keeping latest Kinds.view_state
            (Query.new (record { account_id = "bob.test"; prefix = none }))
            (Import.transact lib call keeping latest hash_bytes seed public_key import_all
              spooning).1.into_network).0
          ≡ ok items)
        × ((k : Bytes)
            → Map.get k items
              ≡ overwrite
                  (value_in "bob.test" k spooning.into_network.node)
                  (last_value k ((1 ∷ [], 3 ∷ []) ∷ []))))
unfolding account_of code_of states_of run query retry ◌>>=◌ Result.lift mapping_err rpc_custom
    details_from_view Kinds.view_account Kinds.view_code Kinds.view_state Map.insert Map.remove
import_spoons_example =
    import_spoons lib call keeping latest hash_bytes seed public_key kept import_all spooning
      read_details (0 ∷ []) ((1 ∷ [], 3 ∷ []) ∷ []) client client client refl refl refl refl refl
