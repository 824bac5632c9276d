-- ===== src/Import/Spooned.antt =====
-- Reading an imported contract back from the sandbox (workspaces/src/rpc/patch.rs and
-- workspaces/src/rpc/query.rs). The sandbox answers from the records that it was sent.
use near_workspaces_rs.Prelude.{
  ◌≡◌, refl, sym, ◌∙◌, ap, String, true, false, Option, none, some, List, [], ◌∷◌, ◌++◌, map, ◌==◌,
  list_eq, nat_eq, string_eq, if◌then◌else◌,
}
use near_workspaces_rs.Result.{ok, ◌>>=◌, ◌>>◌, lift, mapping_err}
use near_workspaces_rs.Primitives.{
  AccountId, PublicKey, SecretKey, Bytes, BlockReference, StateRecord,
}
use near_workspaces_rs.Primitives.Rpc.{Call, Request, QueryRequest, QueryResponseKind}
use near_workspaces_rs.Types.{CryptoHash, zero_hash}
use near_workspaces_rs.Account.{AccountDetails, overwrite}
use near_workspaces_rs.Client.Retry.{RetryLib}
use near_workspaces_rs.Client.{Client}
use near_workspaces_rs.Client.Recovers.{query_answered}
use near_workspaces_rs.Map.{get}
use near_workspaces_rs.Query
use near_workspaces_rs.Query.{run}
use near_workspaces_rs.Query.Kinds.{view_code, view_state, into_state_map}
use near_workspaces_rs.Query.StateMap.{last_value, get-into_state_map}
use near_workspaces_rs.Patch.{send_records}
use near_workspaces_rs.Import.{
  ImportContractTransaction, Networks, destination, account_of, code_of, states_of, transact,
}
use near_workspaces_rs.Import.Written.{signer_of, account_records, import_writes}

-- The code that the last record of it gives the account.
pub code_in : AccountId → List StateRecord → Option Bytes
code_in id [] = none
code_in id (StateRecord.contract a code ∷ rs) =
    overwrite (if a == id then some code else none) (code_in id rs)
code_in id (StateRecord.account a details ∷ rs) = code_in id rs
code_in id (StateRecord.access_key a pk key ∷ rs) = code_in id rs
code_in id (StateRecord.data_record a key value ∷ rs) = code_in id rs

-- The value that the last record of it gives the key of the account's state.
unfoldable pub value_in : AccountId → Bytes → List StateRecord → Option Bytes
value_in id k [] = none
value_in id k (StateRecord.data_record a key value ∷ rs) =
    overwrite (if a == id then (if key == k then some value else none) else none) (value_in id k rs)
value_in id k (StateRecord.account a details ∷ rs) = value_in id k rs
value_in id k (StateRecord.access_key a pk key ∷ rs) = value_in id k rs
value_in id k (StateRecord.contract a code ∷ rs) = value_in id k rs

overwrite-none : (o : Option Bytes) → overwrite none o ≡ o
overwrite-none none = refl
overwrite-none (some x) = refl

overwrite_assoc : (a b c : Option Bytes) → overwrite (overwrite a b) c ≡ overwrite a (overwrite b c)
overwrite_assoc a b none = refl
overwrite_assoc a b (some x) = refl

code_in-append :
    (id : AccountId) (rs ss : List StateRecord)
    → code_in id (rs ++ ss) ≡ overwrite (code_in id rs) (code_in id ss)
unfolding code_in
code_in-append id [] ss = sym (overwrite-none (code_in id ss))
code_in-append id (StateRecord.contract a code ∷ rs) ss =
    ap (overwrite (if a == id then some code else none)) (code_in-append id rs ss)
    ∙ sym (overwrite_assoc _ (code_in id rs) (code_in id ss))
code_in-append id (StateRecord.account a details ∷ rs) ss = code_in-append id rs ss
code_in-append id (StateRecord.access_key a pk key ∷ rs) ss = code_in-append id rs ss
code_in-append id (StateRecord.data_record a key value ∷ rs) ss = code_in-append id rs ss

value_in-append :
    (id : AccountId) (k : Bytes) (rs ss : List StateRecord)
    → value_in id k (rs ++ ss) ≡ overwrite (value_in id k rs) (value_in id k ss)
unfolding value_in
value_in-append id k [] ss = sym (overwrite-none (value_in id k ss))
value_in-append id k (StateRecord.data_record a key value ∷ rs) ss =
    ap (overwrite (if a == id then (if key == k then some value else none) else none))
      (value_in-append id k rs ss)
    ∙ sym (overwrite_assoc _ (value_in id k rs) (value_in id k ss))
value_in-append id k (StateRecord.account a details ∷ rs) ss = value_in-append id k rs ss
value_in-append id k (StateRecord.access_key a pk key ∷ rs) ss = value_in-append id k rs ss
value_in-append id k (StateRecord.contract a code ∷ rs) ss = value_in-append id k rs ss

abbrev data_records : AccountId → List (Bytes × Bytes) → List StateRecord
data_records id states = map (λ e. StateRecord.data_record id e.0 e.1) states

code_in-data_records :
    (id j : AccountId) (states : List (Bytes × Bytes)) → code_in j (data_records id states) ≡ none
unfolding code_in
code_in-data_records id j [] = refl
code_in-data_records id j (e ∷ states) = code_in-data_records id j states

value_in-data_records :
    (id : AccountId) (k : Bytes) (states : List (Bytes × Bytes))
    → value_in id k (data_records id states) ≡ last_value k states
unfolding value_in
value_in-data_records id k [] = refl
value_in-data_records id k ((key, value) ∷ states) =
    rw ((string_eq.eq_iff id id).1 refl)
      (ap (overwrite (if key == k then some value else none)) (value_in-data_records id k states))

-- A sandbox that keeps the records that it is sent behind those that it has, and answers from them.
pub record Ledger {V : Type 0} (call : Call V) : Type 0 where
  pub stored : V → List StateRecord
  pub patches :
      (records : List StateRecord) (v : V)
      → (w : V) × (call (Request.patch_state records) v ≡ (ok tt, w))
        × (stored w ≡ stored v ++ records)
  pub shows_code :
      (r : BlockReference) (id : AccountId) (code : Bytes) (v : V)
      → code_in id (stored v) ≡ some code
      → (hash : Bytes) × (w : V) × (call (Request.query r (QueryRequest.view_code id)) v
          ≡ (ok (record { kind = QueryResponseKind.contract_code code; block_hash = hash }), w))
  pub shows_state :
      (r : BlockReference) (id : AccountId) (v : V)
      → (items : List (Bytes × Bytes)) × (hash : Bytes) × (w : V) × (call
            (Request.query r (QueryRequest.view_state id []))
            v
          ≡ (ok (record { kind = QueryResponseKind.state_values items; block_hash = hash }), w))
        × ((k : Bytes) → last_value k items ≡ value_in id k (stored v))

module _ (lib : RetryLib) {V : Type 0} (call : Call V) (ledger : Ledger call) where
  open ledger use {stored, patches, shows_code, shows_state}

  sent_twice :
      (records : List StateRecord) (c : Client V)
      → (v : V) × ((send_records lib call records >> send_records lib call records) c
          ≡ (ok tt, record c { node = v }))
        × (stored v ≡ (stored c.node ++ records) ++ records)
  unfolding send_records mapping_err ◌>>=◌ ◌>>◌
  sent_twice records c =
      let (v, e, s) = patches records c.node in
      let (w, e', s') = patches records v in
      (
        w,
        rw (query_answered lib call (Request.patch_state records) c tt v e) (
            rw
              (query_answered lib call (Request.patch_state records) (record c { node = v }) tt w
                e')
              refl),
        s' ∙ ap (λ r. r ++ records) s,
      )

  code_read :
      (latest : BlockReference) (id : AccountId) (code : Bytes) (c : Client V)
      → code_in id (stored c.node) ≡ some code
      → (run lib call latest view_code (Query.new (record { account_id = id })) c).0 ≡ ok code
  unfolding run view_code Query.new mapping_err ◌>>=◌ lift
  code_read latest id code c last =
      let (hash, w, e) = shows_code latest id code c.node last in
      rw (query_answered lib call (Request.query latest (QueryRequest.view_code id)) c _ w e) refl

  state_read :
      (latest : BlockReference) (id : AccountId) (c : Client V)
      → (items : List (Bytes × Bytes)) × ((run lib call latest view_state
            (Query.new (record { account_id = id; prefix = none }))
            c).0
          ≡ ok items)
        × ((k : Bytes) → get k items ≡ value_in id k (stored c.node))
  unfolding run view_state Query.new mapping_err ◌>>=◌ lift
  state_read latest id c =
      let (items, hash, w, e, same) = shows_state latest id c.node in
      (
        into_state_map items,
        rw (query_answered lib call (Request.query latest (QueryRequest.view_state id [])) c _ w e)
            refl,
        λ k. get-into_state_map k items ∙ same k,
      )

overwrite_twice : (a b : Option Bytes) → overwrite (overwrite a b) b ≡ overwrite a b
overwrite_twice a none = refl
overwrite_twice a (some x) = refl

-- What a contract's records, sent twice behind others, leave under its name.
module _ (from_seed : String → SecretKey) (public_key : SecretKey → PublicKey)
    (self : ImportContractTransaction) (d : AccountDetails) (h : Option CryptoHash) (code : Bytes)
    (states : List (Bytes × Bytes)) where
  abbrev contract_records : List StateRecord
  contract_records =
      account_records from_seed public_key self d h
      ++ StateRecord.contract (destination self) code ∷ data_records (destination self) states

  code_left :
      (before : List StateRecord)
      → code_in (destination self) ((before ++ contract_records) ++ contract_records) ≡ some code
  unfolding code_in
  code_left before =
      code_in-append (destination self) (before ++ contract_records) contract_records
      ∙ ap (overwrite (code_in (destination self) (before ++ contract_records))) once
    where
      once : code_in (destination self) contract_records ≡ some code
      once =
          rw
            (
              (string_eq.eq_iff (destination self) (destination self)).1 refl,
              code_in-data_records (destination self) (destination self) states,
            )
            refl

  value_left :
      (k : Bytes) (before : List StateRecord)
      → value_in (destination self) k ((before ++ contract_records) ++ contract_records)
        ≡ overwrite (value_in (destination self) k before) (last_value k states)
  unfolding value_in
  value_left k before =
      value_in-append (destination self) k (before ++ contract_records) contract_records
      ∙ ap (λ o. overwrite o (value_in (destination self) k contract_records))
          (value_in-append (destination self) k before contract_records)
      ∙ overwrite_twice (value_in (destination self) k before)
          (value_in (destination self) k contract_records)
      ∙ ap (overwrite (value_in (destination self) k before))
          (value_in-data_records (destination self) k states)

module _ (lib : RetryLib) {W V : Type 0} (call_from : Call W) (call_into : Call V)
    (latest : BlockReference) (hash_bytes : Bytes → CryptoHash) (from_seed : String → SecretKey)
    (public_key : SecretKey → PublicKey) (ledger : Ledger call_into) where
  open ledger use {stored}

  -- If the account has code and the data is to be imported, and the account, its code and its state can
  -- be read, then the import into a sandbox that answers from the records it was sent succeeds with the
  -- contract's signer. After it, the code that the sandbox shows is the one that was read, and the
  -- state that it shows has under each key the value that was read, or, if none was, the value that the
  -- sandbox had before.
  pub import_spoons :
      (self : ImportContractTransaction) (n : Networks W V) (d : AccountDetails) (code : Bytes)
      (states : List (Bytes × Bytes)) (c1 c2 c3 : Client W)
      → account_of lib call_from latest self n.from_network ≡ (ok d, c1)
      → (d.code_hash == zero_hash) ≡ false
      → code_of lib call_from latest self c1 ≡ (ok code, c2)
      → self.import_data ≡ true
      → states_of lib call_from latest self c2 ≡ (ok states, c3)
      → let done = transact lib call_from call_into latest hash_bytes from_seed public_key self n in
        (done.0 ≡ ok (signer_of from_seed self))
        × ((run lib call_into latest view_code
              (Query.new (record { account_id = destination self }))
              done.1.into_network).0
            ≡ ok code)
        × ((items : List (Bytes × Bytes)) × ((run lib call_into latest view_state
                (Query.new (record { account_id = destination self; prefix = none }))
                done.1.into_network).0
              ≡ ok items)
            × ((k : Bytes)
                → get k items
                  ≡ overwrite
                      (value_in (destination self) k (stored n.into_network.node))
                      (last_value k states)))
  import_spoons self n d code states c1 c2 c3 read has_code fetched wanted listed =
      let (v, e, s) =
        sent_twice lib call_into ledger
          (contract_records from_seed public_key self d (some (hash_bytes code)) code states)
          n.into_network in
      rw
        (
          import_writes lib call_from call_into latest hash_bytes from_seed public_key self n d code
              states c1 c2 c3 read has_code fetched wanted listed,
          e,
        )
        (
          refl,
          code_read lib call_into ledger latest (destination self) code
              (record n.into_network { node = v })
              (ap (code_in (destination self)) s
                ∙ code_left from_seed public_key self d (some (hash_bytes code)) code states
                    (stored n.into_network.node)),
          let (items, shown, same) =
                state_read lib call_into ledger latest (destination self)
                  (record n.into_network { node = v }) in
              (
                items,
                shown,
                λ k.
                    same k
                    ∙ ap (value_in (destination self) k) s
                    ∙ value_left from_seed public_key self d (some (hash_bytes code)) code states k
                        (stored n.into_network.node),
              ),
        )
