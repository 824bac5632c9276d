-- ===== src/Query/Asked.antt =====
-- What the queries of workspaces/src/rpc/query.rs ask of the node, and when they ask nothing.
use near_workspaces_rs.Prelude.{ℕ, ◌≡◌, refl, Option, none, some, unwrap_or}
use near_workspaces_rs.Result.{
  Result, ok, err, continue, continue-pure, pure, lift, ◌>>=◌, mapping_err,
}
use near_workspaces_rs.Primitives
use near_workspaces_rs.Primitives.{Bytes, BlockReference, BlockId}
use near_workspaces_rs.Primitives.Rpc.{Request, Call}
use near_workspaces_rs.Error.{Error, rpc_error, rpc_custom, query_failure}
use near_workspaces_rs.Types.{CryptoHash}
use near_workspaces_rs.Client.Retry.{RetryLib}
use near_workspaces_rs.Client.{Client, query, view_block}
use near_workspaces_rs.Client.Keeps.{
  lift-KeepsNode, mapping_err-KeepsNode, bind-KeepsNode, query-KeepsNode,
}
use near_workspaces_rs.Operations.Function as FunctionOps
use near_workspaces_rs.Query.{
  ProcessQuery, Query, new, block_height, block_hash, run, new_chunk, run_chunk,
  block_hash_and_shard,
}
use near_workspaces_rs.Query.Kinds.{
  ViewFunction, view_function, view_args, GasPrice, gas_price_query, gas_price,
}

continue-lift : {S A E : Type 0} (r : Result A E) (s : S) → continue r s (λ a. lift (ok a)) ≡ (r, s)
unfolding lift
continue-lift (ok a) s = refl
continue-lift (err e) s = refl

-- The gas price queries that the builder's operations make.
pub data Built : Query GasPrice → Type 0 where
  plain : Built (new gas_price_query)
  at_height : {q : Query GasPrice} (h : ℕ) → Built q → Built (block_height q h)
  at_hash : {q : Query GasPrice} (h : CryptoHash) → Built q → Built (block_hash q h)

module _ (lib : RetryLib) {W : Type 0} (call : Call W) (latest : BlockReference) where
  -- A property of the node that the query's own request keeps is kept by running the query: it makes
  -- no other request, and none if it cannot be turned into a request.
  pub run_requests :
      {T Method Output : Type 0} (process : ProcessQuery T Method Output) (q : Query T)
      (P : W → Type 0)
      → ((m : Method)
          → process.into_request q.method (unwrap_or q.block_ref latest) ≡ ok m
          → (w : W) → P w
          → P (call (process.request m) w).1)
      → (c : Client W) → P c.node
      → P (run lib call latest process q c).1.node
  unfolding run lift ◌>>=◌
  run_requests {Method = Method} process q P keep c p =
      from (process.into_request q.method (unwrap_or q.block_ref latest)) refl
    where
      from :
          (r : Result Method Error)
          → process.into_request q.method (unwrap_or q.block_ref latest) ≡ r
          → P
              (continue r c (λ m.
                mapping_err
                  (λ e. rpc_custom query_failure (rpc_error e))
                  (query lib call (process.request m))
                >>= λ resp. lift (process.from_response m resp))).1.node
      from (err e) h = p
      from (ok m) h =
          (bind-KeepsNode {P = P} _ _
              (mapping_err-KeepsNode _ _ (query-KeepsNode lib call (process.request m) (keep m h)))
              (λ resp. lift-KeepsNode _)).at
            c p

  -- A view whose arguments could not be serialized returns that error and asks the node nothing,
  -- also when bytes are given as its arguments afterwards.
  pub view_deferred_error :
      (q : Query ViewFunction) (e : Error) (c : Client W)
      → q.method.function.args ≡ err e
      → (run lib call latest view_function q c ≡ (err e, c))
        × ((bytes : Bytes) → run lib call latest view_function (view_args q bytes) c ≡ (err e, c))
  unfolding run view_function view_args FunctionOps.args lift ◌>>=◌
  view_deferred_error q e c h = (rw h refl, λ bytes. rw h refl)

  -- If the latest block is named by a finality, a gas price query that the builder makes is never
  -- refused as a sync checkpoint: it asks the node for one gas price, of the block given last if one
  -- was given.
  gas_price_accepted :
      (f : Primitives.Finality) (q : Query GasPrice) (c : Client W)
      → latest ≡ BlockReference.finality f
      → Built q
      → (block_id : Option BlockId) × ((q.block_ref
            ≡ (elim block_id [ none ↦ none | some b ↦ some (BlockReference.block_id b) ]))
          × (run lib call latest gas_price q c
              ≡ mapping_err
                  (λ e. rpc_custom query_failure (rpc_error e))
                  (query lib call (Request.gas_price block_id))
                  c))
  unfolding run gas_price new block_height block_hash lift ◌>>=◌ mapping_err
  gas_price_accepted f q c named plain = (none, (refl, rw named (continue-lift _ _)))
  gas_price_accepted f q c named (at_height h b) =
      (some (BlockId.height h), (refl, continue-lift _ _))
  gas_price_accepted f q c named (at_hash h b) = (some (BlockId.hash h), (refl, continue-lift _ _))

module _ (lib : RetryLib) {W : Type 0} (call : Call W) where
  -- A chunk query with no reference looks up a block once, without a reference, and then is the
  -- query of shard 0 at that block's hash, with the error of the look-up if there is one.
  run_chunk_default :
      (c : Client W)
      → run_chunk lib call new_chunk c
        ≡ (do
          block_view ← view_block lib call none
          run_chunk lib call (block_hash_and_shard new_chunk block_view.header.hash 0))
            c
  unfolding run_chunk new_chunk block_hash_and_shard pure ◌>>=◌
  run_chunk_default c =
      continue-pure (view_block lib call none c).0 (view_block lib call none c).1 _ _
