-- ===== src/Query.antt =====
-- workspaces/src/rpc/query.rs and `into_state_map` of workspaces/src/rpc/tool.rs: queries that are
-- built first and sent when they are awaited. `BlockReference::latest` of near_primitives is a
-- parameter.
pub mod Kinds
pub mod Asked
pub mod StateMap
use near_workspaces_rs.Prelude.{ℕ, Option, none, some, unwrap_or}
use near_workspaces_rs.Result.{Result, Exec, pure, lift, ◌>>=◌, mapping_err}
use near_workspaces_rs.Primitives.{BlockReference, BlockId}
use near_workspaces_rs.Primitives.Rpc.{Request, Response, Call, ChunkReference}
use near_workspaces_rs.Error.{Error, rpc_error, rpc_custom, query_failure}
use near_workspaces_rs.Types.{CryptoHash, Finality, block_reference_from_finality}
use near_workspaces_rs.Chain.{Chunk, chunk_from_view}
use near_workspaces_rs.Client.Retry.{RetryLib}
use near_workspaces_rs.Client.{Client, query, view_block}

-- The trait `ProcessQuery` of a kind of query `T`. `request` embeds the trait's type `Method` into the
-- requests of the node.
pub record ProcessQuery (T Method Output : Type 0) : Type 0 where
  pub request : Method → Request
  pub into_request : T → BlockReference → Result Method Error
  pub from_response : (m : Method) → Response (request m) → Result Output Error

-- `Query`, less its client
pub record Query (T : Type 0) : Type 0 where
  pub method : T
  pub block_ref : Option BlockReference

module _ {T : Type 0} where
  unfoldable pub new : T → Query T
  new method = record { method = method; block_ref = none }

  unfoldable pub block_height : Query T → ℕ → Query T
  block_height self height = record self {
    block_ref = some (BlockReference.block_id (BlockId.height height));
  }

  unfoldable pub block_hash : Query T → CryptoHash → Query T
  block_hash self hash = record self {
    block_ref = some (BlockReference.block_id (BlockId.hash hash));
  }

  unfoldable pub finality : Query T → Finality → Query T
  finality self value = record self { block_ref = some (block_reference_from_finality value) }

  unfoldable pub block_reference : Query T → BlockReference → Query T
  block_reference self value = record self { block_ref = some value }

-- `QueryChunk`, less its client
pub record QueryChunk : Type 0 where
  pub chunk_ref : Option ChunkReference

unfoldable pub new_chunk : QueryChunk
new_chunk = record { chunk_ref = none }

unfoldable pub block_hash_and_shard : QueryChunk → CryptoHash → ℕ → QueryChunk
block_hash_and_shard self hash shard_id = record self {
  chunk_ref = some (ChunkReference.block_shard_id (BlockId.hash hash) shard_id);
}

unfoldable pub block_height_and_shard : QueryChunk → ℕ → ℕ → QueryChunk
block_height_and_shard self height shard_id = record self {
  chunk_ref = some (ChunkReference.block_shard_id (BlockId.height height) shard_id);
}

unfoldable pub chunk_hash : QueryChunk → CryptoHash → QueryChunk
chunk_hash self hash = record self { chunk_ref = some (ChunkReference.chunk_hash hash) }

module _ (lib : RetryLib) {W : Type 0} (call : Call W) where
  -- `Query::into_future`
  unfoldable pub run :
      {T Method Output : Type 0} (latest : BlockReference) (process : ProcessQuery T Method Output)
      → Query T
      → Exec (Client W) Output Error
  run latest process self = do
    m ← lift (process.into_request self.method (unwrap_or self.block_ref latest))
    resp ←
        mapping_err (λ e. rpc_custom query_failure (rpc_error e))
          (query lib call (process.request m))
    lift (process.from_response m resp)

  -- The reference that `QueryChunk::into_future` asks for
  chunk_reference : Option ChunkReference → Exec (Client W) ChunkReference Error
  chunk_reference (some chunk_ref) = pure chunk_ref
  chunk_reference none = do
    block_view ← view_block lib call none
    pure (ChunkReference.block_shard_id (BlockId.hash block_view.header.hash) 0)

  -- `QueryChunk::into_future`
  unfoldable pub run_chunk : QueryChunk → Exec (Client W) Chunk Error
  unfolding chunk_reference
  run_chunk self = do
    chunk_ref ← chunk_reference self.chunk_ref
    chunk_view ←
        mapping_err (λ e. rpc_custom query_failure (rpc_error e))
          (query lib call (Request.chunk chunk_ref))
    pure (chunk_from_view chunk_view)
