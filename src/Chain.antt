-- ===== src/Chain.antt =====
-- workspaces/src/types/block.rs and types/chunk.rs: what the views of blocks and chunks are converted
-- to. Gas counts units, balances count yoctoNEAR.
use near_workspaces_rs.Prelude.{ℕ, Option, List, map}
use near_workspaces_rs.Primitives.{AccountId}
use near_workspaces_rs.Primitives.Rpc.{BlockView, BlockHeaderView, ChunkView, ChunkHeaderView}
use near_workspaces_rs.Types.{CryptoHash}

pub record ChunkHeader : Type 0 where
  pub chunk_hash : CryptoHash
  pub prev_block_hash : CryptoHash
  pub height_created : ℕ
  pub height_included : ℕ
  pub shard_id : ℕ
  pub gas_used : ℕ
  pub gas_limit : ℕ
  pub balance_burnt : ℕ
  pub tx_root : CryptoHash
  pub outcome_root : CryptoHash
  pub prev_state_root : CryptoHash
  pub outgoing_receipts_root : CryptoHash
  pub encoded_merkle_root : CryptoHash
  pub encoded_length : ℕ

pub record Chunk : Type 0 where
  pub author : AccountId
  pub header : ChunkHeader

-- `From<ChunkHeaderView> for ChunkHeader`
unfoldable pub chunk_header_from_view : ChunkHeaderView → ChunkHeader
chunk_header_from_view view = record {
  chunk_hash = view.chunk_hash;
  prev_block_hash = view.prev_block_hash;
  height_created = view.height_created;
  height_included = view.height_included;
  shard_id = view.shard_id;
  gas_used = view.gas_used;
  gas_limit = view.gas_limit;
  balance_burnt = view.balance_burnt;
  tx_root = view.tx_root;
  outcome_root = view.outcome_root;
  prev_state_root = view.prev_state_root;
  outgoing_receipts_root = view.outgoing_receipts_root;
  encoded_merkle_root = view.encoded_merkle_root;
  encoded_length = view.encoded_length;
}

-- `From<ChunkView> for Chunk`
unfoldable pub chunk_from_view : ChunkView → Chunk
unfolding chunk_header_from_view
chunk_from_view view = record { author = view.author; header = chunk_header_from_view view.header }

pub record BlockHeader : Type 0 where
  pub height : ℕ
  pub epoch_id : CryptoHash
  pub next_epoch_id : CryptoHash
  pub hash : CryptoHash
  pub prev_hash : CryptoHash
  pub timestamp_nanosec : ℕ
  pub random_value : CryptoHash
  pub gas_price : ℕ
  pub block_ordinal : Option ℕ
  pub total_supply : ℕ
  pub last_final_block : CryptoHash
  pub last_ds_final_block : CryptoHash
  pub next_bp_hash : CryptoHash
  pub latest_protocol_version : ℕ
  pub prev_state_root : CryptoHash
  pub chunk_receipts_root : CryptoHash
  pub chunk_headers_root : CryptoHash
  pub chunk_tx_root : CryptoHash
  pub outcome_root : CryptoHash
  pub challenges_root : CryptoHash
  pub block_merkle_root : CryptoHash

pub record Block : Type 0 where
  pub author : AccountId
  pub header : BlockHeader
  pub chunks : List ChunkHeader

-- `From<BlockHeaderView> for BlockHeader`
unfoldable pub block_header_from_view : BlockHeaderView → BlockHeader
block_header_from_view header_view = record {
  height = header_view.height;
  epoch_id = header_view.epoch_id;
  next_epoch_id = header_view.next_epoch_id;
  hash = header_view.hash;
  prev_hash = header_view.prev_hash;
  timestamp_nanosec = header_view.timestamp_nanosec;
  random_value = header_view.random_value;
  gas_price = header_view.gas_price;
  block_ordinal = header_view.block_ordinal;
  total_supply = header_view.total_supply;
  last_final_block = header_view.last_final_block;
  last_ds_final_block = header_view.last_ds_final_block;
  next_bp_hash = header_view.next_bp_hash;
  latest_protocol_version = header_view.latest_protocol_version;
  prev_state_root = header_view.prev_state_root;
  chunk_receipts_root = header_view.chunk_receipts_root;
  chunk_headers_root = header_view.chunk_headers_root;
  chunk_tx_root = header_view.chunk_tx_root;
  outcome_root = header_view.outcome_root;
  challenges_root = header_view.challenges_root;
  block_merkle_root = header_view.block_merkle_root;
}

-- `From<BlockView> for Block`
unfoldable pub block_from_view : BlockView → Block
unfolding block_header_from_view chunk_header_from_view
block_from_view view = record {
  author = view.author;
  header = block_header_from_view view.header;
  chunks = map chunk_header_from_view view.chunks;
}

-- The methods of `Block` and `Chunk` that look into the header
unfoldable pub block_timestamp : Block → ℕ
block_timestamp self = self.header.timestamp_nanosec

unfoldable pub block_height : Block → ℕ
block_height self = self.header.height

unfoldable pub block_hash : Block → CryptoHash
block_hash self = self.header.hash

unfoldable pub block_epoch_id : Block → CryptoHash
block_epoch_id self = self.header.epoch_id

unfoldable pub chunk_hash_of : Chunk → CryptoHash
chunk_hash_of self = self.header.chunk_hash

unfoldable pub chunk_shard_id : Chunk → ℕ
chunk_shard_id self = self.header.shard_id
