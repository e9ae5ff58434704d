-- ===== src/Chain.antt =====
-- Blocks and the chain (chain/types/block.pb.go, chain/): the data of a block head.
pub mod ForkChoice
pub mod HeadCheck
use topia.Base.{ℕ, Option, List}
use topia.Base.Bytes.{Bytes}

-- A field that the code compares with nil is an option.
pub record BlockHead : Type 0 where
  pub chain_id : Bytes
  pub version : ℕ
  pub height : ℕ
  pub epoch : ℕ
  pub round : ℕ
  pub parent_block_hash : Option Bytes
  pub proposer : Option Bytes
  pub proof : Option Bytes
  pub vrf_proof : Option Bytes
  pub vrf_proof_height : ℕ
  pub max_pri : Bytes
  pub vote_agg_signature : Option Bytes
  pub chunk_count : ℕ
  pub head_chunks : List Bytes
  pub state_root : Bytes
  pub gas_fees : Bytes
  pub time_stamp : ℕ
  pub elapsed_span : ℕ
  pub hash : Bytes
  pub reserved : Bytes

pub record Block : Type 0 where
  pub head : BlockHead
  pub data_chunks : List Bytes
