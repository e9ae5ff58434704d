-- ===== src/Chain/HeadCheck.antt =====
-- The basic checks of a block head (chain/block_validator.go, validateBase). The checks of the proof,
-- the signature and the roots run concurrently on the state and the cryptography, and are outside.
mod Tests
use topia.Base.{
  ℕ, ◌+◌, ◌≤◌, ◌<◌, ◌≡◌, ◌↔◌, Bool, true, false, Option, none, some, List, if◌then◌else◌, not, ltb,
  ◌&&◌, arith, inl, inr, Bool-cases,
}
use topia.Base.Eq.{◌==◌, ==_iff}
use topia.Base.Bytes.{Bytes, bytes_eq}
use topia.Base.Map.{is_some}
use topia.Chain.{BlockHead}

pub data HeadError : Type 0 where
  invalid_chain_id : HeadError
  nil_parent_block_hash : HeadError
  nil_proposer : HeadError
  nil_proof : HeadError
  nil_vrf_proof : HeadError
  invalid_vrf_height : HeadError
  nil_vote_agg_signature : HeadError

abbrev pub is_nil : Option Bytes → Bool
is_nil field = not (is_some field)

unfoldable pub validate_base : Bytes → BlockHead → Option HeadError
validate_base cur_chain_id bh =
    if not (bh.chain_id == cur_chain_id)
    then some invalid_chain_id
    else if ltb 1 bh.height && is_nil bh.parent_block_hash
    then some nil_parent_block_hash
    else if is_nil bh.proposer
    then some nil_proposer
    else if ltb 1 bh.height && is_nil bh.proof
    then some nil_proof
    else if is_nil bh.vrf_proof
    then some nil_vrf_proof
    else if ltb bh.vrf_proof_height bh.height
    then some invalid_vrf_height
    else if is_nil bh.vote_agg_signature
    then some nil_vote_agg_signature
    else none

abbrev pub IsThere : Option Bytes → Type 0
IsThere field = is_some field ≡ true

-- A head of this chain with all that it must have; what refers to the parent only after the first block.
pub record IsComplete (cur_chain_id : Bytes) (bh : BlockHead) : Type 0 where
  pub same_chain : bh.chain_id ≡ cur_chain_id
  pub parent_there : 1 < bh.height → IsThere bh.parent_block_hash
  pub proof_there : 1 < bh.height → IsThere bh.proof
  pub proposer_there : IsThere bh.proposer
  pub vrf_there : IsThere bh.vrf_proof
  pub vrf_height : bh.height ≤ bh.vrf_proof_height
  pub signature_there : IsThere bh.vote_agg_signature

-- A head passes the basic checks exactly if it is of the chain and complete: a proposer, a VRF proof
-- of at least its height and the vote signature, and after the first block a parent and its proof.
pub validate_base_iff :
    (cur_chain_id : Bytes) (bh : BlockHead)
    → (validate_base cur_chain_id bh ≡ none) ↔ IsComplete cur_chain_id bh
unfolding validate_base
validate_base_iff cur_chain_id bh =
    let same = ==_iff bh.chain_id cur_chain_id in
    (
      λ e. record {
        same_chain = ground (arith, same);
        parent_there = ground arith;
        proof_there = ground arith;
        proposer_there = ground arith;
        vrf_there = ground arith;
        vrf_height = ground arith;
        signature_there = ground arith;
      },
      λ c. ground (
        arith, same, c.same_chain, c.parent_there, c.proof_there, c.proposer_there, c.vrf_there,
        c.vrf_height, c.signature_there,
      ),
    )
