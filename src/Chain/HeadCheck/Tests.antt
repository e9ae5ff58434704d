-- ===== src/Chain/HeadCheck/Tests.antt =====
-- Runs of the basic checks of a head (chain/block_validator.go).
use topia.Base.{◌≡◌, ◌↔◌, refl, none, some, [], ◌∷◌}
use topia.Base.Bytes.{equal_bytes}
use topia.Chain.{BlockHead}
use topia.Chain.HeadCheck.{nil_parent_block_hash, validate_base, IsComplete, validate_base_iff}

abbrev second_head : BlockHead
second_head = record {
  chain_id = 7 ∷ [];
  version = 1;
  height = 2;
  epoch = 0;
  round = 2;
  parent_block_hash = none;
  proposer = some (1 ∷ []);
  proof = some (2 ∷ []);
  vrf_proof = some (3 ∷ []);
  vrf_proof_height = 2;
  max_pri = [];
  vote_agg_signature = some (4 ∷ []);
  chunk_count = 0;
  head_chunks = [];
  state_root = [];
  gas_fees = [];
  time_stamp = 0;
  elapsed_span = 0;
  hash = [];
  reserved = [];
}

misses_parent : validate_base (7 ∷ []) second_head ≡ some nil_parent_block_hash
unfolding validate_base equal_bytes
misses_parent = refl

validate_base_iff_example :
    (validate_base (7 ∷ []) second_head ≡ none) ↔ IsComplete (7 ∷ []) second_head
validate_base_iff_example = validate_base_iff (7 ∷ []) second_head
