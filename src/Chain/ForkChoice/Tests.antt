-- ===== src/Chain/ForkChoice/Tests.antt =====
-- Runs of the choice between forks (chain/fork_choice.go), with the parent's hash and the height as
-- the hash of a block.
use topia.Base.{
  ℕ, zero, suc, ◌+◌, ◌≡◌, refl, sym, ◌∙◌, Option, none, some, List, [], ◌∷◌, ltb, arith,
}
use topia.Base.Bytes.{Bytes}
use topia.Chain.{BlockHead, Block}
use topia.Chain.ForkChoice.{
  set_bytes, block_head_choice, find_ancestor, Weights, chain_choice_after_ancestor,
}
use topia.Chain.ForkChoice.Ancestor.{Chained, PinsParent, find_ancestor-none}
use topia.Chain.ForkChoice.Walk.{chain_choice_after_ancestor-stuck}

abbrev head : ℕ → Option Bytes → Bytes → BlockHead
head height parent pri = record {
  chain_id = 7 ∷ [];
  version = 1;
  height = height;
  epoch = 0;
  round = height;
  parent_block_hash = parent;
  proposer = some (1 ∷ []);
  proof = none;
  vrf_proof = none;
  vrf_proof_height = height;
  max_pri = pri;
  vote_agg_signature = none;
  chunk_count = 0;
  head_chunks = [];
  state_root = [];
  gas_fees = [];
  time_stamp = 0;
  elapsed_span = 0;
  hash = [];
  reserved = [];
}

abbrev block : ℕ → Option Bytes → Bytes → Block
block height parent pri = record { head = head height parent pri; data_chunks = [] }

abbrev with_parent : Option Bytes → Bytes → Bytes
with_parent none rest = 0 ∷ rest
with_parent (some parent) rest = 1 ∷ parent

-- It determines the parent's hash.
abbrev hash_bytes : Block → Bytes
hash_bytes b = with_parent b.head.parent_block_hash (b.head.height ∷ [])

hash_bytes-PinsParent : PinsParent hash_bytes
hash_bytes-PinsParent block1 block2 e =
    pinned block1.head.parent_block_hash block2.head.parent_block_hash _ _ e
  where
    pinned :
        (p1 p2 : Option Bytes) (r1 r2 : Bytes) → with_parent p1 r1 ≡ with_parent p2 r2 → p1 ≡ p2
    pinned none none r1 r2 e = refl
    pinned none (some p2) r1 r2 e = ground arith
    pinned (some p1) none r1 r2 e = ground arith
    pinned (some p1) (some p2) r1 r2 e = ground arith

abbrev genesis : Block
genesis = block 1 none []

abbrev child : Bytes → Block
child pri = block 2 (some (hash_bytes genesis)) pri

abbrev or_genesis : Option Block → Block
or_genesis none = genesis
or_genesis (some b) = b

fork-Chained : (pri : Bytes) → Chained hash_bytes (genesis ∷ child pri ∷ [])
fork-Chained pri zero b next e e' =
    (λ k. (or_genesis (sym e' k)).head.parent_block_hash)
    ∙ (λ k. some (hash_bytes (or_genesis (e k))))
fork-Chained pri (suc i) b next e e' = absurd (ground arith)

abbrev left : List Block
left = genesis ∷ child (1 ∷ 0 ∷ []) ∷ []

abbrev right : List Block
right = genesis ∷ child (255 ∷ []) ∷ []

find_ancestor-none_example : find_ancestor hash_bytes left right ≡ none
find_ancestor-none_example =
    find_ancestor-none hash_bytes left right hash_bytes-PinsParent (fork-Chained (1 ∷ 0 ∷ []))
      (fork-Chained (255 ∷ []))

abbrev longer : BlockHead
longer = head 2 none (1 ∷ 0 ∷ [])

abbrev shorter : BlockHead
shorter = head 3 none (255 ∷ [])

by_number : block_head_choice shorter longer ≡ some longer
unfolding block_head_choice set_bytes
by_number = refl

abbrev heights : Weights
heights = record {
  Weight = ℕ;
  nothing = 0;
  plus = ◌+◌;
  less = ltb;
  ratio = λ b. some b.head.height;
}

chain_choice_after_ancestor-stuck_example :
    chain_choice_after_ancestor heights 100 left right ≡ none
chain_choice_after_ancestor-stuck_example =
    chain_choice_after_ancestor-stuck heights 100 genesis genesis (child (1 ∷ 0 ∷ []) ∷ [])
      (child (255 ∷ []) ∷ []) 1 1 refl refl
