-- ===== src/Chain/ForkChoice.antt =====
-- The choice between forks (chain/fork_choice.go). The hash of a block and the weight ratio of its
-- proposer, with the floating-point numbers that it is, are parameters.
pub mod Heads
pub mod Ancestor
pub mod Walk
mod Tests
use topia.Base.{
  ℕ, zero, suc, ◌+◌, ◌*◌, ◌-◌, Bool, true, false, Option, none, some, List, [], ◌∷◌, if◌then◌else◌,
  not, ltb, leb, ◌=?◌, ◌||◌, length, get_elem?,
}
use topia.Base.Eq.{◌==◌}
use topia.Base.Bytes.{Bytes, bytes_eq}
use topia.Chain.{BlockHead, Block}

-- new(big.Int).SetBytes(bytes)
unfoldable pub set_bytes : ℕ → Bytes → ℕ
set_bytes value [] = value
set_bytes value (byte ∷ bytes) = set_bytes (value * 256 + byte) bytes

-- The height of the first head is compared with itself. `none` is the error.
unfoldable pub block_head_choice : BlockHead → BlockHead → Option BlockHead
block_head_choice bh1 bh2 =
    let pri1 = set_bytes 0 bh1.max_pri in
    let pri2 = set_bytes 0 bh2.max_pri in
    if not (bh1.height =? bh1.height)
    then none
    else if ltb pri1 pri2
    then some bh2
    else if ltb pri2 pri1
    then some bh1
    else some bh1

module _ (hash_bytes : Block → Bytes) where
  -- The indices are in range.
  abbrev pub same_hash : Option Block → Option Block → Bool
  same_hash none b2 = false
  same_hash (some b1) none = false
  same_hash (some b1) (some b2) = hash_bytes b1 == hash_bytes b2

  -- The loop, with i + 1 and j + 1 for its i and j.
  unfoldable pub find_from : List Block → List Block → ℕ → ℕ → Option Block
  find_from chain1 chain2 zero j = none
  find_from chain1 chain2 (suc i) zero = none
  find_from chain1 chain2 (suc i) (suc j) =
      let further = find_from chain1 chain2 i j in
      if same_hash (get_elem? chain1 i) (get_elem? chain2 j)
      then further
      else if ltb i (length chain1 - 1)
      then get_elem? chain1 (i + 1)
      else none

  abbrev pub find_ancestor : List Block → List Block → Option Block
  find_ancestor chain1 chain2 =
      if (length chain1 =? 0) || (length chain2 =? 0)
      then none
      else find_from chain1 chain2 (length chain1) (length chain2)

-- The weights of blocks, added up and compared.
pub record Weights : Type 1 where
  pub Weight : Type 0
  pub nothing : Weight
  pub plus : Weight → Weight → Weight
  pub less : Weight → Weight → Bool
  pub ratio : Block → Option Weight

pub data ChainChoice : Type 0 where
  chosen : List Block → ChainChoice
  no_ratio : ChainChoice
  out_of_range : ChainChoice

module _ (w : Weights) where
  pub data Summed : Type 0 where
    total : w.Weight → Summed
    stops : ChainChoice → Summed

  abbrev pub add_ratio : w.Weight → Option w.Weight → Summed
  add_ratio sum none = stops no_ratio
  add_ratio sum (some ratio) = total (w.plus sum ratio)

  abbrev pub add_block : w.Weight → Option Block → Summed
  add_block sum none = stops out_of_range
  add_block sum (some block) = add_ratio sum (w.ratio block)

  abbrev pub heavier : List Block → List Block → w.Weight → w.Weight → ChainChoice
  heavier chain1 chain2 sum1 sum2 = if w.less sum1 sum2 then chosen chain2 else chosen chain1

  abbrev pub if_total : Summed → (w.Weight → Option ChainChoice) → Option ChainChoice
  if_total (total sum) next = next sum
  if_total (stops choice) next = some choice

  -- One round, and what follows on its sums. Its first test is `<=` where the second is `<`.
  abbrev pub round :
      ℕ
      → List Block
      → List Block
      → (sum1 sum2 : w.Weight) → (w.Weight → w.Weight → Option ChainChoice)
      → Option ChainChoice
  round i chain1 chain2 sum1 sum2 next =
      if_total (if leb i (length chain1) then add_block sum1 (get_elem? chain1 i) else total sum1)
        (λ sum1'.
          if_total
            (if ltb i (length chain2) then add_block sum2 (get_elem? chain2 i) else total sum2)
            (λ sum2'. next sum1' sum2'))

  abbrev pub max_length : List Block → List Block → ℕ
  max_length chain1 chain2 =
      if ltb (length chain1) (length chain2) then length chain2 else length chain1

  -- The loop, for a number of rounds: no round changes i. `none`: the rounds ran out.
  unfoldable pub add_up : ℕ → ℕ → List Block → List Block → w.Weight → w.Weight → Option ChainChoice
  add_up zero i chain1 chain2 sum1 sum2 = none
  add_up (suc rounds) i chain1 chain2 sum1 sum2 =
      if ltb i (max_length chain1 chain2)
      then round i chain1 chain2 sum1 sum2
          (λ sum1' sum2'. add_up rounds i chain1 chain2 sum1' sum2')
      else some (heavier chain1 chain2 sum1 sum2)

  unfoldable pub chain_choice_after_ancestor : ℕ → List Block → List Block → Option ChainChoice
  chain_choice_after_ancestor rounds [] chain2 = some (chosen chain2)
  chain_choice_after_ancestor rounds (block1 ∷ chain1) [] = some (chosen (block1 ∷ chain1))
  chain_choice_after_ancestor rounds (block1 ∷ chain1) (block2 ∷ chain2) =
      add_up rounds 0 (block1 ∷ chain1) (block2 ∷ chain2) w.nothing w.nothing
