-- ===== src/Chain/ForkChoice/Walk.antt =====
-- The walk over two chains (chain/fork_choice.go, ChainChoiceAfterAncestor): it does not advance.
use topia.Base.{
  ℕ, zero, suc, ◌≡◌, refl, ap, ◌∙◌, true, Option, none, some, List, ◌∷◌, if◌then◌else◌, ltb, leb,
  length, arith,
}
use topia.Chain.{Block}
use topia.Chain.ForkChoice.{
  Weights, ChainChoice, total, add_ratio, add_block, max_length, if_total, heavier, round, add_up,
  chain_choice_after_ancestor,
}

module _ (w : Weights) where
  -- With a ratio for both first blocks, no number of rounds is enough.
  add_up-stuck :
      (rounds : ℕ) (block1 block2 : Block) (chain1 chain2 : List Block) (ratio1 ratio2 : w.Weight)
      (sum1 sum2 : w.Weight)
      → w.ratio block1 ≡ some ratio1
      → w.ratio block2 ≡ some ratio2
      → add_up w rounds 0 (block1 ∷ chain1) (block2 ∷ chain2) sum1 sum2 ≡ none
  unfolding add_up
  add_up-stuck zero block1 block2 chain1 chain2 ratio1 ratio2 sum1 sum2 e1 e2 = refl
  add_up-stuck (suc rounds) block1 block2 chain1 chain2 ratio1 ratio2 sum1 sum2 e1 e2 =
      let c1 = block1 ∷ chain1 in
      let c2 = block2 ∷ chain2 in
      let more : ltb 0 (max_length w c1 c2) ≡ true = ground arith in
      let in1 : leb 0 (length c1) ≡ true = ground arith in
      let in2 : ltb 0 (length c2) ≡ true = ground arith in
      let again : w.Weight → w.Weight → Option ChainChoice =
        λ s1 s2. add_up w rounds 0 c1 c2 s1 s2 in
      ap (λ b. if b then round w 0 c1 c2 sum1 sum2 again else some (heavier w c1 c2 sum1 sum2)) more
      ∙ (λ k. if_total w (if in1 k then add_block w sum1 (some block1) else total sum1) (λ s1.
          if_total w (if in2 k then add_block w sum2 (some block2) else total sum2) (again s1)))
      ∙ ap
          (λ o.
            if_total w (add_ratio w sum1 o)
              (λ s1. if_total w (add_block w sum2 (some block2)) (again s1)))
          e1
      ∙ ap (λ o. if_total w (add_ratio w sum2 o) (again (w.plus sum1 ratio1))) e2
      ∙ add_up-stuck rounds block1 block2 chain1 chain2 ratio1 ratio2 (w.plus sum1 ratio1)
          (w.plus sum2 ratio2) e1 e2

  -- The choice between two chains returns chains, and no error, only where one of them is empty: for
  -- two that are not, with a ratio for each of their first blocks, no number of rounds is enough.
  pub chain_choice_after_ancestor-stuck :
      (rounds : ℕ) (block1 block2 : Block) (chain1 chain2 : List Block) (ratio1 ratio2 : w.Weight)
      → w.ratio block1 ≡ some ratio1
      → w.ratio block2 ≡ some ratio2
      → chain_choice_after_ancestor w rounds (block1 ∷ chain1) (block2 ∷ chain2) ≡ none
  unfolding chain_choice_after_ancestor
  chain_choice_after_ancestor-stuck rounds block1 block2 chain1 chain2 ratio1 ratio2 e1 e2 =
      add_up-stuck rounds block1 block2 chain1 chain2 ratio1 ratio2 w.nothing w.nothing e1 e2
