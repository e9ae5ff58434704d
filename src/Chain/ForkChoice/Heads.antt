-- ===== src/Chain/ForkChoice/Heads.antt =====
-- The choice between two heads (chain/fork_choice.go, BlockHeadChoice).
use topia.Base.{ℕ, ◌≤◌, ◌<◌, ◌≡◌, refl, some, ltb, arith, inl, inr, ◌⊎◌, Bool-cases}
use topia.Chain.{BlockHead}
use topia.Chain.ForkChoice.{set_bytes, block_head_choice}

abbrev pub priority : BlockHead → ℕ
priority bh = set_bytes 0 bh.max_pri

-- The choice between two heads never is an error, whatever their heights: it is one of the two, with
-- the greater priority, and the first if the priorities are the same.
block_head_choice-greatest :
    (bh1 bh2 : BlockHead)
    → (bh : BlockHead) × (block_head_choice bh1 bh2 ≡ some bh)
      × (priority bh1 ≤ priority bh)
      × (priority bh2 ≤ priority bh)
      × (((bh ≡ bh1) × (priority bh2 ≤ priority bh1))
          ⊎ ((bh ≡ bh2) × (priority bh1 < priority bh2)))
unfolding block_head_choice
block_head_choice-greatest bh1 bh2 = elim (Bool-cases (ltb (priority bh1) (priority bh2))) [
  | inl second ↦ (bh2, ground arith, ground arith, ground arith, inr (refl, ground arith))
  | inr first ↦ (bh1, ground arith, ground arith, ground arith, inl (refl, ground arith))
]
