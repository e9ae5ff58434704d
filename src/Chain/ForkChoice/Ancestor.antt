-- ===== src/Chain/ForkChoice/Ancestor.antt =====
-- The common ancestor of two chains (chain/fork_choice.go, FindAncestor).
use topia.Base.{
  ℕ, zero, suc, ◌-◌, ◌≡◌, refl, sym, ◌∙◌, true, false, Option, none, some, List, [], ◌∷◌, ltb, ◌=?◌,
  ◌||◌, length, get_elem?, arith, inl, inr, ◌⊎◌, Bool-cases,
}
use topia.Base.Eq.{◌==◌, ==_iff}
use topia.Base.Bytes.{Bytes, bytes_eq}
use topia.Chain.{Block}
use topia.Chain.ForkChoice.{same_hash, find_from, find_ancestor}

module _ (hash_bytes : Block → Bytes) where
  -- Each block but the first refers to the one before it.
  abbrev pub Chained : List Block → Type 0
  Chained chain =
      (i : ℕ) (block next : Block)
      → get_elem? chain i ≡ some block
      → get_elem? chain (suc i) ≡ some next
      → next.head.parent_block_hash ≡ some (hash_bytes block)

  -- Blocks with one hash refer to one parent.
  abbrev pub PinsParent : Type 0
  PinsParent =
      (block1 block2 : Block)
      → hash_bytes block1 ≡ hash_bytes block2
      → block1.head.parent_block_hash ≡ block2.head.parent_block_hash

  -- The walk stands at the end of the first chain, or behind two blocks of one hash.
  abbrev Met : List Block → List Block → ℕ → ℕ → Type 0
  Met chain1 chain2 i j =
      (i ≡ length chain1)
      ⊎ ((block1 : Block) × (block2 : Block) × (get_elem? chain1 i ≡ some block1)
          × (get_elem? chain2 j ≡ some block2)
          × (hash_bytes block1 ≡ hash_bytes block2))

  get_elem-before :
      (chain : List Block) (i : ℕ) (next : Block)
      → get_elem? chain (suc i) ≡ some next
      → (block : Block) × (get_elem? chain i ≡ some block)
  get_elem-before [] i next e = ground arith
  get_elem-before (block ∷ chain) zero next e = (block, refl)
  get_elem-before (block ∷ chain) (suc i) next e = get_elem-before chain i next e

  some_inj : (a b : Bytes) → some a ≡ some b → a ≡ b
  some_inj a b e = ground arith

  same_hash_lem :
      (o1 o2 : Option Block)
      → same_hash hash_bytes o1 o2 ≡ true
      → (block1 : Block) × (block2 : Block) × (o1 ≡ some block1)
        × (o2 ≡ some block2)
        × (hash_bytes block1 ≡ hash_bytes block2)
  same_hash_lem none o2 e = ground arith
  same_hash_lem (some block1) none e = ground arith
  same_hash_lem (some block1) (some block2) e =
      (block1, block2, refl, refl, (==_iff (hash_bytes block1) (hash_bytes block2)).0 e)

  module _ (chain1 chain2 : List Block) (pins : PinsParent) (chained1 : Chained chain1)
      (chained2 : Chained chain2) where
    find_from-none :
        (i j : ℕ) → Met chain1 chain2 i j → find_from hash_bytes chain1 chain2 i j ≡ none
    unfolding find_from
    find_from-none zero j met = refl
    find_from-none (suc i) zero met = refl
    find_from-none (suc i) (suc j) met =
        elim (Bool-cases (same_hash hash_bytes (get_elem? chain1 i) (get_elem? chain2 j))) [
          | inl same ↦ rw (same) (
              find_from-none i j
                (inr (same_hash_lem (get_elem? chain1 i) (get_elem? chain2 j) same)))
          | inr other ↦ elim met [
            | inl at_end ↦
                let last : ltb i (length chain1 - 1) ≡ false = ground arith in rw (other, last) refl
            | inr (next1, next2, at1, at2, same_next) ↦
                let (block1, before1) = get_elem-before chain1 i next1 at1 in
                let (block2, before2) = get_elem-before chain2 j next2 at2 in
                let parents =
                  sym (chained1 i block1 next1 before1 at1)
                  ∙ pins next1 next2 same_next
                  ∙ chained2 j block2 next2 before2 at2 in
                let differ : (hash_bytes block1 == hash_bytes block2) ≡ false =
                  (λ k. same_hash hash_bytes (sym before1 k) (sym before2 k)) ∙ other in
                absurd (
                  ground (
                    arith,
                    (==_iff (hash_bytes block1) (hash_bytes block2)).1 (some_inj _ _ parents),
                  ))
          ]
        ]

  -- On two chains, each of which is chained, no ancestor is ever found, where the hash of a block
  -- determines its parent: the walk back goes on while the hashes are the same, and where they differ
  -- the blocks behind cannot be the same, so it has not begun.
  pub find_ancestor-none :
      (chain1 chain2 : List Block)
      → PinsParent
      → Chained chain1
      → Chained chain2
      → find_ancestor hash_bytes chain1 chain2 ≡ none
  find_ancestor-none chain1 chain2 pins chained1 chained2 =
      elim (Bool-cases ((length chain1 =? 0) || (length chain2 =? 0))) [
        | inl empty ↦ rw (empty) refl
        | inr full ↦ rw (full) (
            find_from-none chain1 chain2 pins chained1 chained2 (length chain1) (length chain2)
              (inl refl))
      ]
