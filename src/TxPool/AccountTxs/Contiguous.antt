-- ===== src/TxPool/AccountTxs/Contiguous.antt =====
-- What `AddTx` sends: the account's transactions in the order of their nonces, without a gap.
use topia.Base.{
  ℕ, zero, suc, ◌+◌, ◌<◌, ◌≡◌, ◌∙◌, refl, subst, inl, inr, List, [], ◌∷◌, Option, none, some, arith,
  length, ◌=?◌, ltb, if◌then◌else◌, Bool-cases, Option-cases,
}
use topia.Base.Eq.{nat_eq, ◌==◌}
use topia.Base.Map.{
  lookup, insert, is_some, or_else, lookup-insert, lookup-delete, Distinct-insert, length-delete,
}
use topia.Base.Words.{u64_mod, add_u64}
use topia.TxPool.Wrapper.{TxWrapperUni}
use topia.TxPool.AccountTxs.{AccountTxManager, Added, AddError, drain, accept, refuse, add_tx}
use topia.TxPool.AccountTxs.Invariant.{Inv, Draining, move, move-Draining}

-- The wrappers have the nonces `i`, `i + 1`, and so on.
abbrev pub Consecutive : ℕ → List TxWrapperUni → Type 0
Consecutive i [] = Unit
Consecutive i (w ∷ ws) = (w.nonce ≡ i) × Consecutive (suc i) ws

-- The wrapper that the manager holds under a nonce, pending or waiting.
abbrev pub held : AccountTxManager → ℕ → Option TxWrapperUni
held a n = or_else (lookup n a.pending_txs) (lookup n a.gap_txs)

pub record Drained (a a' : AccountTxManager) (sent : List TxWrapperUni) : Type 0 where
  pub inv : Inv a'
  pub consecutive : Consecutive (suc a.max_cont_nonce) sent
  pub grown : a'.max_cont_nonce ≡ a.max_cont_nonce + length sent
  pub kept : (n : ℕ) → held a' n ≡ held a n

-- The loop ends here if the next nonce does not wait.
Drained-here :
    (a : AccountTxManager)
    → Draining a
    → lookup (add_u64 a.max_cont_nonce 1) a.gap_txs ≡ none
    → Drained a a []
Drained-here a d e = record {
  inv = record {
    gap_distinct = d.gap_distinct;
    pending_distinct = d.pending_distinct;
    pending_range = d.pending_range;
    gap_range = λ n w q. ground (arith, d.gap_range n w q, d.max_range);
    max_range = d.max_range;
  };
  consecutive = tt;
  grown = omega arith;
  kept = λ n. refl;
}

-- A nonce that waits is not pending too.
not_pending :
    (a : AccountTxManager) (i : ℕ) (w : TxWrapperUni)
    → Draining a
    → lookup i a.gap_txs ≡ some w
    → lookup i a.pending_txs ≡ none
not_pending a i w d e = elim (Option-cases (lookup i a.pending_txs)) [
  | inl free ↦ free
  | inr (x, p) ↦
      let low = d.pending_range i x p in let high = d.gap_range i w e in absurd (omega arith)
]

held-move :
    (a : AccountTxManager) (i : ℕ) (w : TxWrapperUni) (n : ℕ)
    → Draining a
    → lookup i a.gap_txs ≡ some w
    → held (move a i w) n ≡ held a n
held-move a i w n d e = ground (
  arith,
  lookup-insert i n w a.pending_txs,
  lookup-delete i n a.gap_txs d.gap_distinct,
  not_pending a i w d e,
)

-- With as much fuel as entries wait, and one round more, the loop stops by its own test.
drain_lem :
    (fuel : ℕ) (a : AccountTxManager) (i : ℕ)
    → Draining a
    → i ≡ add_u64 a.max_cont_nonce 1
    → length a.gap_txs < fuel
    → Drained a (drain fuel a i).0 (drain fuel a i).1
unfolding drain
drain_lem zero a i d next h = elim h [ ]
drain_lem (suc fuel) a i d next h = elim (Option-cases (lookup i a.gap_txs)) [
  | inl e ↦ rw (e, drain) (Drained-here a d (rw (← next) e))
  | inr (w, e) ↦
      let range = d.gap_range i w e in
      let up : i ≡ a.max_cont_nonce + 1 = omega arith in
      let rest =
        drain_lem fuel (move a i w) (add_u64 i 1) (move-Draining a i w d up e) refl
          (ground (arith, length-delete i a.gap_txs)) in
      rw (e, drain)
        (record {
          inv = rest.inv;
          consecutive = (
            omega arith,
            subst (λ (k : ℕ). Consecutive (suc k) (drain fuel (move a i w) (add_u64 i 1)).1)
                (omega arith) rest.consecutive,
          );
          grown = omega (arith, rest.grown);
          kept = λ n. rest.kept n ∙ held-move a i w n d e;
        })
]

-- The manager that the accepting branch hands to the loop.
abbrev accepted : AccountTxManager → TxWrapperUni → AccountTxManager
accepted a w = record a { pending_txs = insert w.nonce w a.pending_txs; max_cont_nonce = w.nonce }

accepted-Draining :
    (a : AccountTxManager) (w : TxWrapperUni)
    → Inv a
    → w.nonce ≡ a.max_cont_nonce + 1
    → w.nonce + 1 < u64_mod
    → Draining (accepted a w)
accepted-Draining a w v next small = record {
  gap_distinct = v.gap_distinct;
  pending_distinct = Distinct-insert w.nonce w a.pending_txs v.pending_distinct;
  pending_range =
      λ n x e. ground (arith, lookup-insert w.nonce n w a.pending_txs, v.pending_range n x);
  gap_range = λ n x e. ground (arith, v.gap_range n x e);
  max_range = small;
}

-- What one call of `AddTx` does, on every branch.
pub record Adds (a : AccountTxManager) (w : TxWrapperUni) (r : Added) : Type 0 where
  pub inv : Inv r.mng
  pub consecutive : Consecutive (suc a.max_cont_nonce) r.sent
  pub grown : r.mng.max_cont_nonce ≡ a.max_cont_nonce + length r.sent
  pub kept :
      (n : ℕ)
      → held r.mng n
        ≡ (if is_some r.error then held a n else (if w.nonce == n then some w else held a n))

refuse-Adds :
    (a : AccountTxManager) (w : TxWrapperUni) (e : AddError) → Inv a → Adds a w (refuse a e)
unfolding refuse
refuse-Adds a w e v = record { inv = v; consecutive = tt; grown = omega arith; kept = λ n. refl }

accept-Adds :
    (a : AccountTxManager) (w : TxWrapperUni)
    → Inv a
    → w.nonce ≡ a.max_cont_nonce + 1
    → w.nonce + 1 < u64_mod
    → Adds a w (accept a w)
unfolding accept
accept-Adds a w v next small =
    let out = (drain (suc (length a.gap_txs)) (accepted a w) (add_u64 w.nonce 1)).1 in
    let d =
      drain_lem (suc (length a.gap_txs)) (accepted a w) (add_u64 w.nonce 1)
        (accepted-Draining a w v next small) refl (omega arith) in
    let next' : w.nonce ≡ suc a.max_cont_nonce = omega arith in
    record {
      inv = d.inv;
      consecutive = (next', subst (λ (k : ℕ). Consecutive (suc k) out) next' d.consecutive);
      grown = omega (arith, d.grown);
      kept = λ n. d.kept n ∙ ground (arith, lookup-insert w.nonce n w a.pending_txs);
    }

gap-Adds :
    (a : AccountTxManager) (w : TxWrapperUni)
    → Inv a
    → lookup w.nonce a.pending_txs ≡ none
    → a.max_cont_nonce + 1 < w.nonce
    → w.nonce + 1 < u64_mod
    → Adds a w (record {
      mng = record a { gap_txs = insert w.nonce w a.gap_txs };
      sent = [];
      error = none;
    })
gap-Adds a w v free high small = record {
  inv = record {
    gap_distinct = Distinct-insert w.nonce w a.gap_txs v.gap_distinct;
    pending_distinct = v.pending_distinct;
    pending_range = v.pending_range;
    gap_range = λ n x e. ground (arith, lookup-insert w.nonce n w a.gap_txs, v.gap_range n x);
    max_range = v.max_range;
  };
  consecutive = tt;
  grown = omega arith;
  kept = λ n. ground (arith, lookup-insert w.nonce n w a.gap_txs);
}

-- One call of `AddTx`, with a nonce below 2 ^ 64 - 1, on every branch: the invariant is kept; what is
-- sent has the nonces after the greatest sent one, in order and without a gap; the greatest nonce
-- grows by their number; and under each nonce the manager holds what it held, but the new
-- transaction under its own nonce if there was no error.
pub add_tx-Adds :
    (a : AccountTxManager) (w : TxWrapperUni)
    → Inv a
    → w.nonce + 1 < u64_mod
    → Adds a w (add_tx a w)
unfolding add_tx
add_tx-Adds a w v small = elim (Option-cases (lookup w.nonce a.pending_txs)) [
  | inr (x, e) ↦ rw e (refuse-Adds a w _ v)
  | inl free ↦ elim (Option-cases (lookup w.nonce a.gap_txs)) [
    | inr (x, e) ↦ rw (free, e) (refuse-Adds a w _ v)
    | inl free' ↦ elim (Bool-cases (w.nonce =? add_u64 a.max_cont_nonce 1)) [
      | inl next ↦ rw (free, free', next) (accept-Adds a w v (ground (arith, v.max_range)) small)
      | inr other ↦ elim (Bool-cases (ltb (add_u64 a.max_cont_nonce 1) w.nonce)) [
        | inl high ↦
            rw (free, free', other, high) (gap-Adds a w v free (ground (arith, v.max_range)) small)
        | inr low ↦ rw (free, free', other, low) (refuse-Adds a w _ v)
      ]
    ]
  ]
]
