-- ===== src/Transaction/Transfer/Carried.antt =====
-- Transfers that were carried out (transaction/universal/transfer.go): what they read, and what they
-- leave of each currency.
use topia.Base.{
  ℕ, ◌≡◌, sym, ap, subst, ◌∙◌, false, Option, none, some, List, String, arith, inl, inr, Bool-cases,
  Option-cases,
}
use topia.Base.Eq.{string_eq}
use topia.Base.Int.{ℤ, pos, ◌+ℤ◌, ◌-ℤ◌, ltb_ℤ, ◌≤ℤ◌, -ℤ_parts, int_laws}
use topia.Base.Map.{lookup, lookup-insert}
use topia.Account.{Account, or_nothing}
use topia.Account.Balances.{balance}
use topia.Transaction.Transfer.{
  compute_basic_gas, token_symbol_native, safe_mul, pay_fee, TargetItem, Transfer, GasConfiguration,
  transferred, Copies, lacking, move_items, moved, currency_transfer,
}
use topia.Transaction.Transfer.Conserves.{NoRepeats, both, lacking-Covers, move_items-both}

-- A transfer that was carried out, and the accounts that it read.
pub record CarriedOut (config : GasConfiguration) (get_account : String → Option Account) (len : ℕ)
    (t : Transfer) (gas : ℕ) (copies : Copies) : Type 0 where
  pub from_read : Account
  pub target_read : Account
  pub payer_read : Account
  pub from_found : get_account t.from_addr ≡ some from_read
  pub target_found : get_account t.target_addr ≡ some target_read
  pub payer_found : get_account t.fee_payer ≡ some payer_read
  pub held : ℤ
  pub fee_held : lookup token_symbol_native payer_read.balances ≡ some held
  pub fee_covered : ltb_ℤ held (safe_mul (compute_basic_gas config len) t.gas_price) ≡ false
  pub nothing_lacking : lacking from_read t.targets ≡ none
  pub result :
      moved
        (compute_basic_gas config len)
        t.targets
        from_read
        target_read
        (pay_fee payer_read held (safe_mul (compute_basic_gas config len) t.gas_price))
      ≡ transferred gas copies

pub carried_out :
    (config : GasConfiguration) (get_account : String → Option Account) (len : ℕ) (t : Transfer)
    (gas : ℕ) (copies : Copies)
    → currency_transfer config get_account len t ≡ transferred gas copies
    → CarriedOut config get_account len t gas copies
unfolding currency_transfer
carried_out config get_account len t gas copies e = elim (Option-cases (get_account t.from_addr)) [
  | inl absent ↦ absurd (ground arith)
  | inr (from, from_found) ↦ elim (Option-cases (get_account t.target_addr)) [
    | inl absent ↦ absurd (ground arith)
    | inr (target, target_found) ↦ elim (Option-cases (get_account t.fee_payer)) [
      | inl absent ↦ absurd (ground arith)
      | inr (payer, payer_found) ↦ elim (Option-cases (lookup token_symbol_native payer.balances)) [
        | inl absent ↦ absurd (ground arith)
        | inr (held, fee_held) ↦
            elim (Bool-cases (ltb_ℤ held (safe_mul (compute_basic_gas config len) t.gas_price))) [
              | inl short ↦ absurd (ground arith)
              | inr covered ↦ elim (Option-cases (lacking from t.targets)) [
                | inr (symbol, short) ↦ absurd (ground arith)
                | inl enough ↦ record {
                  from_read = from;
                  target_read = target;
                  payer_read = payer;
                  from_found = from_found;
                  target_found = target_found;
                  payer_found = payer_found;
                  held = held;
                  fee_held = fee_held;
                  fee_covered = covered;
                  nothing_lacking = enough;
                  result = ground arith;
                }
              ]
            ]
      ]
    ]
  ]
]

moved_copies :
    (gas used : ℕ) (items : List TargetItem) (from target payer : Account) (copies : Copies)
    → moved gas items from target payer ≡ transferred used copies
    → (copies.target_acc ≡ (move_items items target from).0)
      × (copies.from_acc ≡ (move_items items target from).1)
      × (copies.fee_payer_acc ≡ payer)
moved_copies gas used items from target payer copies e = ground arith

-- What the fee payer's copy has after the fee, and that it was there.
fee_paid :
    (payer : Account) (held : ℤ) (fee : ℤ)
    → lookup token_symbol_native payer.balances ≡ some held
    → ltb_ℤ held fee ≡ false
    → (balance (pay_fee payer held fee) token_symbol_native +ℤ fee
        ≡ balance payer token_symbol_native)
      × (pos 0 ≤ℤ balance (pay_fee payer held fee) token_symbol_native)
fee_paid payer held fee found covered =
    let paid : lookup token_symbol_native (pay_fee payer held fee).balances ≡ some (held -ℤ fee) =
      ground (
        arith,
        lookup-insert token_symbol_native token_symbol_native (held -ℤ fee) payer.balances,
      ) in
    (
      subst (λ (x : Option ℤ). or_nothing x +ℤ fee ≡ balance payer token_symbol_native) (sym paid)
          (subst (λ (x : Option ℤ). (held -ℤ fee) +ℤ fee ≡ or_nothing x) (sym found)
            (omega int_laws)),
      subst (λ (x : Option ℤ). pos 0 ≤ℤ or_nothing x) (sym paid)
          (ground (arith, -ℤ_parts held fee)),
    )

some_inj : {A : Type 0} → (a b : A) → some a ≡ some b → a ≡ b
some_inj a b e = ground (arith)

module _ (config : GasConfiguration) (get_account : String → Option Account) (len : ℕ)
    (t : Transfer) where
  -- A transfer that is carried out, with no symbol in two items: of every symbol the sender and the
  -- target together have in their copies what they had, and the fee payer's copy has the fee less,
  -- which was there.
  pub currency_transfer-conserves :
      (gas : ℕ) (copies : Copies) (from target payer : Account)
      → NoRepeats t.targets
      → get_account t.from_addr ≡ some from
      → get_account t.target_addr ≡ some target
      → get_account t.fee_payer ≡ some payer
      → currency_transfer config get_account len t ≡ transferred gas copies
      → ((s : String) → both copies.target_acc copies.from_acc s ≡ both target from s)
        × (balance copies.fee_payer_acc token_symbol_native
              +ℤ safe_mul (compute_basic_gas config len) t.gas_price
            ≡ balance payer token_symbol_native)
        × (pos 0 ≤ℤ balance copies.fee_payer_acc token_symbol_native)
  currency_transfer-conserves gas copies from target payer apart from_at target_at payer_at e =
      let c = carried_out config get_account len t gas copies e in
      let (target_copy, from_copy, payer_copy) =
        moved_copies (compute_basic_gas config len) gas t.targets c.from_read c.target_read
          (pay_fee c.payer_read c.held (safe_mul (compute_basic_gas config len) t.gas_price)) copies
          c.result in
      let same_from = some_inj c.from_read from (sym c.from_found ∙ from_at) in
      let same_target = some_inj c.target_read target (sym c.target_found ∙ target_at) in
      let same_payer = some_inj c.payer_read payer (sym c.payer_found ∙ payer_at) in
      let fee = safe_mul (compute_basic_gas config len) t.gas_price in
      let (exact, enough) = fee_paid c.payer_read c.held fee c.fee_held c.fee_covered in
      (
        λ s.
            (λ k. both (target_copy k) (from_copy k) s)
            ∙ move_items-both t.targets c.target_read c.from_read s apart
                (lacking-Covers c.from_read t.targets c.nothing_lacking)
            ∙ (λ k. both (same_target k) (same_from k) s),
        ap (λ (a : Account). balance a token_symbol_native +ℤ fee) payer_copy
            ∙ exact
            ∙ ap (λ (a : Account). balance a token_symbol_native) same_payer,
        subst (λ (a : Account). pos 0 ≤ℤ balance a token_symbol_native) (sym payer_copy) enough,
      )
