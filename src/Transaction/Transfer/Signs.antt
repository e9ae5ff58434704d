-- ===== src/Transaction/Transfer/Signs.antt =====
-- The sign of what a transfer (transaction/universal/transfer.go) moves: no test asks for it.
use topia.Base.{
  ℕ, suc, ◌≡◌, refl, sym, ap, subst, ◌∙◌, false, Option, none, some, List, [], ◌∷◌, String, arith,
}
use topia.Base.Eq.{==_refl, string_eq}
use topia.Base.Int.{ℤ, pos, negsuc, ◌+ℤ◌, ltb_ℤ, ◌≤ℤ◌, ◌-ℤ◌, int_laws}
use topia.Base.Map.{lookup}
use topia.Account.{Account, balance_increase, balance_decrease}
use topia.Account.Balances.{balance, balance-increase}
use topia.Transaction.Transfer.{
  compute_basic_gas, token_symbol_native, safe_mul, pay_fee, TargetItem, Transfer, GasConfiguration,
  transferred, Copies, lacking, or_unchanged, move_items, moved, currency_transfer,
}
use topia.Transaction.Transfer.Conserves.{paid, paid_lem, balance-paid}

-- Accounts that the three reads find, with the fee there and nothing lacking: the transfer is carried out.
pub carries_out :
    (config : GasConfiguration) (get_account : String → Option Account) (len : ℕ) (t : Transfer)
    (from target payer : Account) (fee_held : ℤ)
    → get_account t.from_addr ≡ some from
    → get_account t.target_addr ≡ some target
    → get_account t.fee_payer ≡ some payer
    → lookup token_symbol_native payer.balances ≡ some fee_held
    → ltb_ℤ fee_held (safe_mul (compute_basic_gas config len) t.gas_price) ≡ false
    → lacking from t.targets ≡ none
    → currency_transfer config get_account len t
      ≡ moved
          (compute_basic_gas config len)
          t.targets
          from
          target
          (pay_fee payer fee_held (safe_mul (compute_basic_gas config len) t.gas_price))
unfolding currency_transfer
carries_out config get_account len t from target payer fee_held f g p h c l = ground (arith)

nothing_short :
    (from : Account) (symbol : String) (n : ℕ) (held : ℤ)
    → lookup symbol from.balances ≡ some held
    → pos 0 ≤ℤ held
    → lacking from (record { symbol = symbol; value = negsuc n } ∷ []) ≡ none
unfolding lacking
nothing_short from symbol n held found sign =
    let enough : ltb_ℤ held (negsuc n) ≡ false = ground arith in ground (arith)

raised : (a : ℤ) (n : ℕ) → (a +ℤ negsuc n) +ℤ pos (suc n) ≡ a
raised a n = omega int_laws

lowered : (a : ℤ) (n : ℕ) → a -ℤ negsuc n ≡ a +ℤ pos (suc n)
lowered a n = omega int_laws

module _ (config : GasConfiguration) (get_account : String → Option Account) (len : ℕ) where
  -- An item with a negative value is no obstacle: where the sender has an entry for the symbol that
  -- is not negative and the fee payer has the fee, the transfer is carried out, and takes the value
  -- from the target's copy and gives it to the sender's.
  pub currency_transfer-negative :
      (t : Transfer) (from target payer : Account) (symbol : String) (n : ℕ) (held fee_held : ℤ)
      → t.targets ≡ record { symbol = symbol; value = negsuc n } ∷ []
      → get_account t.from_addr ≡ some from
      → get_account t.target_addr ≡ some target
      → get_account t.fee_payer ≡ some payer
      → lookup symbol from.balances ≡ some held
      → pos 0 ≤ℤ held
      → lookup token_symbol_native payer.balances ≡ some fee_held
      → ltb_ℤ fee_held (safe_mul (compute_basic_gas config len) t.gas_price) ≡ false
      → (copies : Copies) × (currency_transfer config get_account len t
          ≡ transferred (compute_basic_gas config len) copies)
        × (balance copies.target_acc symbol +ℤ pos (suc n) ≡ balance target symbol)
        × (balance copies.from_acc symbol ≡ balance from symbol +ℤ pos (suc n))
  unfolding move_items
  currency_transfer-negative t from target payer symbol n held fee_held items from_at target_at
        payer_at found sign fee_found covered =
      let item : TargetItem = record { symbol = symbol; value = negsuc n } in
      let gas = compute_basic_gas config len in
      let fee = safe_mul gas t.gas_price in
      let nothing_lacking : lacking from t.targets ≡ none =
        subst (λ (l : List TargetItem). lacking from l ≡ none) (sym items)
          (nothing_short from symbol n held found sign) in
      let target' = balance_increase target symbol (negsuc n) in
      let from' = or_unchanged from (balance_decrease from symbol (negsuc n)) in
      let enough : ltb_ℤ held (negsuc n) ≡ false = ground arith in
      let gives : or_unchanged from (balance_decrease from symbol (negsuc n))
          ≡ paid from item held =
        paid_lem from item held found enough in
      let taken = balance-increase target symbol symbol (negsuc n) in
      let given = balance-paid from item held symbol found in
      let same = ==_refl symbol in
      (
        record {
          from_acc = from';
          target_acc = target';
          fee_payer_acc = pay_fee payer fee_held fee;
        },
        carries_out config get_account len t from target payer fee_held from_at target_at payer_at
              fee_found covered nothing_lacking
            ∙ ap (λ (l : List TargetItem). moved gas l from target (pay_fee payer fee_held fee))
                items,
        ap (λ (b : ℤ). b +ℤ pos (suc n)) (taken ∙ rw (same) refl)
            ∙ raised (balance target symbol) n,
        subst (λ (a : Account). balance a symbol ≡ balance from symbol +ℤ pos (suc n)) (sym gives)
            (given ∙ rw (same) (lowered (balance from symbol) n)),
      )
