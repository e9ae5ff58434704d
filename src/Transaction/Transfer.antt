-- ===== src/Transaction/Transfer.antt =====
-- The transfer of currency (transaction/universal/transfer.go and gas.go). The accounts are those
-- that the servant reads from the state, a copy of its own for each call.
pub mod Conserves
pub mod Carried
pub mod Signs
mod Tests
use topia.Base.{
  ℕ, zero, suc, ◌+◌, ◌*◌, ◌%◌, Bool, true, false, Option, none, some, List, [], ◌∷◌, String,
  if◌then◌else◌,
}
use topia.Base.Eq.{◌==◌, string_eq}
use topia.Base.Words.{u64_mod}
use topia.Base.Int.{ℤ, pos, ◌-ℤ◌, ltb_ℤ}
use topia.Base.Map.{Map, lookup, insert}
use topia.Account.{Account, with_balances, balance_increase, balance_decrease}

abbrev pub token_symbol_native : String
token_symbol_native = "TPA"

pub record TargetItem : Type 0 where
  pub symbol : String
  pub value : ℤ

pub record Transfer : Type 0 where
  pub from_addr : String
  pub fee_payer : String
  pub target_addr : String
  pub gas_price : ℕ
  pub targets : List TargetItem

-- What the code reads of it.
pub record GasConfiguration : Type 0 where
  pub min_gas_price : ℕ
  pub min_gas_limit : ℕ
  pub gas_each_byte : ℕ

-- In uint64.
abbrev pub compute_basic_gas : GasConfiguration → ℕ → ℕ
compute_basic_gas config data_len =
    (config.min_gas_limit + data_len * config.gas_each_byte % u64_mod) % u64_mod

-- A product of two uint64 that does not wrap around.
abbrev pub safe_mul : ℕ → ℕ → ℤ
safe_mul a b = pos (a * b)

pub data TransferError : Type 0 where
  unknown_account : String → TransferError
  insufficient_fee : TransferError
  insufficient_currency : String → TransferError

-- The copies of the accounts as the transfer leaves them.
pub record Copies : Type 0 where
  pub from_acc : Account
  pub target_acc : Account
  pub fee_payer_acc : Account

pub data TransferResult : Type 0 where
  transferred : ℕ → Copies → TransferResult
  refused : ℕ → TransferError → TransferResult
  panicked : TransferResult

-- A symbol that is missing, or that the sender has less of than an item asks for.
unfoldable pub lacking : Account → List TargetItem → Option String
lacking from [] = none
lacking from (item ∷ items) =
    let rest = lacking from items in
    elim (lookup item.symbol from.balances) [
      | none ↦ some item.symbol
      | some held ↦ if ltb_ℤ held item.value then some item.symbol else rest
    ]

-- The error of BalanceDecrease is not looked at.
abbrev pub or_unchanged : Account → Option Account → Account
or_unchanged a none = a
or_unchanged a (some a') = a'

-- The loop over the items: the target's account and the sender's.
unfoldable pub move_items : List TargetItem → Account → Account → Account × Account
move_items [] target from = (target, from)
move_items (item ∷ items) target from =
    move_items items (balance_increase target item.symbol item.value)
      (or_unchanged from (balance_decrease from item.symbol item.value))

abbrev pub pay_fee : Account → ℤ → ℤ → Account
pay_fee payer held fee =
    with_balances payer (insert token_symbol_native (held -ℤ fee) payer.balances)

abbrev pub moved : ℕ → List TargetItem → (from target payer : Account) → TransferResult
moved gas items from target payer =
    let (target', from') = move_items items target from in
    transferred gas (record { from_acc = from'; target_acc = target'; fee_payer_acc = payer })

-- Without a native balance the fee payer's is nil.
abbrev pub transfer_between : Transfer → ℕ → (from target payer : Account) → TransferResult
transfer_between t gas from target payer =
    let fee = safe_mul gas t.gas_price in
    elim (lookup token_symbol_native payer.balances) [
      | none ↦ panicked
      | some held ↦
          if ltb_ℤ held fee then refused gas insufficient_fee else elim (lacking from t.targets) [
            | some symbol ↦ refused gas (insufficient_currency symbol)
            | none ↦ moved gas t.targets from target (pay_fee payer held fee)
          ]
    ]

unfoldable pub currency_transfer :
    GasConfiguration → (String → Option Account) → ℕ → Transfer → TransferResult
currency_transfer config get_account data_len t =
    let gas = compute_basic_gas config data_len in
    elim (get_account t.from_addr) [
      | none ↦ refused gas (unknown_account t.from_addr)
      | some from ↦ elim (get_account t.target_addr) [
        | none ↦ refused gas (unknown_account t.target_addr)
        | some target ↦ elim (get_account t.fee_payer) [
          | none ↦ refused gas (unknown_account t.fee_payer)
          | some payer ↦ transfer_between t gas from target payer
        ]
      ]
    ]
