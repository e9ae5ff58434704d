-- ===== src/Transaction/Transfer/Tests.antt =====
-- Runs of the transfer (transaction/universal/transfer.go): three accounts, two currencies, a fee of 30.
use topia.Base.{ℕ, ◌≡◌, refl, sym, Option, none, some, [], ◌∷◌, String, if◌then◌else◌, arith, true}
use topia.Base.Eq.{◌==◌, ==_iff, string_eq}
use topia.Base.Int.{pos, negsuc, ◌+ℤ◌, ◌-ℤ◌, ◌≤ℤ◌}
use topia.Base.Map.{Map, lookup}
use topia.Account.{Account, new_default_account, with_balances, balance_decrease}
use topia.Account.Balances.{balance}
use topia.Transaction.Transfer.{
  safe_mul, compute_basic_gas, token_symbol_native, TargetItem, Transfer, GasConfiguration,
  transferred, Copies, currency_transfer,
}
use topia.Transaction.Transfer.Conserves.{both}
use topia.Transaction.Transfer.Carried.{currency_transfer-conserves}
use topia.Transaction.Transfer.Signs.{currency_transfer-negative}

abbrev config : GasConfiguration
config = record { min_gas_price = 1; min_gas_limit = 5; gas_each_byte = 1 }

abbrev sender : Account
sender = with_balances (new_default_account "sender") (("TPA", pos 100) ∷ ("USD", pos 7) ∷ [])

abbrev receiver : Account
receiver = with_balances (new_default_account "receiver") (("USD", pos 9) ∷ [])

abbrev accounts : String → Option Account
accounts addr =
    if addr == "sender" then some sender else if addr == "receiver" then some receiver else none

abbrev two_items : Transfer
two_items = record {
  from_addr = "sender";
  fee_payer = "sender";
  target_addr = "receiver";
  gas_price = 2;
  targets =
      record { symbol = "TPA"; value = pos 40 } ∷ record { symbol = "USD"; value = pos 7 } ∷ [];
}

abbrev negative : Transfer
negative = record two_items { targets = record { symbol = "USD"; value = negsuc 3 } ∷ [] }

abbrev copies : Copies
copies = record {
  from_acc = with_balances (new_default_account "sender") (("TPA", pos 60) ∷ ("USD", pos 0) ∷ []);
  target_acc =
      with_balances (new_default_account "receiver") (("USD", pos 16) ∷ ("TPA", pos 40) ∷ []);
  fee_payer_acc =
      with_balances (new_default_account "sender") (("TPA", pos 70) ∷ ("USD", pos 7) ∷ []);
}

transfers : currency_transfer config accounts 10 two_items ≡ transferred 15 copies
unfolding currency_transfer topia.Base.Map.lookup topia.Transaction.Transfer.lacking
    topia.Transaction.Transfer.move_items topia.Base.Map.insert balance_decrease
    topia.Account.balance_increase ◌-ℤ◌ ◌+ℤ◌
transfers = refl

currency_transfer-conserves_example :
    ((s : String) → both copies.target_acc copies.from_acc s ≡ both receiver sender s)
    × (balance copies.fee_payer_acc token_symbol_native
          +ℤ safe_mul (compute_basic_gas config 10) two_items.gas_price
        ≡ balance sender token_symbol_native)
    × (pos 0 ≤ℤ balance copies.fee_payer_acc token_symbol_native)
currency_transfer-conserves_example =
    currency_transfer-conserves config accounts 10 two_items 15 copies sender receiver sender
      (((λ e. ground (arith, (==_iff {K = String} "TPA" "USD").1 e)), tt), (tt, tt)) refl refl refl
      transfers

found : lookup "USD" sender.balances ≡ some (pos 7)
unfolding lookup
found = refl

fee_found : lookup token_symbol_native sender.balances ≡ some (pos 100)
unfolding lookup
fee_found = refl

currency_transfer-negative_example :
    (copies : Copies) × (currency_transfer config accounts 10 negative
      ≡ transferred (compute_basic_gas config 10) copies)
    × (balance copies.target_acc "USD" +ℤ pos 4 ≡ balance receiver "USD")
    × (balance copies.from_acc "USD" ≡ balance sender "USD" +ℤ pos 4)
currency_transfer-negative_example =
    currency_transfer-negative config accounts 10 negative sender receiver sender "USD" 3 (pos 7)
      (pos 100) refl refl refl refl found (ground arith) fee_found refl
