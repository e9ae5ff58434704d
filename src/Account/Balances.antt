-- ===== src/Account/Balances.antt =====
-- The balances of accounts (account/account.go) as a function of the symbol.
use topia.Base.{
  ◌≡◌, refl, sym, ap, ◌∙◌, false, some, String, if◌then◌else◌, arith, inl, inr, Bool-cases,
  Option-cases,
}
use topia.Base.Eq.{◌==◌, string_eq}
use topia.Base.Int.{ℤ, ◌+ℤ◌, ◌-ℤ◌, ltb_ℤ, ◌≤ℤ◌}
use topia.Base.Map.{lookup, insert, lookup-insert}
use topia.Account.{Account, or_nothing, with_balances, balance_increase, balance_decrease}

-- What the account has of a symbol, nothing for one that is not there.
abbrev pub balance : Account → String → ℤ
balance a symbol = or_nothing (lookup symbol a.balances)

pub balance-increase :
    (a : Account) (symbol other : String) (value : ℤ)
    → balance (balance_increase a symbol value) other
      ≡ (if symbol == other then balance a symbol +ℤ value else balance a other)
unfolding balance_increase
balance-increase a symbol other value =
    ground (arith, lookup-insert symbol other (balance a symbol +ℤ value) a.balances)

-- A decrease that succeeds found at least the value, and takes it off.
pub balance-decrease :
    (a a' : Account) (symbol : String) (value : ℤ)
    → balance_decrease a symbol value ≡ some a'
    → (value ≤ℤ balance a symbol)
      × ((other : String)
          → balance a' other
            ≡ (if symbol == other then balance a symbol -ℤ value else balance a other))
unfolding balance_decrease
balance-decrease a a' symbol value e = elim (Option-cases (lookup symbol a.balances)) [
  | inl absent ↦ ground arith
  | inr (held, found) ↦ elim (Bool-cases (ltb_ℤ held value)) [
    | inl short ↦ ground arith
    | inr enough ↦
        let after : with_balances a (insert symbol (held -ℤ value) a.balances) ≡ a' =
          ground arith in
        (
          ground arith,
          λ other.
              ap (λ (b : Account). balance b other) (sym after)
              ∙ ground (arith, lookup-insert symbol other (held -ℤ value) a.balances),
        )
  ]
]

-- Where the account has the value, the decrease succeeds.
pub balance_decrease-succeeds :
    (a : Account) (symbol : String) (value held : ℤ)
    → lookup symbol a.balances ≡ some held
    → ltb_ℤ held value ≡ false
    → (a' : Account) × (balance_decrease a symbol value ≡ some a')
unfolding balance_decrease
balance_decrease-succeeds a symbol value held found enough =
    (with_balances a (insert symbol (held -ℤ value) a.balances), rw (found, enough) refl)
