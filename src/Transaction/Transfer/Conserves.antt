-- ===== src/Transaction/Transfer/Conserves.antt =====
-- What a transfer (transaction/universal/transfer.go) leaves of each currency in the sender's and
-- the target's account.
use topia.Base.{
  ◌≡◌, ◌≢◌, refl, sym, ap, subst, ◌∙◌, false, none, some, List, [], ◌∷◌, String, if◌then◌else◌,
  arith, All, inl, inr, Bool-cases, Option-cases,
}
use topia.Base.Eq.{◌==◌, ==_iff, string_eq}
use topia.Base.Int.{ℤ, ◌+ℤ◌, ◌-ℤ◌, ltb_ℤ, int_laws}
use topia.Base.Map.{lookup, insert, lookup-insert}
use topia.Account.{Account, with_balances, balance_increase, balance_decrease}
use topia.Account.Balances.{balance, balance-increase}
use topia.Transaction.Transfer.{TargetItem, lacking, or_unchanged, move_items}

-- No symbol stands in two items.
abbrev pub NoRepeats : List TargetItem → Type 0
NoRepeats [] = Unit
NoRepeats (item ∷ items) =
    All (λ (other : TargetItem). item.symbol ≢ other.symbol) items × NoRepeats items

-- The account has the value of the item.
abbrev pub Covers : Account → TargetItem → Type 0
Covers from item =
    (held : ℤ) × (lookup item.symbol from.balances ≡ some held) × (ltb_ℤ held item.value ≡ false)

pub lacking-Covers :
    (from : Account) (items : List TargetItem) → lacking from items ≡ none → All (Covers from) items
unfolding lacking
lacking-Covers from [] e = tt
lacking-Covers from (item ∷ items) e = elim (Option-cases (lookup item.symbol from.balances)) [
  | inl absent ↦ ground arith
  | inr (held, found) ↦ elim (Bool-cases (ltb_ℤ held item.value)) [
    | inl short ↦ ground arith
    | inr enough ↦ ((held, found, enough), lacking-Covers from items (ground arith))
  ]
]

-- The sender's account after an item that it covers.
abbrev pub paid : Account → TargetItem → ℤ → Account
paid from item held = with_balances from (insert item.symbol (held -ℤ item.value) from.balances)

pub paid_lem :
    (from : Account) (item : TargetItem) (held : ℤ)
    → lookup item.symbol from.balances ≡ some held
    → ltb_ℤ held item.value ≡ false
    → or_unchanged from (balance_decrease from item.symbol item.value) ≡ paid from item held
unfolding balance_decrease
paid_lem from item held found enough = rw (found, enough) refl

pub balance-paid :
    (from : Account) (item : TargetItem) (held : ℤ) (s : String)
    → lookup item.symbol from.balances ≡ some held
    → balance (paid from item held) s
      ≡ (if item.symbol == s then balance from item.symbol -ℤ item.value else balance from s)
balance-paid from item held s found =
    ground (arith, lookup-insert item.symbol s (held -ℤ item.value) from.balances)

Covers-paid :
    (from : Account) (item : TargetItem) (held : ℤ) (items : List TargetItem)
    → All (λ (other : TargetItem). item.symbol ≢ other.symbol) items
    → All (Covers from) items
    → All (Covers (paid from item held)) items
Covers-paid from item held [] apart covers = tt
Covers-paid from item held (next ∷ items) apart ((h, found, enough), covers) = (
  (
    h,
    ground (
      arith,
      lookup-insert item.symbol next.symbol (held -ℤ item.value) from.balances,
      ==_iff item.symbol next.symbol,
      apart.0,
    ),
    enough,
  ),
  Covers-paid from item held items apart.1 covers,
)

-- The sum of the two balances.
abbrev pub both : Account → Account → String → ℤ
both target from s = balance target s +ℤ balance from s

swap_ℤ : (a b v : ℤ) → (a +ℤ v) +ℤ (b -ℤ v) ≡ a +ℤ b
swap_ℤ a b v = omega int_laws

both_step :
    (target from : Account) (item : TargetItem) (held : ℤ) (s : String)
    → lookup item.symbol from.balances ≡ some held
    → both (balance_increase target item.symbol item.value) (paid from item held) s
      ≡ both target from s
both_step target from item held s found =
    let inc = balance-increase target item.symbol s item.value in
    let dec = balance-paid from item held s found in
    elim (Bool-cases (item.symbol == s)) [
      | inl hit ↦
          let more : balance (balance_increase target item.symbol item.value) s
              ≡ balance target item.symbol +ℤ item.value =
            inc ∙ ground arith in
          let less : balance (paid from item held) s ≡ balance from item.symbol -ℤ item.value =
            dec ∙ ground arith in
          (λ k. more k +ℤ less k)
          ∙ swap_ℤ (balance target item.symbol) (balance from item.symbol) item.value
          ∙ ap (both target from) ((==_iff item.symbol s).0 hit)
      | inr miss ↦
          let more : balance (balance_increase target item.symbol item.value) s ≡ balance target s =
            inc ∙ ground arith in
          let less : balance (paid from item held) s ≡ balance from s = dec ∙ ground arith in
          λ k. more k +ℤ less k
    ]

pub move_items-both :
    (items : List TargetItem) (target from : Account) (s : String)
    → NoRepeats items
    → All (Covers from) items
    → both (move_items items target from).0 (move_items items target from).1 s ≡ both target from s
unfolding move_items
move_items-both [] target from s apart covers = refl
move_items-both (item ∷ items) target from s apart ((held, found, enough), covers) =
    let target' = balance_increase target item.symbol item.value in
    let step = paid_lem from item held found enough in
    subst
      (λ f.
        both (move_items items target' f).0 (move_items items target' f).1 s ≡ both target from s)
      (sym step)
      (move_items-both items target' (paid from item held) s apart.1
          (Covers-paid from item held items apart.0 covers)
        ∙ both_step target from item held s found)
