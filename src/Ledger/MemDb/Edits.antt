-- ===== src/Ledger/MemDb/Edits.antt =====
-- What a writer reads back of its own writes, and what its commit shows to later readers.
use topia.Base.{
  ◌≡◌, ◌≢◌, refl, ◌∙◌, ap, String, false, List, [], ◌∷◌, Option, none, some, inl, inr, arith,
  if◌then◌else◌, Bool-cases,
}
use topia.Base.Eq.{◌==◌, ==_iff, string_eq}
use topia.Base.Map.{
  lookup, insert, delete, Distinct, lookup-insert, lookup-delete, Distinct-insert, Distinct-delete,
}
use topia.Ledger.MemDb.{MemDb, Txn, Tree, reader, get, set, remove, commit, discard}

-- The writes that a writer takes; a nil value is `none`.
pub data Edit : Type 0 where
  sets : String → Option String → Edit
  deletes : String → Edit

unfoldable pub edit : Txn → Edit → Txn
edit tx (sets key value) = (set tx key value).0
edit tx (deletes key) = (remove tx key).0

unfoldable pub edit_all : Txn → List Edit → Txn
edit_all tx [] = tx
edit_all tx (e ∷ es) = edit_all (edit tx e) es

-- What the writes leave under a key: the empty key and nil values are refused.
abbrev pub recall_one : Edit → String → Option String → Option String
recall_one (sets j (some v)) key old = if j == key then some v else old
recall_one (sets j none) key old = old
recall_one (deletes j) key old = if j == key then none else old

unfoldable pub recall : List Edit → String → Option String → Option String
recall [] key old = old
recall (e ∷ es) key old = recall es key (recall_one e key old)

-- The open writer after a write.
edit_one :
    (t : Tree) (e : Edit) (key : String)
    → Distinct t
    → key ≢ ""
    → (t' : Tree) × (edit (record { btree = some t }) e ≡ record { btree = some t' })
      × Distinct t'
      × (lookup key t' ≡ recall_one e key (lookup key t))
unfolding edit set remove
edit_one t (sets j none) key d proper = (t, ground arith, d, refl)
edit_one t (sets j (some v)) key d proper = elim (Bool-cases (j == "")) [
  | inl empty ↦ (t, rw empty refl, d, ground (arith, ==_iff j "", ==_iff j key))
  | inr named ↦ (insert j v t, rw named refl, Distinct-insert j v t d, lookup-insert j key v t)
]
edit_one t (deletes j) key d proper = elim (Bool-cases (j == "")) [
  | inl empty ↦ (t, rw (edit, remove, empty) refl, d, ground (arith, ==_iff j "", ==_iff j key))
  | inr named ↦
      (delete j t, rw (edit, remove, named) refl, Distinct-delete j t d, lookup-delete j key t d)
]

pub edit_all_lem :
    (t : Tree) (es : List Edit) (key : String)
    → Distinct t
    → key ≢ ""
    → (t' : Tree) × (edit_all (record { btree = some t }) es ≡ record { btree = some t' })
      × (lookup key t' ≡ recall es key (lookup key t))
unfolding edit_all recall
edit_all_lem t [] key d proper = (t, refl, refl)
edit_all_lem t (e ∷ es) key d proper =
    let (t1, same, d1, one) = edit_one t e key d proper in
    let (t2, rest, more) = edit_all_lem t1 es key d1 proper in (t2, rw same rest, rw (← one) more)

get_open :
    (t : Tree) (key : String) → key ≢ "" → get (record { btree = some t }) key ≡ inr (lookup key t)
unfolding get
get_open t key proper =
    let named : (key == "") ≡ false = ground (arith, ==_iff key "") in rw (get, named) refl

-- A writer opened on a tree with one entry for each key: after any writes and deletions it reads under
-- every key that is not empty what the last of them left, and so does a reader that is opened after its commit,
-- which closes the writer.
commit-get :
    (db : MemDb) (t : Tree) (es : List Edit) (key : String)
    → Distinct t
    → key ≢ ""
    → let tx = edit_all (record { btree = some t }) es in
      (get tx key ≡ inr (recall es key (lookup key t)))
      × (get (reader (commit db tx).0) key ≡ inr (recall es key (lookup key t)))
      × ((commit db tx).1 ≡ record { btree = none })
unfolding commit discard reader
commit-get db t es key d proper =
    let (t', same, what) = edit_all_lem t es key d proper in
    let seen : get (record { btree = some t' }) key ≡ inr (recall es key (lookup key t)) =
      get_open t' key proper ∙ ap (λ o. inr o) what in
    rw same (seen, seen, refl)
