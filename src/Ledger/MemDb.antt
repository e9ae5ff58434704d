-- ===== src/Ledger/MemDb.antt =====
-- ledger/backend/memdb/backend.go: a database in memory. The B-tree is an association list: its clones
-- are copy-on-write and no open tree is changed in place but a writer's own clone, so a tree is a value.
-- A nil tree, which also says that a transaction is closed, is `none`, and so is a nil value. The lock
-- makes each call one step; the number of open writers stays far below the bound of int32.
pub mod Edits
pub mod Consistent
pub mod Reverts
pub mod World
pub mod Quiet
pub mod Stable
pub mod Reach
mod Tests
use topia.Base.{
  ℕ, ◌+◌, ◌-◌, String, Bool, List, [], ◌∷◌, Option, none, some, ◌⊎◌, inl, inr, ◌=?◌, ltb,
  if◌then◌else◌, length,
}
use topia.Base.Eq.{◌==◌, nat_eq, string_eq}
use topia.Base.Map.{Map, lookup, insert, delete, is_some}
use topia.Ledger.Version
use topia.Ledger.Version.{VersionManager, SaveError, new_version_manager, copy_manager}

abbrev pub Tree : Type 0
Tree = Map String String

pub data DbError : Type 0 where
  transaction_closed key_empty value_nil version_does_not_exist open_transactions : DbError
  invalid_version : DbError
  save_error : SaveError → DbError
  bad_version_history : ℕ → DbError

pub record MemDb : Type 0 where
  pub btree : Option Tree
  pub saved : Map ℕ (Option Tree)
  pub vmgr : VersionManager
  pub open_writers : ℕ

-- `dbTxn`, and `dbWriter` around it.
pub record Txn : Type 0 where
  pub btree : Option Tree

unfoldable pub new_mem_db : MemDb
new_mem_db = record { btree = some []; saved = []; vmgr = new_version_manager []; open_writers = 0 }

unfoldable pub reader : MemDb → Txn
reader db = record { btree = db.btree }

unfoldable pub reader_at : MemDb → ℕ → DbError ⊎ Txn
reader_at db version = elim (lookup version db.saved) [
  | none ↦ inl version_does_not_exist
  | some tree ↦ inr (record { btree = tree })
]

-- `none` is the panic of cloning a nil tree.
unfoldable pub read_writer : MemDb → Option (MemDb × Txn)
read_writer db = elim db.btree [
  | none ↦ none
  | some tree ↦
      some (record db { open_writers = db.open_writers + 1 }, record { btree = some tree })
]

abbrev pub after_save : MemDb → SaveError ⊎ (ℕ × VersionManager) → DbError ⊎ (ℕ × MemDb)
after_save db (inl e) = inl (save_error e)
after_save db (inr (target, vmgr)) =
    inr (target, record db { saved = insert target db.btree db.saved; vmgr = vmgr })

unfoldable pub save : MemDb → ℕ → DbError ⊎ (ℕ × MemDb)
save db target =
    if ltb 0 db.open_writers
    then inl open_transactions
    else after_save db (Version.save (copy_manager db.vmgr) target)

unfoldable pub save_next_version : MemDb → DbError ⊎ (ℕ × MemDb)
save_next_version db = save db 0

unfoldable pub save_version : MemDb → ℕ → DbError ⊎ (ℕ × MemDb)
save_version db target = if target =? 0 then inl invalid_version else save db target

unfoldable pub delete_version : MemDb → ℕ → DbError ⊎ MemDb
delete_version db target =
    if is_some (lookup target db.saved)
    then inr (record db {
      saved = delete target db.saved;
      vmgr = Version.delete_version (copy_manager db.vmgr) target;
    })
    else inl version_does_not_exist

-- for ver := range m.saved { if ver > last { delete(m.saved, ver) } }
unfoldable pub drop_later : ℕ → Map ℕ (Option Tree) → Map ℕ (Option Tree)
drop_later last [] = []
drop_later last ((ver, tree) ∷ rest) =
    let kept = drop_later last rest in if ltb last ver then kept else (ver, tree) ∷ kept

abbrev pub revert_to : MemDb → ℕ → Option (Option Tree) → MemDb × Option DbError
revert_to db last none = (record db { btree = none }, some (bad_version_history last))
revert_to db last (some tree) = (record db { btree = tree; saved = drop_later last db.saved }, none)

unfoldable pub revert : MemDb → MemDb × Option DbError
revert db =
    let last = db.vmgr.last in
    if ltb 0 db.open_writers
    then (db, some open_transactions)
    else (if last =? 0
        then (record db { btree = some [] }, none)
        else revert_to db last (lookup last db.saved))

unfoldable pub get : Txn → String → DbError ⊎ Option String
get tx key = elim tx.btree [
  | none ↦ inl transaction_closed
  | some tree ↦ if key == "" then inl key_empty else inr (lookup key tree)
]

pub has : Txn → String → DbError ⊎ Bool
has tx key = elim tx.btree [
  | none ↦ inl transaction_closed
  | some tree ↦ if key == "" then inl key_empty else inr (is_some (lookup key tree))
]

abbrev pub set_checked : Tree → String → Option String → Tree × Option DbError
set_checked tree key none = if key == "" then (tree, some key_empty) else (tree, some value_nil)
set_checked tree key (some value) =
    if key == "" then (tree, some key_empty) else (insert key value tree, none)

unfoldable pub set : Txn → String → Option String → Txn × Option DbError
set tx key value = elim tx.btree [
  | none ↦ (tx, some transaction_closed)
  | some tree ↦ let r = set_checked tree key value in (record { btree = some r.0 }, r.1)
]

unfoldable pub remove : Txn → String → Txn × Option DbError
remove tx key = elim tx.btree [
  | none ↦ (tx, some transaction_closed)
  | some tree ↦
      if key == "" then (tx, some key_empty) else (record { btree = some (delete key tree) }, none)
]

-- `Discard` of a writer; a reader's leaves the count of writers alone.
unfoldable pub discard : MemDb → Txn → MemDb × Txn
discard db tx = elim tx.btree [
  | none ↦ (db, tx)
  | some tree ↦ (record db { open_writers = db.open_writers - 1 }, record { btree = none })
]

unfoldable pub discard_reader : Txn → Txn
discard_reader tx = record { btree = none }

unfoldable pub commit : MemDb → Txn → MemDb × Txn × Option DbError
unfolding discard
commit db tx = elim tx.btree [
  | none ↦ (db, tx, some transaction_closed)
  | some tree ↦ let r = discard (record db { btree = some tree }) tx in (r.0, r.1, none)
]
