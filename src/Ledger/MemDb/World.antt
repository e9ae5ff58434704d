-- ===== src/Ledger/MemDb/World.antt =====
-- The database in memory with all the writers ever opened on it: every call as a step, and the invariant
-- that ties the version manager, the saved trees and the count of open writers together.
use topia.Base.{
  ℕ, zero, suc, ◌+◌, ◌<◌, ◌≡◌, ap, ◌⊎◌, inl, inr, String, List, [], ◌∷◌, Option, none, some, arith,
  get_elem?, set, if◌then◌else◌,
}
use topia.Base.Eq.{nat_eq}
use topia.Base.Map.{is_some}
use topia.Ledger.MemDb.{
  MemDb, Txn, Tree, DbError, new_mem_db, read_writer, save, after_save, delete_version, drop_later,
  revert, revert_to, remove, discard, commit,
}
use topia.Ledger.MemDb
use topia.Ledger.MemDb.Consistent.{IsConsistent}

pub record World : Type 0 where
  pub db : MemDb
  pub writers : List Txn

-- The calls that change the database or a writer; a writer is named by its place in the list.
pub data Call : Type 0 where
  opens : Call
  sets : ℕ → String → Option String → Call
  deletes : ℕ → String → Call
  commits discards : ℕ → Call
  saves removes : ℕ → Call
  reverts : Call

abbrev pub opened : World → Option (MemDb × Txn) → World
opened w none = w
opened w (some r) = record { db = r.0; writers = r.1 ∷ w.writers }

abbrev pub with_writer : World → ℕ → (Txn → MemDb × Txn) → Option Txn → World
with_writer w i f none = w
with_writer w i f (some tx) = let r = f tx in record { db = r.0; writers = set w.writers i r.1 }

abbrev pub saved_world : World → DbError ⊎ (ℕ × MemDb) → World
saved_world w (inl e) = w
saved_world w (inr r) = record w { db = r.1 }

abbrev pub removed_world : World → DbError ⊎ MemDb → World
removed_world w (inl e) = w
removed_world w (inr db) = record w { db = db }

-- A call that fails leaves the world as it is, but `Revert` to a version that is not saved.
unfoldable pub step : World → Call → World
step w opens = opened w (read_writer w.db)
step w (sets i key value) =
    with_writer w i (λ tx. (w.db, (MemDb.set tx key value).0)) (get_elem? w.writers i)
step w (deletes i key) = with_writer w i (λ tx. (w.db, (remove tx key).0)) (get_elem? w.writers i)
step w (commits i) =
    with_writer w i (λ tx. ((commit w.db tx).0, (commit w.db tx).1)) (get_elem? w.writers i)
step w (discards i) = with_writer w i (discard w.db) (get_elem? w.writers i)
step w (saves target) = saved_world w (save w.db target)
step w (removes target) = removed_world w (delete_version w.db target)
step w reverts = record w { db = (revert w.db).0 }

abbrev pub open_one : Txn → ℕ
open_one tx = if is_some tx.btree then 1 else 0

abbrev pub count_open : List Txn → ℕ
count_open [] = 0
count_open (tx ∷ txs) = open_one tx + count_open txs

pub count_open-set :
    (txs : List Txn) (i : ℕ) (tx tx' : Txn)
    → get_elem? txs i ≡ some tx
    → count_open (set txs i tx') + open_one tx ≡ count_open txs + open_one tx'
count_open-set [] i tx tx' h = ground arith
count_open-set (x ∷ txs) zero tx tx' h =
    let same : x ≡ tx = ground arith in ground (arith, ap open_one same)
count_open-set (x ∷ txs) (suc i) tx tx' h = ground (arith, count_open-set txs i tx tx' h)

pub count_open_here :
    (txs : List Txn) (i : ℕ) (tx : Txn)
    → get_elem? txs i ≡ some tx
    → open_one tx < count_open txs + 1
count_open_here [] i tx h = ground arith
count_open_here (x ∷ txs) zero tx h =
    let same : x ≡ tx = ground arith in ground (arith, ap open_one same)
count_open_here (x ∷ txs) (suc i) tx h = ground (arith, count_open_here txs i tx h)

pub record Inv (w : World) : Type 0 where
  pub consistent : IsConsistent w.db
  pub counted : w.db.open_writers ≡ count_open w.writers

unfoldable pub new_world : World
new_world = record { db = new_mem_db; writers = [] }
