-- ===== src/Ledger/MemDb/Quiet.antt =====
-- The calls on a writer: they leave the saved versions alone, and the count of open writers stays right.
use topia.Base.{◌+◌, ◌<◌, ◌≡◌, refl, String, true, Option, arith}
use topia.Base.Eq.{nat_eq}
use topia.Base.Map.{is_some}
use topia.Ledger.MemDb.{
  MemDb, Txn, Tree, DbError, new_mem_db, read_writer, save, after_save, delete_version, drop_later,
  revert, revert_to, remove, discard, commit,
}
use topia.Ledger.MemDb
use topia.Ledger.MemDb.Consistent.{IsConsistent}
use topia.Ledger.MemDb.World.{open_one}

-- A call on a writer that does not touch the saved versions and counts its writer.
pub record IsQuiet (db : MemDb) (tx : Txn) (r : MemDb × Txn) : Type 0 where
  pub same_saved : r.0.saved ≡ db.saved
  pub same_vmgr : r.0.vmgr ≡ db.vmgr
  pub alive : is_some r.0.btree ≡ true
  pub count : r.0.open_writers + open_one tx ≡ db.open_writers + open_one r.1

pub Quiet-IsConsistent :
    (db : MemDb) (tx : Txn) (r : MemDb × Txn) → IsConsistent db → IsQuiet db tx r → IsConsistent r.0
Quiet-IsConsistent db tx r c q = record {
  limits = rw q.same_vmgr c.limits;
  distinct = rw q.same_saved c.distinct;
  agree = λ v. rw (q.same_vmgr, q.same_saved) (c.agree v);
  alive = q.alive;
  kept = rw q.same_saved c.kept;
}

pub set-IsQuiet :
    (db : MemDb) (tx : Txn) (k : String) (v : Option String)
    → IsConsistent db
    → IsQuiet db tx (db, (MemDb.set tx k v).0)
unfolding MemDb.set
set-IsQuiet db tx k v c = record {
  same_saved = refl;
  same_vmgr = refl;
  alive = c.alive;
  count = ground arith;
}

pub remove-IsQuiet :
    (db : MemDb) (tx : Txn) (k : String) → IsConsistent db → IsQuiet db tx (db, (remove tx k).0)
unfolding remove
remove-IsQuiet db tx k c = record {
  same_saved = refl;
  same_vmgr = refl;
  alive = c.alive;
  count = ground arith;
}

pub discard-IsQuiet :
    (db : MemDb) (tx : Txn)
    → IsConsistent db
    → open_one tx < db.open_writers + 1
    → IsQuiet db tx (discard db tx)
unfolding discard
discard-IsQuiet db tx c counted = record {
  same_saved = ground arith;
  same_vmgr = ground arith;
  alive = ground (arith, c.alive);
  count = ground arith;
}

pub commit-IsQuiet :
    (db : MemDb) (tx : Txn)
    → IsConsistent db
    → open_one tx < db.open_writers + 1
    → IsQuiet db tx ((commit db tx).0, (commit db tx).1)
unfolding commit discard
commit-IsQuiet db tx c counted = record {
  same_saved = ground arith;
  same_vmgr = ground arith;
  alive = ground (arith, c.alive);
  count = ground arith;
}
