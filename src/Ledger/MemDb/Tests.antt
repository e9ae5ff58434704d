-- ===== src/Ledger/MemDb/Tests.antt =====
-- Runs of the database in memory, and its theorems at concrete states.
use topia.Base.{◌+◌, ◌<◌, ◌≡◌, refl, inr, List, [], ◌∷◌, none, some, arith}
use topia.Base.Eq.{nat_eq, string_eq}
use topia.Base.Map.{lookup, insert, merge}
use topia.Base.Words.{u64_mod}
use topia.Ledger.Version
use topia.Ledger.Version.{copy_manager, new_version_manager}
use topia.Ledger.MemDb
use topia.Ledger.MemDb.{
  MemDb, Txn, Tree, DbError, new_mem_db, reader, reader_at, read_writer, save, delete_version,
  revert, drop_later, get, commit, discard, remove,
}
use topia.Ledger.MemDb.Edits
use topia.Ledger.MemDb.Edits.{Edit, edit_all, recall}
use topia.Ledger.MemDb.Consistent.{SnapshotOf}
use topia.Ledger.MemDb.Reverts.{RevertedTo}
use topia.Ledger.MemDb.World.{World, opens, sets, commits, reverts, step, new_world, Inv}
use topia.Ledger.MemDb.Reach.{
  Reach, start, next, Reach-Inv, Without, here, after, save-reader_at, Reach-RevertedTo,
  Reach-SnapshotOf,
}

-- A writer sets a key and is committed.
abbrev opened_world : World
opened_world = step new_world opens

abbrev set_world : World
set_world = step opened_world (sets 0 "k" (some "v"))

abbrev committed : World
committed = step set_world (commits 0)

abbrev saved_db : MemDb
saved_db = record {
  btree = some (("k", "v") ∷ []);
  saved = (1, some (("k", "v") ∷ [])) ∷ [];
  vmgr = record { versions = (1, tt) ∷ []; initial = 1; last = 1 };
  open_writers = 0;
}

committed-Reach : Reach committed
unfolding new_world new_mem_db new_version_manager Version.note_versions step read_writer MemDb.set
    insert
committed-Reach =
    next (next (next start opens (omega arith)) (sets 0 "k" (some "v")) (omega arith)) (commits 0)
      (omega arith)

saves_it : save committed.db 0 ≡ inr (1, saved_db)
unfolding new_world new_mem_db new_version_manager Version.note_versions step read_writer MemDb.set
    insert commit discard save copy_manager merge Version.save Version.exists lookup
saves_it = refl

Reach-Inv_example : Inv committed
Reach-Inv_example = Reach-Inv committed-Reach

committed_small : committed.db.vmgr.last + 1 < u64_mod
unfolding new_world new_mem_db new_version_manager Version.note_versions step read_writer MemDb.set
    insert commit discard
committed_small = omega arith

-- After the save the database is reverted, and a writer is opened.
later :
    Without 1
      (record { db = saved_db; writers = committed.writers })
      (step (step (record { db = saved_db; writers = committed.writers }) reverts) opens)
unfolding step revert drop_later lookup
later =
    after (after here reverts (λ e. ground (arith, e)) (omega arith)) opens (λ e. ground (arith, e))
      (omega arith)

save-reader_at_example :
    reader_at
      (step (step (record { db = saved_db; writers = committed.writers }) reverts) opens).db
      1
    ≡ inr (record { btree = committed.db.btree })
save-reader_at_example = save-reader_at 0 1 saved_db committed-Reach committed_small saves_it later

Reach-RevertedTo_example : RevertedTo committed.db (revert committed.db)
Reach-RevertedTo_example = Reach-RevertedTo committed-Reach

Reach-SnapshotOf_example : SnapshotOf committed.db 0 (save committed.db 0)
Reach-SnapshotOf_example = Reach-SnapshotOf 0 committed-Reach committed_small

abbrev old_tree : Tree
old_tree = ("a", "1") ∷ ("b", "2") ∷ []

abbrev writes : List Edit
writes =
    Edits.sets "a" (some "3")
    ∷ Edits.deletes "b"
    ∷ Edits.sets "" (some "4")
    ∷ Edits.sets "a" none
    ∷ []
