-- ===== src/Ledger/MemDb/Reach.antt =====
-- What holds in every state of the database in memory, over all sequences of calls.
use topia.Base.{ℕ, ◌+◌, ◌<◌, ◌≡◌, ◌≢◌, refl, ◌∙◌, subst, ◌⊎◌, inl, inr, some}
use topia.Base.Eq.{nat_eq}
use topia.Base.Map.{lookup}
use topia.Base.Words.{u64_mod}
use topia.Ledger.MemDb.{MemDb, DbError, new_mem_db, reader_at, save, revert}
use topia.Ledger.MemDb.Reverts.{RevertedTo, revert-RevertedTo}
use topia.Ledger.MemDb.Consistent.{
  IsConsistent, new-IsConsistent, SnapshotOf, busy, too_low, snapshot, save-SnapshotOf,
}
use topia.Ledger.MemDb.World.{World, Call, removes, step, Inv, new_world}
use topia.Ledger.MemDb.Stable.{step-Keeps}

-- The states of a database and its writers, while the last version is below 2 ^ 64 - 1.
pub data Reach : World → Type 0 where
  start : Reach new_world
  next : {w : World} → Reach w → (c : Call) → w.db.vmgr.last + 1 < u64_mod → Reach (step w c)

new-Inv : Inv new_world
unfolding new_world new_mem_db
new-Inv = record { consistent = new-IsConsistent; counted = refl }

-- In every state that is reached by opening writers, writing, committing, discarding, saving, deleting
-- versions and reverting, in any order, while the last version is below 2 ^ 64 - 1: the saved trees are
-- those of the version manager's versions, the manager's limits are right, no tree is nil, and the count
-- of open writers is the number of writers that are neither committed nor discarded.
pub Reach-Inv : {w : World} → Reach w → Inv w
Reach-Inv start = new-Inv
Reach-Inv (next {w} r c small) = (step-Keeps w c (Reach-Inv r) small).inv

-- Any calls from one state to another without deleting the version.
pub data Without (v : ℕ) : World → World → Type 0 where
  here : {w : World} → Without v w w
  after :
      {w w' : World}
      → Without v w w'
      → (c : Call) → c ≢ removes v
      → w'.db.vmgr.last + 1 < u64_mod
      → Without v w (step w' c)

Without-stable :
    {v : ℕ} {w w' : World} (t : _)
    → Without v w w'
    → Inv w
    → lookup v w.db.saved ≡ some t
    → Inv w' × (lookup v w'.db.saved ≡ some t)
Without-stable t here inv e = (inv, e)
Without-stable {v} t (after {w} {w'} path c other small) inv e =
    let (inv', e') = Without-stable t path inv e in
    let k = step-Keeps w' c inv' small in (k.inv, k.stable v t other e')

-- What a saved database has to do with the one before.
abbrev AfterSave : MemDb → DbError ⊎ (ℕ × MemDb) → Type 0
AfterSave db (inl e) = Unit
AfterSave db (inr (v, db')) =
    IsConsistent db' × (lookup v db'.saved ≡ some db.btree) × (db'.open_writers ≡ db.open_writers)

Snapshot-AfterSave :
    (db : MemDb) (target : ℕ) (r : DbError ⊎ (ℕ × MemDb)) → SnapshotOf db target r → AfterSave db r
Snapshot-AfterSave db target r (busy p) = tt
Snapshot-AfterSave db target r (too_low p q) = tt
Snapshot-AfterSave db target r (snapshot db' idle above c there others same) = (c, there, same.1)

-- What `save` wrote can be read again: from a state that is reached, a version that was saved reads as
-- the tree of the moment it was saved, whatever is written, committed, saved, deleted or reverted
-- afterwards, until the version itself is deleted.
pub save-reader_at :
    {w w' : World} (target v : ℕ) (db : MemDb)
    → Reach w
    → w.db.vmgr.last + 1 < u64_mod
    → save w.db target ≡ inr (v, db)
    → Without v (record w { db = db }) w'
    → reader_at w'.db v ≡ inr (record { btree = w.db.btree })
unfolding reader_at
save-reader_at {w} {w'} target v db r small e path =
    let inv = Reach-Inv r in
    let (c, there, count) : AfterSave w.db (inr (v, db)) =
      subst (AfterSave w.db) e
        (Snapshot-AfterSave w.db target _ (save-SnapshotOf w.db target inv.consistent small)) in
    let (inv', kept) =
      Without-stable w.db.btree path (record { consistent = c; counted = count ∙ inv.counted })
        there in
    rw (kept, reader_at) refl

-- In every state that is reached, `Revert` with no open writer succeeds: the contents become the tree of
-- the last version, or the empty tree if there is no version, and all else stays.
pub Reach-RevertedTo : {w : World} → Reach w → RevertedTo w.db (revert w.db)
Reach-RevertedTo {w} r = revert-RevertedTo w.db (Reach-Inv r).consistent

-- In every state that is reached, while the last version is below 2 ^ 64 - 1, `save` is refused only for
-- open writers or for a target that is not 0 and not above the last version; else it puts the contents
-- under the target, or for 0 under the version after the last one, and changes no other version.
pub Reach-SnapshotOf :
    {w : World} (target : ℕ)
    → Reach w
    → w.db.vmgr.last + 1 < u64_mod
    → SnapshotOf w.db target (save w.db target)
Reach-SnapshotOf {w} target r small = save-SnapshotOf w.db target (Reach-Inv r).consistent small
