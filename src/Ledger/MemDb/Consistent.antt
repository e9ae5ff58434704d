-- ===== src/Ledger/MemDb/Consistent.antt =====
-- What the database in memory keeps true of itself, and what saving, deleting a version and reverting
-- do with it.
use topia.Base.{
  ℕ, ◌+◌, ◌<◌, ◌≤◌, ◌≡◌, ◌≢◌, refl, ◌⊎◌, inl, inr, true, [], Option, none, some, arith,
  if◌then◌else◌, Bool-cases, ltb, ◌=?◌,
}
use topia.Base.Eq.{nat_eq, ==_iff}
use topia.Base.Map.{
  lookup, is_some, Distinct, lookup-insert, lookup-delete, Distinct-insert, Distinct-delete,
}
use topia.Base.Words.{u64_mod}
use topia.Ledger.Version
use topia.Ledger.Version.{
  VersionManager, SaveError, target_below_next, copy_manager, new_version_manager, exists,
}
use topia.Ledger.Version.Limits.{IsLimited, new_version_manager-IsLimited}
use topia.Ledger.Version.Saves.{Saved, refused, saved, save-Saved, chosen_version}
use topia.Ledger.Version.Deletes.{delete_version-IsLimited}
use topia.Ledger.Version.Same.{copy_manager-IsLimited, copy_manager-exists}
use topia.Ledger.MemDb.{
  MemDb, Tree, DbError, open_transactions, version_does_not_exist, save_error, new_mem_db, save,
  after_save, delete_version,
}

-- What the database keeps true of itself.
pub record IsConsistent (db : MemDb) : Type 0 where
  pub limits : IsLimited db.vmgr
  pub distinct : Distinct db.saved
  pub agree : (v : ℕ) → is_some (lookup v db.saved) ≡ exists db.vmgr v
  pub alive : is_some db.btree ≡ true
  pub kept : (v : ℕ) (t : Option Tree) → lookup v db.saved ≡ some t → is_some t ≡ true

pub new-IsConsistent : IsConsistent new_mem_db
unfolding new_mem_db new_version_manager exists lookup Version.note_versions
new-IsConsistent = record {
  limits = new_version_manager-IsLimited [] tt;
  distinct = tt;
  agree = λ v. refl;
  alive = refl;
  kept = λ v t h. ground arith;
}

-- What `save` returns: the error of open writers, the refusal of a target that is not above the last
-- version, or the database with the tree of now under the version chosen.
pub data SnapshotOf (db : MemDb) (target : ℕ) : DbError ⊎ (ℕ × MemDb) → Type 0 where
  busy : 0 < db.open_writers → SnapshotOf db target (inl open_transactions)
  too_low :
      0 < target
      → target ≤ db.vmgr.last
      → SnapshotOf db target (inl (save_error (target_below_next target (db.vmgr.last + 1))))
  snapshot :
      (db' : MemDb)
      → (0 ≡ db.open_writers)
      → db.vmgr.last < chosen_version db.vmgr target
      → IsConsistent db'
      → lookup (chosen_version db.vmgr target) db'.saved ≡ some db.btree
      → ((v : ℕ) → v ≢ chosen_version db.vmgr target → lookup v db'.saved ≡ lookup v db.saved)
      → (db'.btree ≡ db.btree) × (db'.open_writers ≡ db.open_writers)
      → SnapshotOf db target (inr (chosen_version db.vmgr target, db'))

snapshot_of :
    (db : MemDb) (target : ℕ) (r : SaveError ⊎ (ℕ × VersionManager))
    → IsConsistent db
    → 0 ≡ db.open_writers
    → Saved (copy_manager db.vmgr) target r
    → SnapshotOf db target (after_save db r)
unfolding copy_manager
snapshot_of db target r c idle (refused p q) = too_low p q
snapshot_of db target r c idle (saved vm' above l e others) =
    let v = chosen_version db.vmgr target in
    snapshot _ idle above
      (record {
        limits = l;
        distinct = Distinct-insert v db.btree db.saved c.distinct;
        agree = λ w. ground (
          arith,
          others w,
          lookup-insert v w db.btree db.saved,
          c.agree w,
          copy_manager-exists db.vmgr w c.limits,
          ==_iff v w,
        );
        alive = c.alive;
        kept = λ w t h.
            ground (arith, lookup-insert v w db.btree db.saved, c.kept w t, ==_iff v w, c.alive);
      })
      (ground (arith, lookup-insert v v db.btree db.saved, ==_iff v v))
      (λ w other. ground (arith, lookup-insert v w db.btree db.saved, ==_iff v w)) (refl, refl)

-- `save` of a consistent database on every branch, while the last version is below 2 ^ 64 - 1.
pub save-SnapshotOf :
    (db : MemDb) (target : ℕ)
    → IsConsistent db
    → db.vmgr.last + 1 < u64_mod
    → SnapshotOf db target (save db target)
unfolding save copy_manager
save-SnapshotOf db target c small = elim (Bool-cases (ltb 0 db.open_writers)) [
  | inl writing ↦ rw writing (busy (ground arith))
  | inr idle ↦ rw idle (
      snapshot_of db target _ c (ground arith)
        (save-Saved (copy_manager db.vmgr) target (copy_manager-IsLimited db.vmgr c.limits) small))
]

-- What `DeleteVersion` returns: an error for a version that is not saved, or the database without it.
pub data RemovedFrom (db : MemDb) (target : ℕ) : DbError ⊎ MemDb → Type 0 where
  unknown_version :
      lookup target db.saved ≡ none → RemovedFrom db target (inl version_does_not_exist)
  removed :
      (db' : MemDb)
      → IsConsistent db'
      → ((v : ℕ) → lookup v db'.saved ≡ (if target =? v then none else lookup v db.saved))
      → (db'.btree ≡ db.btree) × (db'.open_writers ≡ db.open_writers)
      → RemovedFrom db target (inr db')

-- `DeleteVersion` of a consistent database on both branches.
pub delete_version-RemovedFrom :
    (db : MemDb) (target : ℕ) → IsConsistent db → RemovedFrom db target (delete_version db target)
unfolding delete_version
delete_version-RemovedFrom db target c =
    let without = λ (v : ℕ). lookup-delete target v db.saved c.distinct in
    let (l, gone) =
      delete_version-IsLimited (copy_manager db.vmgr) target
        (copy_manager-IsLimited db.vmgr c.limits) in
    elim (Bool-cases (is_some (lookup target db.saved))) [
      | inl here ↦ rw here (
          removed _
            (record {
              limits = l;
              distinct = Distinct-delete target db.saved c.distinct;
              agree = λ v.
                  ground
                    (arith, without v, gone v, c.agree v, copy_manager-exists db.vmgr v c.limits);
              alive = c.alive;
              kept = λ v t h. ground (arith, without v, c.kept v t);
            })
            without (refl, refl))
      | inr missing ↦ rw missing (unknown_version (ground arith))
    ]
