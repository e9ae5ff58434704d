-- ===== src/Ledger/MemDb/Reverts.antt =====
-- What `Revert` of the database in memory does.
use topia.Base.{
  ℕ, ◌<◌, ◌≤◌, ◌≡◌, refl, sym, ◌∙◌, ap, inl, inr, true, false, [], ◌∷◌, Option, none, some, arith,
  Bool-cases, Option-cases, ltb, ◌=?◌,
}
use topia.Base.Eq.{nat_eq, ==_iff}
use topia.Base.Map.{Map, lookup, is_some}
use topia.Ledger.Version.{exists}
use topia.Ledger.Version.Limits.{In, In-nonempty}
use topia.Ledger.MemDb.{MemDb, Tree, DbError, open_transactions, drop_later, revert}
use topia.Ledger.MemDb.Consistent.{IsConsistent}

pub data RevertedTo (db : MemDb) : MemDb × Option DbError → Type 0 where
  still_writing : 0 < db.open_writers → RevertedTo db (db, some open_transactions)
  to_empty :
      ((v : ℕ) → lookup v db.saved ≡ none) → RevertedTo db (record db { btree = some [] }, none)
  to_last :
      (t : Tree)
      → lookup db.vmgr.last db.saved ≡ some (some t)
      → RevertedTo db (record db { btree = some t }, none)

drop_later_none :
    (last : ℕ) (m : Map ℕ (Option Tree))
    → ((v : ℕ) → is_some (lookup v m) ≡ true → v ≤ last)
    → drop_later last m ≡ m
unfolding drop_later lookup
drop_later_none last [] h = refl
drop_later_none last ((v, t) ∷ m) h =
    let low = h v (ground (arith, ==_iff v v)) in
    let rest = drop_later_none last m (λ w i. h w (ground (arith, ==_iff v w))) in
    ground (arith, ap (◌∷◌ (v, t)) rest)

-- The tree that a consistent database has under its last version.
last_tree :
    (db : MemDb)
    → IsConsistent db
    → In db.vmgr.last db.vmgr.versions
    → (t : Tree) × (lookup db.vmgr.last db.saved ≡ some (some t))
unfolding exists
last_tree db c j = elim (Option-cases (lookup db.vmgr.last db.saved)) [
  | inl missing ↦ ground (arith, c.agree db.vmgr.last)
  | inr (o, e) ↦ elim (Option-cases o) [
    | inl dead ↦ ground (arith, c.kept db.vmgr.last o e)
    | inr (t, f) ↦ (t, e ∙ ap (λ p. some p) f)
  ]
]

-- `Revert` of a consistent database on every branch: it goes back to the tree of the last version, or to
-- the empty one if there is no version, and no saved version is dropped. The error of a bad version
-- history never comes.
pub revert-RevertedTo : (db : MemDb) → IsConsistent db → RevertedTo db (revert db)
unfolding revert exists
revert-RevertedTo db c = elim (Bool-cases (ltb 0 db.open_writers)) [
  | inl writing ↦ rw writing (still_writing (ground arith))
  | inr idle ↦ elim c.limits.attained [
    | inl empty ↦
        let fresh : (db.vmgr.last =? 0) ≡ true = ground (arith, empty) in
        rw (idle, fresh)
          (to_empty (λ v. ground (arith, c.agree v, In-nonempty v db.vmgr.versions, empty)))
    | inr (i, j) ↦
        let (t, e) = last_tree db c j in
        let some_version : (db.vmgr.last =? 0) ≡ false =
          ground (arith, c.limits.bounds db.vmgr.last j) in
        let whole =
          drop_later_none db.vmgr.last db.saved
            (λ v h. (c.limits.bounds v (sym (c.agree v) ∙ h)).2) in
        rw (idle, some_version, e, whole) (to_last t e)
  ]
]

pub revert-IsConsistent : (db : MemDb) → IsConsistent db → IsConsistent (revert db).0
revert-IsConsistent db c = go (revert db) c (revert-RevertedTo db c)
  where
    go : (r : MemDb × Option DbError) → IsConsistent db → RevertedTo db r → IsConsistent r.0
    go r k (still_writing p) = k
    go r k (to_empty e) = record {
      limits = k.limits;
      distinct = k.distinct;
      agree = k.agree;
      alive = refl;
      kept = k.kept;
    }
    go r k (to_last t e) = record {
      limits = k.limits;
      distinct = k.distinct;
      agree = k.agree;
      alive = refl;
      kept = k.kept;
    }
