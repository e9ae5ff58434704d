-- ===== src/Ledger/MemDb/Stable.antt =====
-- Every call keeps the invariant of the database and its writers, and leaves each saved version as it is
-- until that version is deleted.
use topia.Base.{
  ℕ, ◌+◌, ◌<◌, ◌≡◌, ◌≢◌, refl, ◌∙◌, ap, ◌⊎◌, inl, inr, Option, some, arith, get_elem?, Bool-cases,
  Option-cases, ◌=?◌,
}
use topia.Base.Eq.{nat_eq}
use topia.Base.Map.{lookup}
use topia.Base.Words.{u64_mod}
use topia.Ledger.Version.{exists}
use topia.Ledger.MemDb.{MemDb, Txn, Tree, DbError, read_writer}
use topia.Ledger.MemDb.Consistent.{IsConsistent}
use topia.Ledger.MemDb.Consistent.{
  SnapshotOf, busy, too_low, snapshot, save-SnapshotOf, RemovedFrom, unknown_version, removed,
  delete_version-RemovedFrom,
}
use topia.Ledger.MemDb.Reverts.{
  revert-IsConsistent, revert-RevertedTo, RevertedTo, still_writing, to_empty, to_last,
}
use topia.Ledger.MemDb.Quiet.{
  IsQuiet, Quiet-IsConsistent, set-IsQuiet, remove-IsQuiet, discard-IsQuiet, commit-IsQuiet,
}
use topia.Ledger.MemDb.World.{
  World, Call, opens, sets, deletes, commits, discards, saves, removes, reverts, opened,
  with_writer, saved_world, removed_world, step, open_one, count_open-set, count_open_here, Inv,
}

-- The world after a call: the invariant, and every saved version but one that is deleted.
pub record Keeps (w : World) (c : Call) (w' : World) : Type 0 where
  pub inv : Inv w'
  pub stable :
      (v : ℕ) (t : Option Tree)
      → c ≢ removes v
      → lookup v w.db.saved ≡ some t
      → lookup v w'.db.saved ≡ some t

with_writer-Keeps :
    (w : World) (c : Call) (i : ℕ) (f : Txn → MemDb × Txn)
    → ((tx : Txn) → open_one tx < w.db.open_writers + 1 → IsQuiet w.db tx (f tx))
    → Inv w
    → Keeps w c (with_writer w i f (get_elem? w.writers i))
with_writer-Keeps w c i f quiet inv = elim (Option-cases (get_elem? w.writers i)) [
  | inl none_there ↦ rw none_there (record { inv = inv; stable = λ v t n e. e })
  | inr (tx, e) ↦
      let count = count_open-set w.writers i tx (f tx).1 e in
      let q = quiet tx (omega (arith, count, count_open_here w.writers i tx e, inv.counted)) in
      rw e (record {
        inv = record {
          consistent = Quiet-IsConsistent w.db tx (f tx) inv.consistent q;
          counted = omega (arith, q.count, count, inv.counted);
        };
        stable = λ v t n e'. rw q.same_saved e';
      })
]

opened-Keeps : (w : World) → Inv w → Keeps w opens (opened w (read_writer w.db))
unfolding read_writer
opened-Keeps w inv = elim (Option-cases w.db.btree) [
  | inl dead ↦ ground (arith, inv.consistent.alive)
  | inr (t, e) ↦
      let opening : read_writer w.db
          ≡ some (record w.db { open_writers = w.db.open_writers + 1 }, record { btree = some t }) =
        rw e refl in
      rw opening (record {
        inv = record {
          consistent = record {
            limits = inv.consistent.limits;
            distinct = inv.consistent.distinct;
            agree = inv.consistent.agree;
            alive = inv.consistent.alive;
            kept = inv.consistent.kept;
          };
          counted = omega (arith, inv.counted);
        };
        stable = λ v t n e'. e';
      })
]

saved-Keeps :
    (w : World) (target : ℕ) (r : DbError ⊎ (ℕ × MemDb))
    → Inv w
    → SnapshotOf w.db target r
    → Keeps w (saves target) (saved_world w r)
unfolding exists
saved-Keeps w target r inv (busy p) = record { inv = inv; stable = λ v t n e. e }
saved-Keeps w target r inv (too_low p q) = record { inv = inv; stable = λ v t n e. e }
saved-Keeps w target r inv (snapshot db' idle above c here others same) = record {
  inv = record { consistent = c; counted = same.1 ∙ inv.counted };
  stable = λ v t n e.
      others v (λ at. ground (arith, at, inv.consistent.agree v, inv.consistent.limits.bounds v))
      ∙ e;
}

removed-Keeps :
    (w : World) (target : ℕ) (r : DbError ⊎ MemDb)
    → Inv w
    → RemovedFrom w.db target r
    → Keeps w (removes target) (removed_world w r)
removed-Keeps w target r inv (unknown_version p) = record { inv = inv; stable = λ v t n e. e }
removed-Keeps w target r inv (removed db' c others same) = record {
  inv = record { consistent = c; counted = same.1 ∙ inv.counted };
  stable = λ v t n e. elim (Bool-cases (target =? v)) [
    | inl hit ↦ let at : target ≡ v = ground arith in ground (arith, n (ap removes at))
    | inr miss ↦ ground (arith, others v)
  ];
}

reverted-Keeps :
    (w : World) (r : MemDb × Option DbError)
    → Inv w
    → IsConsistent r.0
    → RevertedTo w.db r
    → Keeps w reverts (record w { db = r.0 })
reverted-Keeps w r inv c (still_writing p) = record { inv = inv; stable = λ v t n e. e }
reverted-Keeps w r inv c (to_empty e) = record {
  inv = record { consistent = c; counted = inv.counted };
  stable = λ v t n h. h;
}
reverted-Keeps w r inv c (to_last t e) = record {
  inv = record { consistent = c; counted = inv.counted };
  stable = λ v t n h. h;
}

pub step-Keeps :
    (w : World) (c : Call) → Inv w → w.db.vmgr.last + 1 < u64_mod → Keeps w c (step w c)
unfolding step
step-Keeps w opens inv small = opened-Keeps w inv
step-Keeps w (sets i k v) inv small =
    with_writer-Keeps w _ i _ (λ tx n. set-IsQuiet w.db tx k v inv.consistent) inv
step-Keeps w (deletes i k) inv small =
    with_writer-Keeps w _ i _ (λ tx n. remove-IsQuiet w.db tx k inv.consistent) inv
step-Keeps w (commits i) inv small =
    with_writer-Keeps w _ i _ (λ tx n. commit-IsQuiet w.db tx inv.consistent n) inv
step-Keeps w (discards i) inv small =
    with_writer-Keeps w _ i _ (λ tx n. discard-IsQuiet w.db tx inv.consistent n) inv
step-Keeps w (saves target) inv small =
    saved-Keeps w target _ inv (save-SnapshotOf w.db target inv.consistent small)
step-Keeps w (removes target) inv small =
    removed-Keeps w target _ inv (delete_version-RemovedFrom w.db target inv.consistent)
step-Keeps w reverts inv small =
    reverted-Keeps w _ inv (revert-IsConsistent w.db inv.consistent)
      (revert-RevertedTo w.db inv.consistent)
