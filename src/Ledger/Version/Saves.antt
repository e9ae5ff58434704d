-- ===== src/Ledger/Version/Saves.antt =====
-- What `Save` of the version manager does, on every branch.
use topia.Base.{
  ℕ, ◌+◌, ◌≤◌, ◌<◌, ◌≡◌, refl, ◌⊎◌, inl, inr, false, ◌||◌, ◌&&◌, arith, Bool-cases, ltb, ◌=?◌,
  length, if◌then◌else◌,
}
use topia.Base.Eq.{nat_eq}
use topia.Base.Map.{lookup, insert, is_some, lookup-insert, length-insert, Distinct-insert}
use topia.Base.Words.{u64_mod, add_u64}
use topia.Ledger.Version.{VersionManager, SaveError, target_below_next, exists, save}
use topia.Ledger.Version.Limits.{IsLimited, In-insert, In-insert_this, In-insert_old, In-nonempty}

-- The version that `Save` chooses.
abbrev pub chosen_version : VersionManager → ℕ → ℕ
chosen_version vm target = if target =? 0 then vm.last + 1 else target

pub data Saved (vm : VersionManager) (target : ℕ) : SaveError ⊎ (ℕ × VersionManager) → Type 0 where
  refused :
      0 < target → target ≤ vm.last → Saved vm target (inl (target_below_next target (vm.last + 1)))
  saved :
      (vm' : VersionManager)
      → vm.last < chosen_version vm target
      → IsLimited vm'
      → vm'.last ≡ chosen_version vm target
      → ((w : ℕ) → exists vm' w ≡ ((chosen_version vm target =? w) || exists vm w))
      → Saved vm target (inr (chosen_version vm target, vm'))

extended : VersionManager → ℕ → VersionManager
extended vm v = record {
  versions = insert v tt vm.versions;
  last = v;
  initial = if length (insert v tt vm.versions) =? 1 then v else vm.initial;
}

absent_above : (vm : VersionManager) (v : ℕ) → IsLimited vm → vm.last < v → exists vm v ≡ false
unfolding exists
absent_above vm v l h = elim (Bool-cases (is_some (lookup v vm.versions))) [
  | inl here ↦ ground (arith, l.bounds v here)
  | inr gone ↦ gone
]

extended-IsLimited :
    (vm : VersionManager) (v : ℕ) → IsLimited vm → vm.last < v → IsLimited (extended vm v)
unfolding extended exists
extended-IsLimited vm v l above =
    let grown = length-insert v tt vm.versions in
    let fresh = absent_above vm v l above in
    record {
      distinct = Distinct-insert v tt vm.versions l.distinct;
      bounds = λ w h. elim (In-insert v w vm.versions h) [
        | inl same ↦ elim l.attained [
          | inl empty ↦ ground (arith, empty, grown, fresh)
          | inr (i, j) ↦
              ground
                (arith, l.bounds vm.initial i, In-nonempty vm.initial vm.versions i, grown, fresh)
        ]
        | inr old ↦ ground (arith, l.bounds w old, In-nonempty w vm.versions old, grown, fresh)
      ];
      attained = inr (
        elim l.attained [
          | inl empty ↦ ground (arith, empty, grown, fresh, In-insert_this v vm.versions)
          | inr (i, j) ↦ ground (
            arith,
            In-nonempty vm.initial vm.versions i,
            grown,
            fresh,
            In-insert_old v vm.initial vm.versions i,
          )
        ],
        In-insert_this v vm.versions,
      );
    }

-- `Save` on every branch, while the last version is below 2 ^ 64 - 1: a target that is not 0 and not
-- above the last version is refused; every other call saves the target, or for 0 the version after the
-- last one, which is above all others, becomes the last one and is the only one added, with the limits
-- right again. `Save` never answers that the version exists.
pub save-Saved :
    (vm : VersionManager) (target : ℕ)
    → IsLimited vm
    → vm.last + 1 < u64_mod
    → Saved vm target (save vm target)
unfolding save exists extended
save-Saved vm target l small =
    let next : add_u64 vm.last 1 ≡ vm.last + 1 = omega arith in
    rw next (elim (Bool-cases (ltb 0 target && ltb target (vm.last + 1))) [
      | inl low ↦ rw low (refused (ground arith) (ground arith))
      | inr high ↦
          let above : vm.last < chosen_version vm target = ground arith in
          let absent = absent_above vm (chosen_version vm target) l above in
          rw (high, absent)
            (saved (extended vm (chosen_version vm target)) above
              (extended-IsLimited vm (chosen_version vm target) l above) refl
              (λ w. ground (arith, lookup-insert (chosen_version vm target) w tt vm.versions)))
    ])
