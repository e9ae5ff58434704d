-- ===== src/Ledger/Version.antt =====
-- ledger/backend/common/version_manager.go: the versions of a database. The copy of the type in
-- ledger/backend/version/version.go has the same code. A version is a uint64.
pub mod Limits
pub mod Saves
pub mod Deletes
pub mod Same
mod Tests
use topia.Base.{
  ℕ, ◌+◌, Bool, true, List, [], ◌∷◌, ◌||◌, ◌&&◌, ◌⊎◌, inl, inr, ◌=?◌, ltb, if◌then◌else◌, length,
}
use topia.Base.Eq.{nat_eq}
use topia.Base.Map.{Map, lookup, insert, delete, merge, is_some}
use topia.Base.Words.{add_u64}

-- A set of versions, as the source has it: a map to empty structs.
abbrev pub Versions : Type 0
Versions = Map ℕ (Unit {0})

pub record VersionManager : Type 0 where
  pub versions : Versions
  pub initial : ℕ
  pub last : ℕ

pub data SaveError : Type 0 where
  -- The target and the next sequential version.
  target_below_next : ℕ → ℕ → SaveError
  version_exists : ℕ → SaveError

-- One round of the loop of `NewVersionManager`.
unfoldable pub note_version : VersionManager → ℕ → VersionManager
note_version vm ver = record {
  versions = insert ver tt vm.versions;
  initial = if (vm.initial =? 0) || ltb ver vm.initial then ver else vm.initial;
  last = if ltb vm.last ver then ver else vm.last;
}

unfoldable pub note_versions : VersionManager → List ℕ → VersionManager
note_versions vm [] = vm
note_versions vm (ver ∷ rest) = note_versions (note_version vm ver) rest

unfoldable pub new_version_manager : List ℕ → VersionManager
new_version_manager vs = note_versions (record { versions = []; initial = 0; last = 0 }) vs

unfoldable pub exists : VersionManager → ℕ → Bool
exists vm version = is_some (lookup version vm.versions)

-- The version saved and the manager after it. An error changes nothing.
unfoldable pub save : VersionManager → ℕ → SaveError ⊎ (ℕ × VersionManager)
unfolding exists
save vm target =
    let next = add_u64 vm.last 1 in
    let chosen = if target =? 0 then next else target in
    let versions = insert chosen tt vm.versions in
    if ltb 0 target && ltb target next
    then inl (target_below_next target next)
    else (if exists vm chosen
        then inl (version_exists chosen)
        else inr (
          chosen,
          record {
            versions = versions;
            last = chosen;
            initial = if length versions =? 1 then chosen else vm.initial;
          },
        ))

-- `range` over the set, for the greatest or the smallest version.
unfoldable pub find_limit : (ℕ → ℕ → Bool) → Versions → ℕ → ℕ
find_limit cmp [] init = init
find_limit cmp ((x, u) ∷ rest) init = find_limit cmp rest (if cmp x init then x else init)

unfoldable pub delete_version : VersionManager → ℕ → VersionManager
unfolding find_limit
delete_version vm target =
    let versions = delete target vm.versions in
    let last = if target =? vm.last then find_limit (λ x m. ltb m x) versions 0 else vm.last in
    record {
      versions = versions;
      last = last;
      initial =
          if target =? vm.initial then find_limit (λ x m. ltb x m) versions last else vm.initial;
    }

unfoldable pub count : VersionManager → ℕ
count vm = length vm.versions

-- The loop of `Equal` over the other manager's iterator.
unfoldable pub all_exist : VersionManager → Versions → Bool
unfolding exists
all_exist vm [] = true
all_exist vm ((ver, u) ∷ rest) = exists vm ver && all_exist vm rest

unfoldable pub equal_versions : VersionManager → VersionManager → Bool
unfolding count all_exist
equal_versions vm that = (count vm =? count that) && all_exist vm that.versions

unfoldable pub copy_manager : VersionManager → VersionManager
copy_manager vm = record vm { versions = merge vm.versions [] }
