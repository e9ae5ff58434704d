-- ===== src/Ledger/Version/Tests.antt =====
-- Runs of the version manager, and its theorems at concrete managers.
use topia.Base.{
  ℕ, ◌<◌, ◌≡◌, refl, subst, inr, false, List, [], ◌∷◌, All, arith, if◌then◌else◌, ◌=?◌,
}
use topia.Base.Eq.{nat_eq}
use topia.Base.Map.{lookup, insert, delete}
use topia.Ledger.Version.{
  VersionManager, new_version_manager, note_version, note_versions, exists, save, find_limit,
  delete_version,
}
use topia.Ledger.Version.Limits.{IsLimited, new_version_manager-IsLimited}
use topia.Ledger.Version.Deletes.{delete_version-IsLimited}

abbrev ids : List ℕ
ids = 5 ∷ 2 ∷ 9 ∷ 2 ∷ []

ids_positive : All (λ (v : ℕ). 0 < v) ids
ids_positive = omega arith

abbrev three : VersionManager
three = record { versions = (5, tt) ∷ (2, tt) ∷ (9, tt) ∷ []; initial = 2; last = 9 }

new_run : new_version_manager ids ≡ three
unfolding new_version_manager note_versions note_version insert
new_run = refl

save_next :
    save three 0
    ≡ inr (10, record three { versions = (5, tt) ∷ (2, tt) ∷ (9, tt) ∷ (10, tt) ∷ []; last = 10 })
unfolding save exists insert lookup
save_next = refl

delete_last :
    delete_version three 9 ≡ record { versions = (5, tt) ∷ (2, tt) ∷ []; initial = 2; last = 5 }
unfolding delete_version find_limit delete
delete_last = refl

three-IsLimited : IsLimited three
three-IsLimited = subst IsLimited new_run (new_version_manager-IsLimited ids ids_positive)

delete_version-IsLimited_example :
    IsLimited (delete_version three 9)
    × ((w : ℕ) → exists (delete_version three 9) w ≡ (if 9 =? w then false else exists three w))
delete_version-IsLimited_example = delete_version-IsLimited three 9 three-IsLimited

abbrev reordered : VersionManager
reordered = record { versions = (9, tt) ∷ (5, tt) ∷ (2, tt) ∷ []; initial = 2; last = 9 }
