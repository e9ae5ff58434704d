-- ===== src/Ledger/Version/Limits.antt =====
-- The first and the last version that the manager keeps are the smallest and the greatest one that
-- exist, through every call.
use topia.Base.{ℕ, ◌≤◌, ◌<◌, ◌≡◌, refl, ◌⊎◌, inl, inr, true, List, [], ◌∷◌, arith, All, length}
use topia.Base.Eq.{nat_eq, ==_iff}
use topia.Base.Map.{lookup, insert, is_some, Distinct, lookup-insert, Distinct-insert}
use topia.Ledger.Version.{
  Versions, VersionManager, note_version, note_versions, new_version_manager,
}

-- The version is one of the set.
abbrev pub In : ℕ → Versions → Type 0
In v vs = is_some (lookup v vs) ≡ true

pub In-insert : (v w : ℕ) (m : Versions) → In w (insert v tt m) → (v ≡ w) ⊎ In w m
In-insert v w m h = ground (arith, lookup-insert v w tt m, ==_iff v w)

pub In-insert_this : (v : ℕ) (m : Versions) → In v (insert v tt m)
In-insert_this v m = ground (arith, lookup-insert v v tt m, ==_iff v v)

pub In-insert_old : (v w : ℕ) (m : Versions) → In w m → In w (insert v tt m)
In-insert_old v w m h = ground (arith, lookup-insert v w tt m, ==_iff v w)

pub In-nonempty : (v : ℕ) (m : Versions) → In v m → 0 < length m
unfolding lookup
In-nonempty v [] h = ground arith
In-nonempty v (e ∷ m) h = omega arith

-- The limits are among the versions, or there is no version and they are 0.
abbrev pub Attained : VersionManager → Type 0
Attained vm =
    ((length vm.versions ≡ 0) × (vm.initial ≡ 0) × (vm.last ≡ 0))
    ⊎ (In vm.initial vm.versions × In vm.last vm.versions)

pub record IsLimited (vm : VersionManager) : Type 0 where
  pub distinct : Distinct vm.versions
  pub bounds : (v : ℕ) → In v vm.versions → (0 < v) × (vm.initial ≤ v) × (v ≤ vm.last)
  pub attained : Attained vm

pub initial_positive :
    (vm : VersionManager) (v : ℕ) → IsLimited vm → In v vm.versions → 0 < vm.initial
initial_positive vm v l h = elim l.attained [
  | inl empty ↦ ground (arith, empty, In-nonempty v vm.versions h)
  | inr (i, j) ↦ ground (arith, l.bounds vm.initial i)
]

note_version-IsLimited :
    (vm : VersionManager) (v : ℕ) → 0 < v → IsLimited vm → IsLimited (note_version vm v)
unfolding note_version
note_version-IsLimited vm v p l = record {
  distinct = Distinct-insert v tt vm.versions l.distinct;
  bounds = λ w h. elim (In-insert v w vm.versions h) [
    | inl same ↦ ground arith
    | inr old ↦ ground (arith, l.bounds w old, initial_positive vm w l old)
  ];
  attained = elim l.attained [
    | inl empty ↦ inr (
      ground (arith, empty, In-insert_this v vm.versions),
      ground (arith, empty, In-insert_this v vm.versions),
    )
    | inr (i, j) ↦ inr (
      ground (
        arith,
        l.bounds vm.initial i,
        In-insert_this v vm.versions,
        In-insert_old v vm.initial vm.versions i,
      ),
      ground (
        arith,
        l.bounds vm.last j,
        In-insert_this v vm.versions,
        In-insert_old v vm.last vm.versions j,
      ),
    )
  ];
}

note_versions-IsLimited :
    (vm : VersionManager) (vs : List ℕ)
    → IsLimited vm
    → All (λ v. 0 < v) vs
    → IsLimited (note_versions vm vs)
unfolding note_versions
note_versions-IsLimited vm [] l p = l
note_versions-IsLimited vm (v ∷ vs) l p =
    note_versions-IsLimited (note_version vm v) vs (note_version-IsLimited vm v p.0 l) p.1

-- The manager that `NewVersionManager` makes of any positive versions, in any order and with
-- repetitions, has the smallest and the greatest of them as its limits.
pub new_version_manager-IsLimited :
    (vs : List ℕ) → All (λ v. 0 < v) vs → IsLimited (new_version_manager vs)
unfolding new_version_manager lookup
new_version_manager-IsLimited vs p =
    note_versions-IsLimited _ vs
      (record { distinct = tt; bounds = λ v h. ground arith; attained = inl (refl, refl, refl) }) p
