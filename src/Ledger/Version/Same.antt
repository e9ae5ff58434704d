-- ===== src/Ledger/Version/Same.antt =====
-- `Equal` and `Copy` of the version manager: the set alone counts, in whichever order it is ranged over.
use topia.Base.{ℕ, ◌≤◌, ◌≡◌, refl, sym, ◌∙◌, ◌↔◌, inl, inr, true, [], ◌∷◌, arith, length}
use topia.Base.Eq.{nat_eq, ==_iff}
use topia.Base.Map.{
  lookup, delete, Distinct, length-delete, Distinct-delete, Distinct-merge, lookup-merge,
  length-merge,
}
use topia.Ledger.Version.{
  Versions, VersionManager, exists, count, all_exist, equal_versions, copy_manager,
}
use topia.Ledger.Version.Limits.{In, In-nonempty, IsLimited}
use topia.Ledger.Version.Deletes.{In-delete_other}

-- Every version of the first set is in the second.
abbrev pub Within : Versions → Versions → Type 0
Within a b = (v : ℕ) → In v a → In v b

all_exist_iff :
    (vm : VersionManager) (vs : Versions) → (all_exist vm vs ≡ true) ↔ Within vs vm.versions
unfolding all_exist exists lookup
all_exist_iff vm [] = ((λ h v i. ground arith), λ h. refl)
all_exist_iff vm ((x, u) ∷ vs) =
    let (to, from) = all_exist_iff vm vs in
    (
      (λ h v i.
          let all : all_exist vm vs ≡ true = ground arith in ground (arith, to all v, ==_iff x v)),
      λ h. ground (arith, h x, ==_iff x x, from (λ v i. h v (ground (arith, ==_iff x v)))),
    )

-- As many and all of them: the two sets are the same.
pigeonhole :
    (a b : Versions)
    → Distinct a
    → Distinct b
    → Within a b
    → (length a ≤ length b) × (length a ≡ length b → Within b a)
unfolding lookup
pigeonhole [] b da db sub = (omega arith, λ e v i. ground (arith, In-nonempty v b i))
pigeonhole ((x, u) ∷ a) b da db sub =
    let here : In x b = sub x (ground (arith, ==_iff x x)) in
    let (le, back) =
      pigeonhole a (delete x b) da.1 (Distinct-delete x b db)
        (λ v i. ground (arith, In-delete_other x v b db, sub v, da.0, ==_iff x v)) in
    (
      ground (arith, length-delete x b, here),
      λ e v i.
          let even : length a ≡ length (delete x b) = ground (arith, length-delete x b, here) in
          ground (arith, back even v, In-delete_other x v b db, ==_iff x v),
    )

-- For managers whose sets have no double entry: `Equal` answers true exactly if both have the same
-- versions.
pub equal_versions_iff :
    (vm that : VersionManager)
    → Distinct vm.versions
    → Distinct that.versions
    → (equal_versions vm that ≡ true) ↔ ((v : ℕ) → exists vm v ≡ exists that v)
unfolding equal_versions count exists
equal_versions_iff vm that d d' = (
  (λ h v.
      let even : length that.versions ≡ length vm.versions = ground arith in
      let all : all_exist vm that.versions ≡ true = ground arith in
      let sub = (all_exist_iff vm that.versions).0 all in
      let back = (pigeonhole that.versions vm.versions d' d sub).1 even in
      ground (arith, sub v, back v)),
  λ h.
      let sub : Within that.versions vm.versions = λ v i. h v ∙ i in
      let sub' : Within vm.versions that.versions = λ v i. sym (h v) ∙ i in
      ground (
        arith,
        (pigeonhole that.versions vm.versions d' d sub).0,
        (pigeonhole vm.versions that.versions d d' sub').0,
        (all_exist_iff vm that.versions).1 sub,
      ),
)

-- `Copy` of a manager whose set has no double entry is `Equal` to it and has the same limits.
pub copy_manager_lem :
    (vm : VersionManager)
    → Distinct vm.versions
    → (equal_versions vm (copy_manager vm) ≡ true)
      × ((copy_manager vm).initial ≡ vm.initial)
      × ((copy_manager vm).last ≡ vm.last)
unfolding copy_manager exists lookup
copy_manager_lem vm d = (
  (equal_versions_iff vm (copy_manager vm) d (Distinct-merge vm.versions [] tt)).1
      (λ v. ground (arith, lookup-merge v vm.versions [] d)),
  refl,
  refl,
)

pub copy_manager-exists :
    (vm : VersionManager) (v : ℕ) → IsLimited vm → exists (copy_manager vm) v ≡ exists vm v
unfolding copy_manager exists lookup
copy_manager-exists vm v l = ground (arith, lookup-merge v vm.versions [] l.distinct)

pub copy_manager-IsLimited : (vm : VersionManager) → IsLimited vm → IsLimited (copy_manager vm)
unfolding copy_manager exists lookup
copy_manager-IsLimited vm l =
    let same = λ (v : ℕ). lookup-merge v vm.versions [] l.distinct in
    record {
      distinct = Distinct-merge vm.versions [] tt;
      bounds = λ v h. l.bounds v (ground (arith, same v));
      attained = elim l.attained [
        | inl empty ↦ inl (
          ground (arith, empty, length-merge vm.versions [] l.distinct λ k. inr refl),
          empty.1,
          empty.2,
        )
        | inr (i, j) ↦ inr (ground (arith, same vm.initial), ground (arith, same vm.last))
      ];
    }
