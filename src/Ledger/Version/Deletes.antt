-- ===== src/Ledger/Version/Deletes.antt =====
-- What `Delete` of the version manager does, on every branch.
use topia.Base.{
  ℕ, ◌≤◌, ◌≡◌, ◌≢◌, refl, sym, ◌∙◌, subst, ◌⊎◌, inl, inr, false, [], ◌∷◌, arith, Bool-cases, ltb,
  ◌=?◌, length, if◌then◌else◌,
}
use topia.Base.Eq.{nat_eq, ==_iff}
use topia.Base.Map.{lookup, delete, lookup-delete, length-delete, Distinct, Distinct-delete}
use topia.Ledger.Version.{Versions, VersionManager, exists, find_limit, delete_version}
use topia.Ledger.Version.Limits.{In, IsLimited, In-nonempty}

-- The greatest of the versions and the start, and that it is one of them.
find_limit_max :
    (vs : Versions) (init : ℕ)
    → (init ≤ find_limit (λ x m. ltb m x) vs init)
      × ((v : ℕ) → In v vs → v ≤ find_limit (λ x m. ltb m x) vs init)
      × ((find_limit (λ x m. ltb m x) vs init ≡ init) ⊎ In (find_limit (λ x m. ltb m x) vs init) vs)
unfolding find_limit lookup
find_limit_max [] init = (omega arith, (λ v h. ground arith), inl refl)
find_limit_max ((x, u) ∷ vs) init =
    let (a, b, c) = find_limit_max vs (if ltb init x then x else init) in
    (ground arith, (λ v h. ground (arith, b v, ==_iff x v)), ground (arith, a, c))

find_limit_min :
    (vs : Versions) (init : ℕ)
    → (find_limit (λ x m. ltb x m) vs init ≤ init)
      × ((v : ℕ) → In v vs → find_limit (λ x m. ltb x m) vs init ≤ v)
      × ((find_limit (λ x m. ltb x m) vs init ≡ init) ⊎ In (find_limit (λ x m. ltb x m) vs init) vs)
unfolding find_limit lookup
find_limit_min [] init = (omega arith, (λ v h. ground arith), inl refl)
find_limit_min ((x, u) ∷ vs) init =
    let (a, b, c) = find_limit_min vs (if ltb x init then x else init) in
    (ground arith, (λ v h. ground (arith, b v, ==_iff x v)), ground (arith, a, c))

pub In-delete : (t v : ℕ) (m : Versions) → Distinct m → In v (delete t m) → (t ≢ v) × In v m
In-delete t v m d h = ground (arith, lookup-delete t v m d, ==_iff t v)

pub In-delete_other : (t v : ℕ) (m : Versions) → Distinct m → t ≢ v → In v m → In v (delete t m)
In-delete_other t v m d other h = ground (arith, lookup-delete t v m d, ==_iff t v)

empty_or_In : (m : Versions) → (length m ≡ 0) ⊎ ((v : ℕ) × In v m)
unfolding lookup
empty_or_In [] = inl refl
empty_or_In ((v, u) ∷ m) = inr (v, ground (arith, ==_iff v v))

-- The limits of what `Delete` leaves are right: 0 if nothing is left.
abbrev LastKept : VersionManager → ℕ → Type 0
LastKept vm target =
    let left = delete target vm.versions in
    let last = (delete_version vm target).last in
    ((v : ℕ) → In v left → v ≤ last) × (((length left ≡ 0) × (last ≡ 0)) ⊎ In last left)

last_after : (vm : VersionManager) (target : ℕ) → IsLimited vm → LastKept vm target
unfolding delete_version
last_after vm target l =
    let left = delete target vm.versions in
    let (a, b, c) = find_limit_max left 0 in
    elim (Bool-cases (target =? vm.last)) [
      | inl hit ↦ rw hit (
        b,
        elim c [
          | inr i ↦ inr i
          | inl zero ↦ elim (empty_or_In left) [
            | inl empty ↦ inl (empty, zero)
            | inr (v, h) ↦
                ground (arith, b v h, In-delete target v vm.versions l.distinct h, l.bounds v)
          ]
        ],
      )
      | inr miss ↦ rw miss (
        (λ v h. ground (arith, In-delete target v vm.versions l.distinct h, l.bounds v)),
        elim l.attained [
          | inl empty ↦ inl (ground (arith, empty, length-delete target vm.versions), empty.2)
          | inr (i, j) ↦
              inr (In-delete_other target vm.last vm.versions l.distinct (ground arith) j)
        ],
      )
    ]

abbrev InitialKept : VersionManager → ℕ → Type 0
InitialKept vm target =
    let left = delete target vm.versions in
    let initial = (delete_version vm target).initial in
    ((v : ℕ) → In v left → initial ≤ v) × (((length left ≡ 0) × (initial ≡ 0)) ⊎ In initial left)

initial_after : (vm : VersionManager) (target : ℕ) → IsLimited vm → InitialKept vm target
unfolding delete_version
initial_after vm target l =
    let left = delete target vm.versions in
    let (a, b, c) = find_limit_min left (delete_version vm target).last in
    elim (Bool-cases (target =? vm.initial)) [
      | inl hit ↦ rw hit (
        b,
        elim c [
          | inr i ↦ inr i
          | inl same ↦ elim (last_after vm target l).1 [
            | inl empty ↦ inl (empty.0, same ∙ empty.1)
            | inr j ↦ inr (subst (λ (k : ℕ). In k left) (sym same) j)
          ]
        ],
      )
      | inr miss ↦ rw miss (
        (λ v h. ground (arith, In-delete target v vm.versions l.distinct h, l.bounds v)),
        elim l.attained [
          | inl empty ↦ inl (ground (arith, empty, length-delete target vm.versions), empty.1)
          | inr (i, j) ↦
              inr (In-delete_other target vm.initial vm.versions l.distinct (ground arith) i)
        ],
      )
    ]

-- `Delete` of any version, there or not, takes it out and no other, and the limits are again the
-- smallest and the greatest of what is left, or 0 if nothing is.
pub delete_version-IsLimited :
    (vm : VersionManager) (target : ℕ)
    → IsLimited vm
    → IsLimited (delete_version vm target)
      × ((w : ℕ)
          → exists (delete_version vm target) w ≡ (if target =? w then false else exists vm w))
unfolding delete_version exists
delete_version-IsLimited vm target l =
    let (top, at_top) = last_after vm target l in
    let (bottom, at_bottom) = initial_after vm target l in
    let inside = λ (w : ℕ) (h : In w (delete target vm.versions)).
      l.bounds w (In-delete target w vm.versions l.distinct h).1 in
    (
      record {
        distinct = Distinct-delete target vm.versions l.distinct;
        bounds = λ w h. ((inside w h).0, bottom w h, top w h);
        attained = elim at_top [
          | inl (none_left, zero) ↦ elim at_bottom [
            | inl (n, z) ↦ inl (n, z, zero)
            | inr i ↦ ground (arith, none_left, In-nonempty _ _ i)
          ]
          | inr j ↦ elim at_bottom [
            | inl (n, z) ↦ ground (arith, n, In-nonempty _ _ j)
            | inr i ↦ inr (i, j)
          ]
        ];
      },
      λ w. ground (arith, lookup-delete target w vm.versions l.distinct),
    )
