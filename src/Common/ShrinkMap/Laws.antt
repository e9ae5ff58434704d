-- ===== src/Common/ShrinkMap/Laws.antt =====
-- The shrinkable map refines one map: what Set, Del and the moves between the halves show to Get.
use topia.Base.{◌≡◌, refl, ◌∙◌, ◌⊎◌, inl, none, some, arith, if◌then◌else◌}
use topia.Base.Eq.{Comparable, ◌==◌, ==_iff}
use topia.Base.Map.{
  Map, lookup, Distinct, lookup-insert, lookup-delete, lookup-merge, Distinct-insert,
  Distinct-delete, Distinct-merge,
}
use topia.Common.ShrinkMap.{
  ShrinkableMap, new_shrink_map, get, set, del, remove_entry, shrink_old, shrink_new,
}

module _ {ℓ κ} {K : Type ℓ} {V : Type κ} ⦃e : Comparable K⦄ where
  -- No key stands in both halves.
  abbrev pub Apart : Map K V → Map K V → Type (ℓ ⊔ κ)
  Apart a b = (k : K) → (lookup k a ≡ none) ⊎ (lookup k b ≡ none)

  pub record IsValid (m : ShrinkableMap K V) : Type (ℓ ⊔ κ) where
    pub old_distinct : Distinct m.dirty_old
    pub new_distinct : Distinct m.dirty_new
    pub apart : Apart m.dirty_old m.dirty_new

  pub Apart-comm : (a b : Map K V) → Apart a b → Apart b a
  Apart-comm a b h k = ground (arith, h k)

  pub IsValid-new : IsValid (new_shrink_map {K = K} {V = V})
  unfolding new_shrink_map lookup
  IsValid-new = record { old_distinct = tt; new_distinct = tt; apart = λ k. inl refl }

  Apart-set :
      (m : ShrinkableMap K V) (key : K) (value : V)
      → IsValid m
      → Apart (set m key value).dirty_old (set m key value).dirty_new
  unfolding set
  Apart-set m key value v k = ground (
    arith,
    v.apart k,
    lookup-insert key k value m.dirty_old,
    lookup-insert key k value m.dirty_new,
    lookup-delete key k m.dirty_old v.old_distinct,
    lookup-delete key k m.dirty_new v.new_distinct,
    ==_iff key k,
  )

  pub set-IsValid :
      (m : ShrinkableMap K V) (key : K) (value : V) → IsValid m → IsValid (set m key value)
  unfolding set
  set-IsValid m key value v = record {
    old_distinct = ground (
      arith,
      Distinct-insert key value m.dirty_old v.old_distinct,
      Distinct-delete key m.dirty_old v.old_distinct,
      v.old_distinct,
    );
    new_distinct = ground (
      arith,
      Distinct-insert key value m.dirty_new v.new_distinct,
      Distinct-delete key m.dirty_new v.new_distinct,
      v.new_distinct,
    );
    apart = unfold set in Apart-set m key value v;
  }

  pub get-set :
      (m : ShrinkableMap K V) (key : K) (value : V) (k : K)
      → IsValid m
      → get (set m key value) k ≡ (if key == k then some value else get m k)
  unfolding set get
  get-set m key value k v = ground (
    arith,
    v.apart k,
    lookup-insert key k value m.dirty_old,
    lookup-insert key k value m.dirty_new,
    lookup-delete key k m.dirty_old v.old_distinct,
    lookup-delete key k m.dirty_new v.new_distinct,
    ==_iff key k,
  )

  pub remove_entry-IsValid :
      (m : ShrinkableMap K V) (key : K) → IsValid m → IsValid (remove_entry m key)
  unfolding remove_entry
  remove_entry-IsValid m key v = record {
    old_distinct = ground (arith, Distinct-delete key m.dirty_old v.old_distinct, v.old_distinct);
    new_distinct = ground (arith, Distinct-delete key m.dirty_new v.new_distinct, v.new_distinct);
    apart = λ k. ground (
      arith,
      v.apart k,
      lookup-delete key k m.dirty_old v.old_distinct,
      lookup-delete key k m.dirty_new v.new_distinct,
    );
  }

  get-remove_entry :
      (m : ShrinkableMap K V) (key k : K)
      → IsValid m
      → get (remove_entry m key) k ≡ (if key == k then none else get m k)
  unfolding remove_entry get
  get-remove_entry m key k v = ground (
    arith,
    v.apart k,
    lookup-delete key k m.dirty_old v.old_distinct,
    lookup-delete key k m.dirty_new v.new_distinct,
    ==_iff key k,
  )

  pub shrink_old-IsValid : (m : ShrinkableMap K V) → IsValid m → IsValid (shrink_old m)
  unfolding shrink_old lookup
  shrink_old-IsValid m v = record {
    old_distinct =
        ground (arith, Distinct-merge m.dirty_old m.dirty_new v.new_distinct, v.old_distinct);
    new_distinct = ground (arith, v.new_distinct);
    apart = λ k. ground (arith, v.apart k);
  }

  get-shrink_old : (m : ShrinkableMap K V) (k : K) → IsValid m → get (shrink_old m) k ≡ get m k
  unfolding shrink_old get lookup
  get-shrink_old m k v =
      ground (arith, v.apart k, lookup-merge k m.dirty_old m.dirty_new v.old_distinct)

  shrink_new-IsValid : (m : ShrinkableMap K V) → IsValid m → IsValid (shrink_new m)
  unfolding shrink_new lookup
  shrink_new-IsValid m v = record {
    old_distinct =
        ground (arith, Distinct-merge m.dirty_new m.dirty_old v.old_distinct, v.old_distinct);
    new_distinct = ground (arith, v.new_distinct);
    apart = λ k. ground (arith, v.apart k);
  }

  get-shrink_new : (m : ShrinkableMap K V) (k : K) → IsValid m → get (shrink_new m) k ≡ get m k
  unfolding shrink_new get lookup
  get-shrink_new m k v =
      ground (arith, v.apart k, lookup-merge k m.dirty_new m.dirty_old v.new_distinct)

  pub del-IsValid : (m : ShrinkableMap K V) (key : K) → IsValid m → IsValid (del m key)
  unfolding del
  del-IsValid m key v = shrink_new-IsValid _ (shrink_old-IsValid _ (remove_entry-IsValid m key v))

  pub get-del :
      (m : ShrinkableMap K V) (key k : K)
      → IsValid m
      → get (del m key) k ≡ (if key == k then none else get m k)
  unfolding del
  get-del m key k v =
      let v' = remove_entry-IsValid m key v in
      get-shrink_new _ k (shrink_old-IsValid _ v')
      ∙ get-shrink_old _ k v'
      ∙ get-remove_entry m key k v
