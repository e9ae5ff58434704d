-- ===== src/Common/ShrinkMap/History.antt =====
-- Any sequence of Set and Del calls against the history that a client has in mind.
use topia.Base.{◌+◌, ◌≡◌, refl, List, [], ◌∷◌, Option, none, some, arith, if◌then◌else◌}
use topia.Base.Eq.{Comparable, ◌==◌}
use topia.Base.Map.{lookup, is_some, length-insert, length-delete, length-merge}
use topia.Common.ShrinkMap.{
  ShrinkableMap, new_shrink_map, get, set, del, size, remove_entry, shrink_old, shrink_new,
}
use topia.Common.ShrinkMap.Laws.{
  IsValid, Apart-comm, IsValid-new, set-IsValid, del-IsValid, get-set, get-del,
  remove_entry-IsValid, shrink_old-IsValid,
}

pub data Call {ℓ κ} (K : Type ℓ) (V : Type κ) : Type (ℓ ⊔ κ) where
  sets : K → V → Call K V
  dels : K → Call K V

module _ {ℓ κ} {K : Type ℓ} {V : Type κ} ⦃e : Comparable K⦄ where
  abbrev pub step : ShrinkableMap K V → Call K V → ShrinkableMap K V
  step m (sets k v) = set m k v
  step m (dels k) = del m k

  unfoldable pub run : ShrinkableMap K V → List (Call K V) → ShrinkableMap K V
  run m [] = m
  run m (c ∷ cs) = run (step m c) cs

  -- What one call does to the value that a client sees under `k`.
  abbrev pub seen : Call K V → K → Option V → Option V
  seen (sets j v) k before = if j == k then some v else before
  seen (dels j) k before = if j == k then none else before

  -- The value under `k` after all calls, from the value before them.
  unfoldable pub recall : List (Call K V) → K → Option V → Option V
  recall [] k before = before
  recall (c ∷ cs) k before = recall cs k (seen c k before)

  step-IsValid : (m : ShrinkableMap K V) (c : Call K V) → IsValid m → IsValid (step m c)
  step-IsValid m (sets k v) h = set-IsValid m k v h
  step-IsValid m (dels k) h = del-IsValid m k h

  get-step :
      (m : ShrinkableMap K V) (c : Call K V) (k : K)
      → IsValid m
      → get (step m c) k ≡ seen c k (get m k)
  get-step m (sets j v) k h = get-set m j v k h
  get-step m (dels j) k h = get-del m j k h

  pub run-IsValid : (m : ShrinkableMap K V) (cs : List (Call K V)) → IsValid m → IsValid (run m cs)
  unfolding run
  run-IsValid m [] h = h
  run-IsValid m (c ∷ cs) h = run-IsValid (step m c) cs (step-IsValid m c h)

  get-run_from :
      (m : ShrinkableMap K V) (cs : List (Call K V)) (k : K)
      → IsValid m
      → get (run m cs) k ≡ recall cs k (get m k)
  unfolding run recall
  get-run_from m [] k h = refl
  get-run_from m (c ∷ cs) k h =
      rw (← get-step m c k h) (get-run_from (step m c) cs k (step-IsValid m c h))

  -- From the empty map, after any calls of Set and Del, whichever halves were moved on the way, Get
  -- of every key returns what the last call on that key left, and nothing if there was none.
  pub get-run : (cs : List (Call K V)) (k : K) → get (run new_shrink_map cs) k ≡ recall cs k none
  unfolding new_shrink_map get lookup
  get-run cs k = get-run_from new_shrink_map cs k IsValid-new

  -- In a valid map, Set adds one to Size exactly when Get had nothing under the key, also when the
  -- entry moves from one half to the other.
  pub size-set :
      (m : ShrinkableMap K V) (key : K) (value : V)
      → IsValid m
      → size (set m key value) ≡ size m + (if is_some (get m key) then 0 else 1)
  unfolding set size get
  size-set m key value v = ground (
    arith,
    v.apart key,
    length-insert key value m.dirty_old,
    length-insert key value m.dirty_new,
    length-delete key m.dirty_old,
    length-delete key m.dirty_new,
  )

  size-remove_entry :
      (m : ShrinkableMap K V) (key : K)
      → size (remove_entry m key) + (if is_some (get m key) then 1 else 0) ≡ size m
  unfolding remove_entry size get
  size-remove_entry m key =
      ground (arith, length-delete key m.dirty_old, length-delete key m.dirty_new)

  size-shrink_old : (m : ShrinkableMap K V) → IsValid m → size (shrink_old m) ≡ size m
  unfolding shrink_old size
  size-shrink_old m v = ground (arith, length-merge m.dirty_old m.dirty_new v.old_distinct v.apart)

  size-shrink_new : (m : ShrinkableMap K V) → IsValid m → size (shrink_new m) ≡ size m
  unfolding shrink_new size
  size-shrink_new m v =
      ground (arith, length-merge m.dirty_new m.dirty_old v.new_distinct (Apart-comm _ _ v.apart))

  -- In a valid map, Del takes one from Size exactly when Get had something under the key, and a move
  -- of one half into the other loses and doubles no entry.
  pub size-del :
      (m : ShrinkableMap K V) (key : K)
      → IsValid m
      → size (del m key) + (if is_some (get m key) then 1 else 0) ≡ size m
  unfolding del
  size-del m key v =
      let v' = remove_entry-IsValid m key v in
      omega (
        arith,
        size-shrink_new _ (shrink_old-IsValid _ v'),
        size-shrink_old _ v',
        size-remove_entry m key,
      )
