-- ===== src/Common/ShrinkMap.antt =====
-- common/shrink_map.go. A map kept in two halves, so that Go's runtime can free the buckets of a
-- half that has lost many entries. Each method holds the lock for its whole body, so a call is one
-- step. The two deletion counters are `int`s that stay far below their bound and are plain numbers.
pub mod Laws
pub mod History
mod Tests
use topia.Base.{
  ℕ, ◌+◌, List, [], ◌++◌, map, Option, none, some, leb, ltb, ◌&&◌, if◌then◌else◌, length,
}
use topia.Base.Eq.{Comparable}
use topia.Base.Map.{Map, lookup, insert, delete, merge, is_some, or_else}

abbrev pub copy_threshold : ℕ
copy_threshold = 1000

abbrev pub max_deletion : ℕ
max_deletion = 10000

pub record ShrinkableMap {ℓ κ} (K : Type ℓ) (V : Type κ) : Type (ℓ ⊔ κ) where
  pub deletion_old : ℕ
  pub deletion_new : ℕ
  pub dirty_old : Map K V
  pub dirty_new : Map K V

module _ {ℓ κ} {K : Type ℓ} {V : Type κ} where
  unfoldable pub new_shrink_map : ShrinkableMap K V
  new_shrink_map = record { deletion_old = 0; deletion_new = 0; dirty_old = []; dirty_new = [] }

  -- The keys that `range` meets: those of the old half, then those of the new one.
  pub all_keys : ShrinkableMap K V → List K
  all_keys m = map (λ p. p.0) m.dirty_old ++ map (λ p. p.0) m.dirty_new

  -- The calls of the callback, in order.
  pub iterate_callback : ShrinkableMap K V → List (K × V)
  iterate_callback m = m.dirty_old ++ m.dirty_new

  unfoldable pub size : ShrinkableMap K V → ℕ
  size m = length m.dirty_old + length m.dirty_new

module _ {ℓ κ} {K : Type ℓ} {V : Type κ} ⦃e : Comparable K⦄ where
  unfoldable pub get : ShrinkableMap K V → K → Option V
  get m key = or_else (lookup key m.dirty_old) (lookup key m.dirty_new)

  unfoldable pub set : ShrinkableMap K V → K → V → ShrinkableMap K V
  set m key value =
      if leb m.deletion_old max_deletion
      then (if is_some (lookup key m.dirty_new)
          then record m {
            deletion_new = m.deletion_new + 1;
            dirty_new = delete key m.dirty_new;
            dirty_old = insert key value m.dirty_old;
          }
          else record m { dirty_old = insert key value m.dirty_old })
      else (if is_some (lookup key m.dirty_old)
          then record m {
            deletion_old = m.deletion_old + 1;
            dirty_old = delete key m.dirty_old;
            dirty_new = insert key value m.dirty_new;
          }
          else record m { dirty_new = insert key value m.dirty_new })

  -- The first part of `Del`: the entry goes from the half that has it.
  unfoldable pub remove_entry : ShrinkableMap K V → K → ShrinkableMap K V
  remove_entry m key =
      if is_some (lookup key m.dirty_old)
      then record m { dirty_old = delete key m.dirty_old; deletion_old = m.deletion_old + 1 }
      else (if is_some (lookup key m.dirty_new)
          then record m { dirty_new = delete key m.dirty_new; deletion_new = m.deletion_new + 1 }
          else m)

  -- The second part: a worn and small old half moves into the new half, which takes its place.
  unfoldable pub shrink_old : ShrinkableMap K V → ShrinkableMap K V
  shrink_old m =
      if leb max_deletion m.deletion_old && ltb (length m.dirty_old) copy_threshold
      then record {
        dirty_old = merge m.dirty_old m.dirty_new;
        deletion_old = m.deletion_new;
        dirty_new = [];
        deletion_new = 0;
      }
      else m

  -- The third part: a worn and small new half moves into the old half.
  unfoldable pub shrink_new : ShrinkableMap K V → ShrinkableMap K V
  shrink_new m =
      if leb max_deletion m.deletion_new && ltb (length m.dirty_new) copy_threshold
      then record m { dirty_old = merge m.dirty_new m.dirty_old; dirty_new = []; deletion_new = 0 }
      else m

  unfoldable pub del : ShrinkableMap K V → K → ShrinkableMap K V
  unfolding remove_entry shrink_old shrink_new
  del m key = shrink_new (shrink_old (remove_entry m key))
