-- ===== src/Execution/Scheduler.antt =====
-- The scheduler (execution/scheduler.go): the packed transactions that were executed, in a list, with
-- what each resulted in. Its lock makes each call one step, and its state is idle between calls. Executing transactions is outside, and so
-- is what a commit does to the state; a panic is an end of its own.
pub mod Sound
pub mod Versions
pub mod States
pub mod Again
pub mod Commit
pub mod Calls
mod Tests
use topia.Base.{
  ℕ, zero, suc, ◌+◌, ◌%◌, Bool, true, false, Option, none, some, List, [], ◌∷◌, ◌++◌, if◌then◌else◌,
  not, ltb, leb, ◌=?◌, ◌&&◌, length,
}
use topia.Base.Words.{add_u64}

abbrev pub u32_mod : ℕ
u32_mod = 4294967296

-- MaxAvail_Count
abbrev pub max_avail_count : ℕ
max_avail_count = 5

-- An executed item: its version, whether its state is committed, and its result.
pub record Executed (R : Type 0) : Type 0 where
  pub state_version : ℕ
  pub committed : Bool
  pub packed_txs_rs : R

pub record Scheduler (R : Type 0) : Type 0 where
  pub last_state_version : ℕ
  pub exe_packed_count : ℕ
  pub exe_packed_txs_list : List (Executed R)

abbrev pub new_execution_scheduler : {R : Type 0} → Scheduler R
new_execution_scheduler = record {
  last_state_version = 0;
  exe_packed_count = 0;
  exe_packed_txs_list = [];
}

-- MaxPrepareMsgCache, and a fifth of it in floating point, as an integer.
pub record CacheLimits : Type 0 where
  pub max_prepare_msg_cache : ℕ
  pub evicted_at_once : ℕ

pub data Ended (R : Type 0) : Type 0 where
  executed : R → Ended R
  invalid_version : Ended R
  execute_failed : Ended R
  panicked : Ended R

module _ {R : Type 0} where
  abbrev pub back : Executed R → List (Executed R) → Executed R
  back item [] = item
  back item (next ∷ items) = back next items

  -- The loop to the item of a version; `none`: it steps beyond the last one.
  unfoldable pub find_result : ℕ → List (Executed R) → Option R
  find_result version [] = none
  find_result version (item ∷ items) =
      let further = find_result version items in
      if not (item.state_version =? version) then further else some item.packed_txs_rs

  -- Front and Remove, a number of times; `none`: there is no front.
  abbrev pub evict : ℕ → List (Executed R) → Option (List (Executed R))
  evict zero items = some items
  evict (suc n) [] = none
  evict (suc n) (item ∷ items) = evict n items

  abbrev pub with_list : Scheduler R → R → Option (List (Executed R)) → Scheduler R × Ended R
  with_list s result none = (s, panicked)
  with_list s result (some items) = (record s { exe_packed_txs_list = items }, executed result)

  abbrev pub executed_item : ℕ → R → Executed R
  executed_item version result = record {
    state_version = version;
    committed = false;
    packed_txs_rs = result;
  }

  -- What follows on an execution.
  abbrev pub pushed : CacheLimits → Scheduler R → ℕ → R → Scheduler R × Ended R
  pushed limits s version result =
      let items = s.exe_packed_txs_list ++ executed_item version result ∷ [] in
      let s' = record s {
        last_state_version = version;
        exe_packed_count = (s.exe_packed_count + 1) % u32_mod;
        exe_packed_txs_list = items;
      } in
      with_list s' result (
        if leb limits.max_prepare_msg_cache (length items)
        then evict limits.evicted_at_once items
        else some items)

  abbrev pub execute_new : CacheLimits → Scheduler R → ℕ → Option R → Scheduler R × Ended R
  execute_new limits s version none = (s, execute_failed)
  execute_new limits s version (some result) = pushed limits s version result

  abbrev pub or_panics : Scheduler R → Option R → Scheduler R × Ended R
  or_panics s none = (s, panicked)
  or_panics s (some result) = (s, executed result)

  abbrev pub execute_on :
      CacheLimits → Scheduler R → ℕ → Option R → List (Executed R) → Scheduler R × Ended R
  execute_on limits s version execution [] =
      if not (s.last_state_version =? 0) && leb version s.last_state_version
      then (s, invalid_version)
      else execute_new limits s version execution
  execute_on limits s version execution (first ∷ items) =
      if leb first.state_version version && leb version (back first items).state_version
      then or_panics s (find_result version (first ∷ items))
      else if not (version =? add_u64 (back first items).state_version 1)
      then (s, invalid_version)
      else execute_new limits s version execution

  -- `execution` is what executing the transactions gives, if it is done.
  unfoldable pub execute_packed_tx :
      CacheLimits → Scheduler R → ℕ → Option R → Scheduler R × Ended R
  execute_packed_tx limits s version execution =
      execute_on limits s version execution s.exe_packed_txs_list

  -- The error is `none`.
  abbrev pub max_state_version : Scheduler R → ℕ → Option ℕ
  max_state_version s latest_height =
      if leb max_avail_count s.exe_packed_count
      then none
      else if ltb s.last_state_version latest_height
      then some latest_height
      else some s.last_state_version

  -- The loop of CompositionStateAtVersion, for a number of rounds: a committed item of the version is
  -- met again. `none`: the rounds ran out; otherwise the item, or none of them.
  unfoldable pub composition_state_at_version :
      ℕ → ℕ → List (Executed R) → Option (Option (Executed R))
  composition_state_at_version zero version items = none
  composition_state_at_version (suc rounds) version [] = some none
  composition_state_at_version (suc rounds) version (item ∷ items) =
      let rest =
        composition_state_at_version rounds version
          (if not (item.state_version =? version) then items else item ∷ items) in
      if not (item.state_version =? version)
      then rest
      else if not item.committed
      then some (some item)
      else rest

  -- CompositionStateOfExePackedTxs
  unfoldable pub composition_state_of : ℕ → List (Executed R) → Option (Executed R)
  composition_state_of version [] = none
  composition_state_of version (item ∷ items) =
      let further = composition_state_of version items in
      if not (item.state_version =? version) then further else some item
