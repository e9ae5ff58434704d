-- ===== src/State/Store.antt =====
-- ledger/state/store_state.go and the composition of ledger/state/store.go: named stores of keys and
-- values over one backend. The values' type is a parameter, as the stores do not look into them. The
-- proof tree beside the data (a library's sparse Merkle tree) is left out: its calls are taken to succeed.
pub mod Laws
use topia.Base.{
  ℕ, String, Bool, true, false, List, [], Option, none, some, ◌⊎◌, inl, inr, if◌then◌else◌,
}
use topia.Base.Eq.{◌==◌, string_eq}
use topia.Base.Map.{Map, lookup, insert, delete, is_some}

pub data StateError : Type 0 where
  read_only_store unknown_store key_empty : StateError
  -- A value that is not of the kind the reader expects, and the two ways in which a reader panics.
  malformed nil_pointer short_bytes : StateError
  nil_node_info invalid_role invalid_state : StateError

pub record StateStore {ℓ} (V : Type ℓ) : Type ℓ where
  pub read_only : Bool
  pub store_map : Map String (Map String V)

-- The store after a call that writes, and the error if there is one.
abbrev pub Written {ℓ} : Type ℓ → Type ℓ
Written V = StateStore V × Option StateError

module _ {ℓ} {V : Type ℓ} where
  -- `if err != nil { return err }` after a write: what was written before stays written.
  abbrev pub and_then : Written V → (StateStore V → Written V) → Written V
  and_then (st, none) rest = rest st
  and_then (st, some e) rest = (st, some e)

  unfoldable pub add_named_state_store : StateStore V → String → StateStore V
  add_named_state_store st name =
      if is_some (lookup name st.store_map)
      then st
      else record st { store_map = insert name [] st.store_map }

  -- `put` of the composition: the prefixed backend refuses the empty key.
  abbrev pub put_in : StateStore V → String → String → V → Option (Map String V) → Written V
  put_in st name key value none = (st, some unknown_store)
  put_in st name key value (some m) =
      if key == ""
      then (st, some key_empty)
      else (record st { store_map = insert name (insert key value m) st.store_map }, none)

  unfoldable pub put : StateStore V → String → String → V → Written V
  put st name key value =
      if st.read_only
      then (st, some read_only_store)
      else put_in st name key value (lookup name st.store_map)

  -- `Update` is `Put` in the composition.
  unfoldable pub update : StateStore V → String → String → V → Written V
  update st name key value =
      if st.read_only
      then (st, some read_only_store)
      else put_in st name key value (lookup name st.store_map)

  abbrev pub delete_in : StateStore V → String → String → Option (Map String V) → Written V
  delete_in st name key none = (st, some unknown_store)
  delete_in st name key (some m) =
      if key == ""
      then (st, some key_empty)
      else (record st { store_map = insert name (delete key m) st.store_map }, none)

  unfoldable pub delete_key : StateStore V → String → String → Written V
  delete_key st name key =
      if st.read_only
      then (st, some read_only_store)
      else delete_in st name key (lookup name st.store_map)

  abbrev pub get_in : String → Option (Map String V) → StateError ⊎ Option V
  get_in key none = inl unknown_store
  get_in key (some m) = if key == "" then inl key_empty else inr (lookup key m)

  -- A key without a value reads as nil, which is `none`.
  unfoldable pub get_state_data : StateStore V → String → String → StateError ⊎ Option V
  get_state_data st name key = get_in key (lookup name st.store_map)

  abbrev pub exists_in : String → Option (Map String V) → StateError ⊎ Bool
  exists_in key none = inl unknown_store
  exists_in key (some m) = if key == "" then inl key_empty else inr (is_some (lookup key m))

  unfoldable pub exists : StateStore V → String → String → StateError ⊎ Bool
  exists st name key = exists_in key (lookup name st.store_map)

  abbrev pub all_in : Option (Map String V) → StateError ⊎ List (String × V)
  all_in none = inl unknown_store
  all_in (some m) = inr m

  -- The keys and their values, side by side.
  unfoldable pub get_all_state_data : StateStore V → String → StateError ⊎ List (String × V)
  get_all_state_data st name = all_in (lookup name st.store_map)
