-- ===== src/State/Store/Laws.antt =====
-- What a named store reads after a write, and that the other stores stay as they are.
use topia.Base.{◌≡◌, ◌≢◌, refl, ◌∙◌, String, false, none, some, inr, arith}
use topia.Base.Eq.{◌==◌, ==_iff, string_eq}
use topia.Base.Map.{Map, lookup, insert, delete, is_some, lookup-insert}
use topia.State.Store.{StateStore, put, update, delete_key, get_state_data, exists}

module _ {ℓ} {V : Type ℓ} where
  -- The store has the contents `m` under the name, and can be written.
  abbrev pub Holds : StateStore V → String → Map String V → Type ℓ
  Holds st name m = (st.read_only ≡ false) × (lookup name st.store_map ≡ some m)

  -- A store that has the new contents under the name, and everything else as before.
  pub record Becomes (st : StateStore V) (name : String) (m : Map String V) (st' : StateStore V)
      : Type ℓ where
    pub holds : Holds st' name m
    pub others :
        (other : String) → other ≢ name → lookup other st'.store_map ≡ lookup other st.store_map

  replaced : StateStore V → String → Map String V → StateStore V
  replaced st name m = record st { store_map = insert name m st.store_map }

  replaced-Becomes :
      (st : StateStore V) (name : String) (m : Map String V)
      → st.read_only ≡ false
      → Becomes st name m (record st { store_map = insert name m st.store_map })
  replaced-Becomes st name m w = record {
    holds = (w, ground (arith, lookup-insert name name m st.store_map, ==_iff name name));
    others = λ other n. ground (arith, lookup-insert name other m st.store_map, ==_iff name other);
  }

  pub put_lem :
      (st : StateStore V) (name key : String) (value : V) (m : Map String V)
      → Holds st name m
      → key ≢ ""
      → (st' : StateStore V) × (put st name key value ≡ (st', none))
        × Becomes st name (insert key value m) st'
  unfolding put
  put_lem st name key value m h proper =
      let named : (key == "") ≡ false = ground (arith, ==_iff key "") in
      (_, rw (put, h.0, h.1, named) refl, replaced-Becomes st name (insert key value m) h.0)

  pub update_lem :
      (st : StateStore V) (name key : String) (value : V) (m : Map String V)
      → Holds st name m
      → key ≢ ""
      → (st' : StateStore V) × (update st name key value ≡ (st', none))
        × Becomes st name (insert key value m) st'
  unfolding update
  update_lem st name key value m h proper =
      let named : (key == "") ≡ false = ground (arith, ==_iff key "") in
      (_, rw (update, h.0, h.1, named) refl, replaced-Becomes st name (insert key value m) h.0)

  pub delete_key_lem :
      (st : StateStore V) (name key : String) (m : Map String V)
      → Holds st name m
      → key ≢ ""
      → (st' : StateStore V) × (delete_key st name key ≡ (st', none))
        × Becomes st name (delete key m) st'
  unfolding delete_key
  delete_key_lem st name key m h proper =
      let named : (key == "") ≡ false = ground (arith, ==_iff key "") in
      (_, rw (delete_key, h.0, h.1, named) refl, replaced-Becomes st name (delete key m) h.0)

  pub get_state_data_lem :
      (st : StateStore V) (name key : String) (m : Map String V)
      → lookup name st.store_map ≡ some m
      → key ≢ ""
      → get_state_data st name key ≡ inr (lookup key m)
  unfolding get_state_data
  get_state_data_lem st name key m h proper =
      let named : (key == "") ≡ false = ground (arith, ==_iff key "") in
      rw (get_state_data, h, named) refl

  pub exists_lem :
      (st : StateStore V) (name key : String) (m : Map String V)
      → lookup name st.store_map ≡ some m
      → key ≢ ""
      → exists st name key ≡ inr (is_some (lookup key m))
  unfolding exists
  exists_lem st name key m h proper =
      let named : (key == "") ≡ false = ground (arith, ==_iff key "") in rw (exists, h, named) refl

  -- One write after another under the same name.
  pub Becomes-again :
      (st st1 st2 : StateStore V) (name : String) (m1 m2 : Map String V)
      → Becomes st name m1 st1
      → Becomes st1 name m2 st2
      → Becomes st name m2 st2
  Becomes-again st st1 st2 name m1 m2 a b = record {
    holds = b.holds;
    others = λ other n. b.others other n ∙ a.others other n;
  }
