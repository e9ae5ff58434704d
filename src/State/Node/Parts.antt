-- ===== src/State/Node/Parts.antt =====
-- Changes of one of the two totals of a register in its store, each on both branches.
use topia.Base.{
  ℕ, ◌+◌, ◌<◌, ◌≤◌, ◌≡◌, String, ◌⊎◌, inl, inr, List, [], ◌∷◌, ◌++◌, Option, none, some, arith,
}
use topia.Base.Eq.{string_eq}
use topia.Base.Map.{Map, lookup, insert}
use topia.Base.Words.{i64_sign, sub_u64, neg_u64}
use topia.State.Store.Laws.{Holds, Becomes, put_lem, update_lem, get_state_data_lem, exists_lem}
use topia.State.Node.{
  Stored, ids_json, weight_bytes, Store, add_id, add_weight, update_total_ids, update_total_weight,
  total_plus, drop_id, drop_weight, remove_if_exist_string,
}
use topia.State.Node.Totals.{Register}

-- The ids read as before, or as none if there are none yet.
abbrev pub IdsBefore : Option Stored → List String → Type 0
IdsBefore o ids = (o ≡ some (ids_json ids)) ⊎ ((o ≡ none) × (ids ≡ []))

abbrev pub WeightBefore : Option Stored → ℕ → Type 0
WeightBefore o w = (o ≡ some (weight_bytes w)) ⊎ ((o ≡ none) × (w ≡ 0))

pub add_id_lem :
    (r : Register) (st : Store) (m : Map String Stored) (ids : List String) (id : String)
    → Holds st r.name m
    → IdsBefore (lookup r.ids_key m) ids
    → (st' : Store) × (add_id st r.name r.ids_key id ≡ (st', none))
      × Becomes st r.name (insert r.ids_key (ids_json (ids ++ id ∷ [])) m) st'
unfolding add_id update_total_ids
add_id_lem r st m ids id h (inl there) =
    let e = exists_lem st r.name r.ids_key m h.1 r.ids_named in
    let g = get_state_data_lem st r.name r.ids_key m h.1 r.ids_named in
    let (st', w, b) = update_lem st r.name r.ids_key (ids_json (ids ++ id ∷ [])) m h r.ids_named in
    (st', rw (add_id, e, there) (rw (update_total_ids, g, there) w), b)
add_id_lem r st m ids id h (inr (missing, none_yet)) =
    let e = exists_lem st r.name r.ids_key m h.1 r.ids_named in
    let (st', w, b) = put_lem st r.name r.ids_key (ids_json (id ∷ [])) m h r.ids_named in
    (st', rw (add_id, e, missing) w, rw none_yet b)

pub add_weight_lem :
    (r : Register) (st : Store) (m : Map String Stored) (w v : ℕ)
    → Holds st r.name m
    → WeightBefore (lookup r.weight_key m) w
    → w + v < i64_sign
    → (st' : Store) × (add_weight st r.name r.weight_key v ≡ (st', none))
      × Becomes st r.name (insert r.weight_key (weight_bytes (w + v)) m) st'
unfolding add_weight update_total_weight
add_weight_lem r st m w v h (inl there) small =
    let e = exists_lem st r.name r.weight_key m h.1 r.weight_named in
    let g = get_state_data_lem st r.name r.weight_key m h.1 r.weight_named in
    let (st', p, b) = update_lem st r.name r.weight_key (weight_bytes (w + v)) m h r.weight_named in
    let sum : total_plus w v ≡ w + v = ground arith in
    (st', rw (add_weight, e, there) (rw (update_total_weight, g, there, sum) p), b)
add_weight_lem r st m w v h (inr (missing, zero)) small =
    let e = exists_lem st r.name r.weight_key m h.1 r.weight_named in
    let (st', p, b) = put_lem st r.name r.weight_key (weight_bytes v) m h r.weight_named in
    let sum : w + v ≡ v = omega (arith, zero) in (st', rw (add_weight, e, missing) p, rw sum b)

pub drop_id_lem :
    (r : Register) (st : Store) (m : Map String Stored) (ids : List String) (id : String)
    → Holds st r.name m
    → lookup r.ids_key m ≡ some (ids_json ids)
    → (st' : Store) × (drop_id st r.name r.ids_key id ≡ (st', none))
      × Becomes st r.name (insert r.ids_key (ids_json (remove_if_exist_string id ids)) m) st'
unfolding drop_id update_total_ids
drop_id_lem r st m ids id h there =
    let e = exists_lem st r.name r.ids_key m h.1 r.ids_named in
    let g = get_state_data_lem st r.name r.ids_key m h.1 r.ids_named in
    let (st', w, b) =
      update_lem st r.name r.ids_key (ids_json (remove_if_exist_string id ids)) m h r.ids_named in
    (st', rw (drop_id, e, there) (rw (update_total_ids, g, there) w), b)

pub update_total_weight_lem :
    (r : Register) (st : Store) (m : Map String Stored) (total delta : ℕ)
    → Holds st r.name m
    → lookup r.weight_key m ≡ some (weight_bytes total)
    → (st' : Store) × (update_total_weight st r.name r.weight_key delta ≡ (st', none))
      × Becomes st r.name (insert r.weight_key (weight_bytes (total_plus total delta)) m) st'
unfolding update_total_weight
update_total_weight_lem r st m total delta h there =
    let g = get_state_data_lem st r.name r.weight_key m h.1 r.weight_named in
    let (st', p, b) =
      update_lem st r.name r.weight_key (weight_bytes (total_plus total delta)) m h
        r.weight_named in
    (st', rw (update_total_weight, g, there) p, b)

pub drop_weight_lem :
    (r : Register) (st : Store) (m : Map String Stored) (total v : ℕ)
    → Holds st r.name m
    → lookup r.weight_key m ≡ some (weight_bytes total)
    → (st' : Store) × (drop_weight st r.name r.weight_key v ≡ (st', none))
      × Becomes st r.name (insert r.weight_key (weight_bytes (total_plus total (neg_u64 v))) m) st'
unfolding drop_weight
drop_weight_lem r st m total v h there =
    let e = exists_lem st r.name r.weight_key m h.1 r.weight_named in
    let (st', p, b) = update_total_weight_lem r st m total (neg_u64 v) h there in
    (st', rw (drop_weight, e, there) p, b)

-- The int64 arithmetic of a change of weight and of a removal, while the sums are below 2 ^ 63.
pub total_plus-change :
    (sum old new : ℕ)
    → old ≤ sum
    → sum < i64_sign
    → sum + new < i64_sign + old
    → total_plus sum (sub_u64 new old) + old ≡ sum + new
total_plus-change sum old new le small fits = ground arith

pub total_plus-removal :
    (sum old : ℕ) → old ≤ sum → sum < i64_sign → total_plus sum (neg_u64 old) + old ≡ sum
total_plus-removal sum old le small = ground arith
