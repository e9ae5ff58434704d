-- ===== src/Rpc/Filter/Event.antt =====
-- The fields that conditions may name (api/rpc/filter/event.go): the registry holds a sample of each
-- event's data.
use topia.Base.{Bool, true, false, ◌&&◌, not, Option, none, some, List, [], ◌∷◌, if◌then◌else◌}
use topia.Base.Bytes.{Bytes, equal_bytes, to_lower}
use topia.Rpc.Filter.Values.{
  Leaf, Fields, Kind, kind_of, no_fields, leaf_field, inner_field, slice_leaf,
}

abbrev pub is_foreign_slice : Leaf → Bool
is_foreign_slice slice_leaf = true
is_foreign_slice _ = false

-- The kind of the first field of the name; slices of other elements than bytes are passed over.
unfoldable pub find_field_name : Fields → Bytes → Option Kind
find_field_name no_fields name = none
find_field_name (inner_field n inner rest) name = find_field_name inner name
find_field_name (leaf_field n leaf rest) name =
    let further = find_field_name rest name in
    if equal_bytes (to_lower n) name && not (is_foreign_slice leaf)
    then some (kind_of leaf)
    else further

unfoldable pub find_event : List (Bytes × Fields) → Bytes → Option Fields
find_event [] name = none
find_event ((n, sample) ∷ registry) name =
    let further = find_event registry name in if equal_bytes n name then some sample else further

unfoldable pub is_valid_field_name : List (Bytes × Fields) → Bytes → Bytes → Option Kind
is_valid_field_name registry event name = elim (find_event registry event) [
  | none ↦ none
  | some sample ↦ find_field_name sample (to_lower name)
]
