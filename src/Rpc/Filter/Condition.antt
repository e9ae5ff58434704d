-- ===== src/Rpc/Filter/Condition.antt =====
-- Conditions on the fields of an event message's data (api/rpc/filter/condition.go). A result is
-- `none` where the source panics, at a type assertion on the condition's data.
use topia.Base.{ℕ, Bool, true, false, ◌||◌, not, Option, none, some, if◌then◌else◌, ltb, ◌=?◌}
use topia.Base.Bytes.{Bytes, equal_bytes, contains, to_lower}
use topia.Rpc.Filter.Operator.{
  Operator, eq_op, ne_op, gt_op, lt_op, gte_op, lte_op, contains_op, is_exists,
}
use topia.Rpc.Filter.Values.{
  ℤ, Float, Size, Leaf, Fields, equal_ℤ, ltb_ℤ, equal_float, ltb_float, equal_size, equal_kind,
  kind_of, no_fields, leaf_field, inner_field, int_leaf, uint_leaf, float_leaf, string_leaf,
  bytes_leaf, slice_leaf, other_leaf,
}
use topia.Rpc.Filter.Parser.{
  Data, string_data, int_data, uint_data, float_data, bytes_data, Condition,
}

-- The switch on the operator for numbers, given the three comparisons.
unfoldable pub compares : Operator → (equal less greater : Bool) → Bool
compares eq_op equal less greater = equal
compares ne_op equal less greater = not equal
compares gt_op equal less greater = greater
compares lt_op equal less greater = less
compares gte_op equal less greater = greater || equal
compares lte_op equal less greater = less || equal
compares _ equal less greater = false

-- The switch for strings and byte slices.
unfoldable pub compares_text : Operator → Bytes → Bytes → Bool
compares_text eq_op value text = equal_bytes value text
compares_text ne_op value text = not (equal_bytes value text)
compares_text contains_op value text = contains value text
compares_text _ value text = false

-- c.data.(int8) and its like: a value of the dynamic type asserted.
abbrev pub as_int : Size → Data → Option ℤ
as_int s (int_data s' z) = if equal_size s s' then some z else none
as_int s _ = none

abbrev pub as_uint : Size → Data → Option ℕ
as_uint s (uint_data s' n) = if equal_size s s' then some n else none
as_uint s _ = none

abbrev pub as_float : Size → Data → Option Float
as_float s (float_data s' f) = if equal_size s s' then some f else none
as_float s _ = none

abbrev pub as_string : Data → Option Bytes
as_string (string_data b) = some b
as_string _ = none

abbrev pub as_bytes : Data → Option Bytes
as_bytes (bytes_data b) = some b
as_bytes _ = none

-- What a field of the condition's name and kind gives: an answer, a panic, or the next field.
pub data Verdict : Type 0 where
  answers : Bool → Verdict
  panics : Verdict
  next_field : Verdict

abbrev pub answer_by {ℓ} : {A : Type ℓ} → (A → Bool) → Option A → Verdict
answer_by test none = panics
answer_by test (some a) = answers (test a)

-- The switch on the kind; a default case answers before the data is asserted.
unfoldable pub numeric : Operator → Bool
numeric eq_op = true
numeric ne_op = true
numeric gt_op = true
numeric lt_op = true
numeric gte_op = true
numeric lte_op = true
numeric _ = false

unfoldable pub textual : Operator → Bool
textual eq_op = true
textual ne_op = true
textual contains_op = true
textual _ = false

abbrev pub when : Bool → Verdict → Verdict
when true v = v
when false v = answers false

unfoldable pub check_leaf : Operator → Data → Leaf → Verdict
check_leaf op d (int_leaf s value) =
    when (numeric op)
      (answer_by (λ z. compares op (equal_ℤ value z) (ltb_ℤ value z) (ltb_ℤ z value)) (as_int s d))
check_leaf op d (uint_leaf s value) =
    when (numeric op)
      (answer_by (λ n. compares op (value =? n) (ltb value n) (ltb n value)) (as_uint s d))
check_leaf op d (float_leaf s value) = when (numeric op) (
    answer_by (λ f. compares op (equal_float value f) (ltb_float value f) (ltb_float f value))
      (as_float s d))
check_leaf op d (string_leaf value) =
    when (textual op) (answer_by (compares_text op value) (as_string d))
check_leaf op d (bytes_leaf value) =
    when (textual op) (answer_by (compares_text op value) (as_bytes d))
check_leaf op d slice_leaf = next_field
check_leaf op d other_leaf = next_field

-- A field of the condition's name.
unfoldable pub check_field : Condition → Leaf → Verdict
check_field c leaf =
    if is_exists c.operator
    then answers true
    else if equal_kind (kind_of leaf) c.data_type
    then check_leaf c.operator c.data_value leaf
    else next_field

abbrev pub settle : Verdict → Option Bool → Option Bool
settle (answers b) further = some b
settle panics further = none
settle next_field further = further

-- The loop over the fields; at a struct, or a pointer to one, it returns what the struct gives.
unfoldable pub pass : Condition → Fields → Option Bool
pass c no_fields = some false
pass c (inner_field name inner rest) = pass c inner
pass c (leaf_field name leaf rest) =
    let further = pass c rest in
    if equal_bytes (to_lower name) c.field then settle (check_field c leaf) further else further
