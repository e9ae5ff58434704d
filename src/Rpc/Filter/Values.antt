-- ===== src/Rpc/Filter/Values.antt =====
-- What reflection sees of an event message's data (the `reflect` values of
-- api/rpc/filter/condition.go): kinds, field values and structs.
use topia.Base.{ℕ, Bool, true, false}
use topia.Base.Bytes.{Bytes}
pub use topia.Base.Int.{ℤ, pos, negsuc, equal_ℤ, ltb_ℤ}

-- A float by its sign and magnitude bits read as an integer, which orders as the values do.
pub data Float : Type 0 where
  not_a_number : Float
  real : ℤ → Float

abbrev pub equal_float : Float → Float → Bool
equal_float not_a_number y = false
equal_float (real a) not_a_number = false
equal_float (real a) (real b) = equal_ℤ a b

abbrev pub ltb_float : Float → Float → Bool
ltb_float not_a_number y = false
ltb_float (real a) not_a_number = false
ltb_float (real a) (real b) = ltb_ℤ a b

-- int8, int16, int32, int64 and int; likewise of uint and float.
pub data Size : Type 0 where
  b8 : Size
  b16 : Size
  b32 : Size
  b64 : Size
  word : Size

abbrev pub equal_size : Size → Size → Bool
equal_size b8 b8 = true
equal_size b16 b16 = true
equal_size b32 b32 = true
equal_size b64 b64 = true
equal_size word word = true
equal_size _ _ = false

-- `slice_kind` also covers slices of other elements than bytes.
pub data Kind : Type 0 where
  invalid_kind : Kind
  int_kind : Size → Kind
  uint_kind : Size → Kind
  float_kind : Size → Kind
  string_kind : Kind
  slice_kind : Kind
  other_kind : Kind

abbrev pub equal_kind : Kind → Kind → Bool
equal_kind invalid_kind invalid_kind = true
equal_kind (int_kind a) (int_kind b) = equal_size a b
equal_kind (uint_kind a) (uint_kind b) = equal_size a b
equal_kind (float_kind a) (float_kind b) = equal_size a b
equal_kind string_kind string_kind = true
equal_kind slice_kind slice_kind = true
equal_kind other_kind other_kind = true
equal_kind _ _ = false

-- A field that holds no struct: its value at its kind.
pub data Leaf : Type 0 where
  int_leaf : Size → ℤ → Leaf
  uint_leaf : Size → ℕ → Leaf
  float_leaf : Size → Float → Leaf
  string_leaf : Bytes → Leaf
  bytes_leaf : Bytes → Leaf
  slice_leaf : Leaf
  other_leaf : Leaf

abbrev pub kind_of : Leaf → Kind
kind_of (int_leaf s z) = int_kind s
kind_of (uint_leaf s n) = uint_kind s
kind_of (float_leaf s f) = float_kind s
kind_of (string_leaf b) = string_kind
kind_of (bytes_leaf b) = slice_kind
kind_of slice_leaf = slice_kind
kind_of other_leaf = other_kind

-- The fields of a struct in order: `inner_field` is a struct or a pointer to one.
pub data Fields : Type 0 where
  no_fields : Fields
  leaf_field : Bytes → Leaf → Fields → Fields
  inner_field : Bytes → Fields → Fields → Fields
