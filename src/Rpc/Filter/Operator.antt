-- ===== src/Rpc/Filter/Operator.antt =====
-- The operators of filter conditions (api/rpc/filter/operator.go).
use topia.Base.{String, Bool, true, false, Option, none, some, List, [], ◌∷◌, if◌then◌else◌}
use topia.Base.Bytes.{Bytes, codes, equal_bytes}

pub data Operator : Type 0 where
  unknown_operator : Operator
  eq_op : Operator
  ne_op : Operator
  gt_op : Operator
  lt_op : Operator
  gte_op : Operator
  lte_op : Operator
  contains_op : Operator
  exists_op : Operator

abbrev pub is_legal : Operator → Bool
is_legal unknown_operator = false
is_legal eq_op = true
is_legal ne_op = true
is_legal gt_op = true
is_legal lt_op = true
is_legal gte_op = true
is_legal lte_op = true
is_legal contains_op = true
is_legal exists_op = true

-- op == Exists
abbrev pub is_exists : Operator → Bool
is_exists exists_op = true
is_exists _ = false

abbrev sign : String → Bytes
sign = codes

abbrev pub reserved_signs : List Bytes
reserved_signs = sign ">=" ∷ sign "<=" ∷ sign "!=" ∷ sign "=" ∷ sign ">" ∷ sign "<" ∷ []

unfoldable pub string_to_op : Bytes → Option Operator
string_to_op s =
    if equal_bytes s (sign "=")
    then some eq_op
    else if equal_bytes s (sign "!=")
    then some ne_op
    else if equal_bytes s (sign ">")
    then some gt_op
    else if equal_bytes s (sign "<")
    then some lt_op
    else if equal_bytes s (sign ">=")
    then some gte_op
    else if equal_bytes s (sign "<=")
    then some lte_op
    else if equal_bytes s (sign "contains")
    then some contains_op
    else if equal_bytes s (sign "exists")
    then some exists_op
    else none

-- A missing key of the map reads as the empty string.
unfoldable pub op_to_string : Operator → Bytes
op_to_string unknown_operator = []
op_to_string eq_op = sign "="
op_to_string ne_op = sign "!="
op_to_string gt_op = sign ">"
op_to_string lt_op = sign "<"
op_to_string gte_op = sign ">="
op_to_string lte_op = sign "<="
op_to_string contains_op = sign "contains"
op_to_string exists_op = sign "exists"
