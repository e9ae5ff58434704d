-- ===== src/Rpc/Filter/Tests.antt =====
-- Runs of the filter parser and of filters on messages (api/rpc/filter).
use topia.Base.{true, false, ◌≡◌, refl, none, List, [], ◌∷◌, arith}
use topia.Base.Bytes.{Bytes, codes, is_blank}
use topia.Rpc.Filter.Operator.{eq_op, gte_op, op_to_string}
use topia.Rpc.Filter.Values.{
  string_kind, b64, Fields, no_fields, leaf_field, string_leaf, uint_leaf,
}
use topia.Rpc.Filter.Parser.{Filter, filter_of, parsed, parse_filter_string}
use topia.Rpc.Filter.Parser.Terminates.{Decides, parse_filter_string-Decides}
use topia.Rpc.Filter.Parser.Printer.{Term, print_filter, condition_of, clauses_of}
use topia.Rpc.Filter.Parser.RoundTrip.{parse_filter_string-print}
use topia.Rpc.Filter.Numbers.{Readers}
use topia.Rpc.Filter.Validate.{new_filter}
use topia.Rpc.Filter.Sound.{IsUsable, new_filter-IsUsable}

abbrev event_name : Bytes
event_name = codes "txpool"

abbrev name_equals : Term
name_equals = record { field = codes "name"; operator = eq_op; text = codes "a b" }

abbrev size_at_least : Term
size_at_least = record { field = codes "size"; operator = gte_op; text = codes "12" }

abbrev sample : Fields
sample =
    leaf_field (codes "Name") (string_leaf [])
      (leaf_field (codes "Size") (uint_leaf b64 0) no_fields)

abbrev registry : List (Bytes × Fields)
registry = (event_name, sample) ∷ []

abbrev readers : Readers
readers = record {
  parse_float = λ size s. none;
  parse_time_stamp = λ s. none;
  parse_date = λ s. none;
}

abbrev message : Fields
message =
    leaf_field (codes "Name") (string_leaf (codes "x"))
      (leaf_field (codes "Size") (uint_leaf b64 40) no_fields)

abbrev trailing_filter : Filter
trailing_filter = record {
  event_name = event_name;
  clauses = (record (condition_of name_equals) { data_type = string_kind } ∷ []) ∷ [] ∷ [];
  direct_pass = false;
}

printed :
    print_filter name_equals ((true, size_at_least) ∷ []) ≡ codes "name = 'a b' or size >= '12'"
unfolding op_to_string
printed = refl

parse_filter_string-Decides_example :
    Decides event_name
      (is_blank (codes "name = '"))
      (parse_filter_string event_name (codes "name = '"))
parse_filter_string-Decides_example = parse_filter_string-Decides event_name (codes "name = '")

parse_filter_string-print_example :
    parse_filter_string event_name (print_filter name_equals ((true, size_at_least) ∷ []))
    ≡ parsed (
        filter_of event_name
          (clauses_of [] (condition_of name_equals ∷ []) ((true, size_at_least) ∷ [])))
parse_filter_string-print_example =
    parse_filter_string-print event_name name_equals ((true, size_at_least) ∷ []) (ground arith)
      (ground arith)

new_filter-IsUsable_example :
    IsUsable (new_filter registry readers event_name (codes "size >= '12'"))
new_filter-IsUsable_example = new_filter-IsUsable registry readers event_name (codes "size >= '12'")
