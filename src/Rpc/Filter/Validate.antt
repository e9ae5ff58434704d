-- ===== src/Rpc/Filter/Validate.antt =====
-- The completion and the check of the conditions of a filter, and its answer on a message
-- (api/rpc/filter/filter.go).
use topia.Base.{ℕ, Bool, true, false, not, Option, none, some, List, [], ◌∷◌, if◌then◌else◌}
use topia.Base.Words.{add_u64}
use topia.Base.Bytes.{Bytes, codes, contains}
use topia.Rpc.Filter.Operator.{
  Operator, eq_op, ne_op, gt_op, gte_op, contains_op, exists_op, is_exists, is_legal,
}
use topia.Rpc.Filter.Values.{
  b64, Fields, Kind, int_kind, uint_kind, float_kind, string_kind, slice_kind,
}
use topia.Rpc.Filter.Parser.{
  Data, string_data, int_data, uint_data, float_data, bytes_data, Condition, Filter, ParseResult,
  parsed, refused, ParseError, parse_filter_string,
}
use topia.Rpc.Filter.Event.{is_valid_field_name}
use topia.Rpc.Filter.Numbers.{Readers, parse_int, parse_uint}
use topia.Rpc.Filter.Condition.{pass, as_string}

pub data ConditionError : Type 0 where
  invalid_field_name : ConditionError
  illegal_operator : ConditionError
  unexpected_data : ConditionError
  unreadable : ConditionError
  unsupported : ConditionError

pub data Completed {ℓ} (A : Type ℓ) : Type ℓ where
  completes : A → Completed A
  fails : ConditionError → Completed A

-- `not_returned` stands for a parse that panics or goes on.
pub data FilterResult : Type 0 where
  built : Filter → FilterResult
  bad_text : ParseError → FilterResult
  bad_condition : ConditionError → FilterResult
  not_returned : FilterResult

abbrev pub read_as {ℓ} : {A : Type ℓ} → (A → Data) → Bool → Option A → Completed Data
read_as make ok none = fails unreadable
read_as make true (some a) = completes (make a)
read_as make false (some a) = fails unsupported

abbrev pub not_contains : Operator → Bool
not_contains contains_op = false
not_contains exists_op = false
not_contains _ = true

abbrev pub text_operator : Operator → Bool
text_operator eq_op = true
text_operator ne_op = true
text_operator contains_op = true
text_operator _ = false

-- 24 hours less a millisecond, in nanoseconds.
abbrev rest_of_day : ℕ
rest_of_day = 86399999000000

-- The end of the day for `>` and `>=`, its start for the other comparisons, in uint64.
abbrev pub date_for : Operator → ℕ → ℕ
date_for gt_op day = add_u64 day rest_of_day
date_for gte_op day = add_u64 day rest_of_day
date_for _ day = day

abbrev pub timestamp : Bytes
timestamp = codes "timestamp"

-- A date that is read, where the text is no time.
abbrev pub date_or_fail : Operator → Option ℕ → Completed Data
date_or_fail op none = fails unreadable
date_or_fail op (some day) = completes (uint_data b64 (date_for op day))

abbrev pub time_or_date : Operator → Option ℕ → Option ℕ → Completed Data
time_or_date op (some nanos) date = completes (uint_data b64 nanos)
time_or_date op none date = date_or_fail op date

abbrev pub completed_with : Condition → Kind → Completed Data → Completed Condition
completed_with c kind (fails e) = fails e
completed_with c kind (completes d) =
    completes (record { field = c.field; operator = c.operator; data_value = d; data_type = kind })

abbrev pub completed_before {ℓ} : {A : Type ℓ} → A → Completed (List A) → Completed (List A)
completed_before a (fails e) = fails e
completed_before a (completes rest) = completes (a ∷ rest)

abbrev pub completed_filter : Filter → Completed (List (List Condition)) → FilterResult
completed_filter f (fails e) = bad_condition e
completed_filter f (completes clauses) =
    built (record { event_name = f.event_name; clauses = clauses; direct_pass = f.direct_pass })

module _ (registry : List (Bytes × Fields)) (readers : Readers) where
  abbrev pub complete_uint64 : Operator → Bytes → Bytes → Completed Data
  complete_uint64 op field text =
      if not_contains op
      then if contains field timestamp
        then time_or_date op (readers.parse_time_stamp text) (readers.parse_date text)
        else read_as (uint_data b64) true (parse_uint b64 text)
      else fails unsupported

  -- The switch on the kind of the field.
  unfoldable pub complete_data : Operator → Bytes → Bytes → Kind → Completed Data
  complete_data op field text (int_kind s) =
      read_as (int_data s) (not_contains op) (parse_int s text)
  complete_data op field text (uint_kind b64) = complete_uint64 op field text
  complete_data op field text (uint_kind s) =
      read_as (uint_data s) (not_contains op) (parse_uint s text)
  complete_data op field text (float_kind s) =
      read_as (float_data s) (not_contains op) (readers.parse_float s text)
  complete_data op field text string_kind =
      if text_operator op then completes (string_data text) else fails unsupported
  complete_data op field text slice_kind =
      if text_operator op then completes (bytes_data text) else fails unsupported
  complete_data op field text _ = fails unsupported

  abbrev pub complete_known : Condition → Kind → Completed Condition
  complete_known c kind =
      if not (is_legal c.operator)
      then fails illegal_operator
      else if is_exists c.operator
      then completes c
      else elim (as_string c.data_value) [
        | none ↦ fails unexpected_data
        | some text ↦ completed_with c kind (complete_data c.operator c.field text kind)
      ]

  unfoldable pub complete_condition : Bytes → Condition → Completed Condition
  complete_condition event c = elim (is_valid_field_name registry event c.field) [
    | none ↦ fails invalid_field_name
    | some kind ↦ complete_known c kind
  ]

  -- The loops over the conditions of a clause and over the clauses stop at the first error.
  unfoldable pub complete_clause : Bytes → List Condition → Completed (List Condition)
  complete_clause event [] = completes []
  complete_clause event (c ∷ cs) =
      let rest = complete_clause event cs in
      elim (complete_condition event c) [
        | fails e ↦ fails e
        | completes c' ↦ completed_before c' rest
      ]

  unfoldable pub complete_clauses :
      Bytes → List (List Condition) → Completed (List (List Condition))
  complete_clauses event [] = completes []
  complete_clauses event (clause ∷ clauses) =
      let rest = complete_clauses event clauses in
      elim (complete_clause event clause) [
        | fails e ↦ fails e
        | completes clause' ↦ completed_before clause' rest
      ]

  abbrev pub complete_parsed : ParseResult → FilterResult
  complete_parsed (parsed f) = completed_filter f (complete_clauses f.event_name f.clauses)
  complete_parsed (refused e) = bad_text e
  complete_parsed _ = not_returned

  unfoldable pub new_filter : Bytes → Bytes → FilterResult
  new_filter event s = complete_parsed (parse_filter_string event s)

-- Pass: any clause of which every condition passes.
unfoldable pub clause_passes : List Condition → Fields → Option Bool
clause_passes [] msg = some true
clause_passes (c ∷ cs) msg =
    let rest = clause_passes cs msg in
    elim (pass c msg) [ none ↦ none | some false ↦ some false | some true ↦ rest ]

unfoldable pub any_passes : List (List Condition) → Fields → Option Bool
any_passes [] msg = some false
any_passes (clause ∷ clauses) msg =
    let rest = any_passes clauses msg in
    elim (clause_passes clause msg) [ none ↦ none | some true ↦ some true | some false ↦ rest ]

unfoldable pub filter_passes : Filter → Fields → Option Bool
filter_passes f msg =
    let some_clause = any_passes f.clauses msg in if f.direct_pass then some true else some_clause
