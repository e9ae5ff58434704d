-- ===== src/Rpc/Filter/Parser.antt =====
-- The parser of filter strings (api/rpc/filter/parser.go), a loop over steps. A filter string is a
-- list of bytes; the filter is a disjunction of clauses, each a conjunction of conditions.
pub mod Tokens
pub mod Rounds
pub mod Peeks
pub mod Yields
pub mod Printer
pub mod Reads
pub mod RoundTrip
pub mod Terminates
use topia.Base.{
  ℕ, zero, suc, ◌+◌, ◌*◌, Bool, true, false, ◌&&◌, ◌||◌, not, Option, none, some, List, [], ◌∷◌,
  ◌++◌, leb, ◌=?◌, if◌then◌else◌, length, drop,
}
use topia.Base.Bytes.{Bytes, codes, equal_bytes, starts_with, to_lower, is_blank}
use topia.Rpc.Filter.Operator.{Operator, unknown_operator, is_exists, reserved_signs, string_to_op}
use topia.Rpc.Filter.Values.{Size, ℤ, Float, Kind, invalid_kind}

-- The dynamic value of a condition's data.
pub data Data : Type 0 where
  nil_data : Data
  string_data : Bytes → Data
  int_data : Size → ℤ → Data
  uint_data : Size → ℕ → Data
  float_data : Size → Float → Data
  bytes_data : Bytes → Data

pub record Condition : Type 0 where
  pub field : Bytes
  pub operator : Operator
  pub data_value : Data
  pub data_type : Kind

pub record Filter : Type 0 where
  pub event_name : Bytes
  pub clauses : List (List Condition)
  pub direct_pass : Bool

pub data Step : Type 0 where
  step_start : Step
  step_field_name : Step
  step_operator : Step
  step_data : Step
  step_logic_op : Step

pub record Parser : Type 0 where
  pub step : Step
  pub i : ℕ
  pub filter_string : Bytes

abbrev pub remaining : Parser → Bytes
remaining p = drop p.i p.filter_string

abbrev pub quote : ℕ
quote = 39

abbrev pub backslash : ℕ
backslash = 92

abbrev pub space : ℕ
space = 32

-- The sign at the start of the text, if there is one: the first of the list that fits.
unfoldable pub reserved_at : List Bytes → Bytes → Option Bytes
reserved_at [] s = none
reserved_at (word ∷ words) s =
    let other = reserved_at words s in if starts_with word s then some word else other

-- What stands before the next quote that no backslash precedes; `before` is the byte before.
unfoldable pub quoted : ℕ → Bytes → Option Bytes
quoted before [] = none
quoted before (c ∷ s) =
    let inner = quoted c s in
    if (c =? quote) && not (before =? backslash)
    then some []
    else elim inner [ none ↦ none | some text ↦ some (c ∷ text) ]

unfoldable pub peek_quoted_string_with_length : Bytes → Bytes × ℕ
peek_quoted_string_with_length [] = ([], 0)
peek_quoted_string_with_length (c ∷ s) =
    if c =? quote
    then elim (quoted c s) [ none ↦ ([], 0) | some text ↦ (text, length text + 2) ]
    else ([], 0)

-- The bytes before the next space or reserved sign.
unfoldable pub to_next_space_or_reserved_sign : Bytes → Bytes
to_next_space_or_reserved_sign [] = []
to_next_space_or_reserved_sign (c ∷ s) =
    let further = to_next_space_or_reserved_sign s in
    if c =? space
    then []
    else elim (reserved_at reserved_signs (c ∷ s)) [ some word ↦ [] | none ↦ c ∷ further ]

unfoldable pub peek_to_next_space_or_reserved_sign : Bytes → Bytes × ℕ
peek_to_next_space_or_reserved_sign s =
    (to_next_space_or_reserved_sign s, length (to_next_space_or_reserved_sign s))

abbrev starts_quoted : Bytes → Bool
starts_quoted [] = false
starts_quoted (c ∷ s) = c =? quote

unfoldable pub peek_with_length : Parser → Bytes × ℕ
peek_with_length p =
    if leb (length p.filter_string) p.i
    then ([], 0)
    else elim (reserved_at reserved_signs (remaining p)) [
      | some word ↦ (word, length word)
      | none ↦
          if starts_quoted (remaining p)
          then peek_quoted_string_with_length (remaining p)
          else peek_to_next_space_or_reserved_sign (remaining p)
    ]

abbrev pub peek : Parser → Bytes
peek p = (peek_with_length p).0

-- How many spaces the text starts with.
unfoldable pub leading_spaces : Bytes → ℕ
leading_spaces [] = 0
leading_spaces (c ∷ s) = let more = leading_spaces s in if c =? space then suc more else 0

abbrev pub pop_whitespace : Parser → Parser
pop_whitespace p = record {
  step = p.step;
  i = p.i + leading_spaces (remaining p);
  filter_string = p.filter_string;
}

abbrev pub pop : Parser → Parser
pop p =
    pop_whitespace
      (record { step = p.step; i = p.i + (peek_with_length p).1; filter_string = p.filter_string })

abbrev pub at_step : Step → Parser → Parser
at_step s p = record { step = s; i = p.i; filter_string = p.filter_string }

pub data ParseError : Type 0 where
  illegal_operator : Bytes → ParseError
  illegal_logic_operator : Bytes → ParseError

-- `panicked` is an index out of range, `unfinished` a loop that used up its rounds.
pub data ParseResult : Type 0 where
  parsed : Filter → ParseResult
  refused : ParseError → ParseResult
  panicked : ParseResult
  unfinished : ParseResult

abbrev pub new_condition : Bytes → Condition
new_condition name = record {
  field = name;
  operator = unknown_operator;
  data_value = nil_data;
  data_type = invalid_kind;
}

-- f.clauses[len(f.clauses)-1] = change(f.clauses[len(f.clauses)-1])
unfoldable pub at_last {ℓ} : {A : Type ℓ} → (A → Option A) → List A → Option (List A)
at_last change [] = none
at_last change (x ∷ []) = elim (change x) [ none ↦ none | some y ↦ some (y ∷ []) ]
at_last change (x ∷ y ∷ ys) = elim (at_last change (y ∷ ys)) [
  | none ↦ none
  | some rest ↦ some (x ∷ rest)
]

abbrev pub add_condition : Bytes → List (List Condition) → Option (List (List Condition))
add_condition name = at_last (λ clause. some (clause ++ (new_condition name ∷ [])))

abbrev pub set_operator : Operator → List (List Condition) → Option (List (List Condition))
set_operator op = at_last (
    at_last λ (c : Condition). some (record {
      field = c.field;
      operator = op;
      data_value = c.data_value;
      data_type = c.data_type;
    }))

abbrev pub set_data : Bytes → List (List Condition) → Option (List (List Condition))
set_data text = at_last (
    at_last λ (c : Condition). some (record {
      field = c.field;
      operator = c.operator;
      data_value = string_data text;
      data_type = c.data_type;
    }))

-- What a round of the loop does: it returns, or goes on with the parser and the clauses.
pub data Round : Type 0 where
  returns : ParseResult → Round
  continues : Parser → List (List Condition) → Round

abbrev pub go_on : Parser → Option (List (List Condition)) → Round
go_on p none = returns panicked
go_on p (some clauses) = continues p clauses

abbrev pub after_operator : Operator → Step
after_operator op = if is_exists op then step_logic_op else step_data

abbrev pub take_operator : Parser → List (List Condition) → Bytes → Option Operator → Round
take_operator p clauses word none = returns (refused (illegal_operator word))
take_operator p clauses word (some op) =
    go_on (at_step (after_operator op) (pop p)) (set_operator op clauses)

unfoldable pub operator_round : Parser → List (List Condition) → Round
operator_round p clauses =
    let word = to_lower (peek p) in take_operator p clauses word (string_to_op word)

abbrev pub or_word : Bytes
or_word = codes "or"

abbrev pub and_word : Bytes
and_word = codes "and"

abbrev pub take_logic : Parser → List (List Condition) → Bytes → Round
take_logic p clauses word =
    if equal_bytes word or_word
    then continues (at_step step_field_name (pop p)) (clauses ++ ([] ∷ []))
    else if equal_bytes word and_word
    then continues (at_step step_field_name (pop p)) clauses
    else returns (refused (illegal_logic_operator word))

unfoldable pub logic_round : Parser → List (List Condition) → Round
logic_round p clauses = take_logic p clauses (to_lower (peek p))

unfoldable pub step_round : Parser → List (List Condition) → Step → Round
step_round p clauses step_start = continues (at_step step_field_name p) clauses
step_round p clauses step_field_name =
    go_on (at_step step_operator (pop p)) (add_condition (to_lower (peek p)) clauses)
step_round p clauses step_operator = operator_round p clauses
step_round p clauses step_data = go_on (at_step step_logic_op (pop p)) (set_data (peek p) clauses)
step_round p clauses step_logic_op = logic_round p clauses

abbrev pub filter_of : Bytes → List (List Condition) → Filter
filter_of name clauses = record { event_name = name; clauses = clauses; direct_pass = false }

unfoldable pub parse_loop : Bytes → ℕ → Parser → List (List Condition) → ParseResult
parse_loop name zero p clauses = unfinished
parse_loop name (suc rounds) p clauses =
    if leb (length p.filter_string) p.i
    then parsed (filter_of name clauses)
    else elim (step_round p clauses p.step) [
      | returns result ↦ result
      | continues p' clauses' ↦ parse_loop name rounds p' clauses'
    ]

abbrev pub round_limit : Bytes → ℕ
round_limit s = 4 * length s + 4

unfoldable pub parse_filter_string : Bytes → Bytes → ParseResult
parse_filter_string name s =
    if is_blank s
    then parsed (record { event_name = name; clauses = []; direct_pass = true })
    else parse_loop name (round_limit s)
        (pop_whitespace (record { step = step_start; i = 0; filter_string = s })) ([] ∷ [])
