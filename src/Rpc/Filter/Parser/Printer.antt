-- ===== src/Rpc/Filter/Parser/Printer.antt =====
-- Filters written out for the parser (api/rpc/filter/parser.go), and the tokens that it peeks at.
use topia.Base.{
  ℕ, ◌≡◌, refl, ap, ◌∙◌, Bool, true, false, some, List, [], ◌∷◌, ◌++◌, arith, leb, ◌=?◌,
  if◌then◌else◌, length, drop, All,
}
use topia.Base.Bytes.{Bytes, starts_with, to_lower, equal_bytes}
use topia.Rpc.Filter.Operator.{
  Operator, unknown_operator, eq_op, ne_op, gt_op, lt_op, gte_op, lte_op, contains_op, exists_op,
  is_legal, is_exists, reserved_signs, string_to_op, op_to_string,
}
use topia.Rpc.Filter.Values.{invalid_kind}
use topia.Rpc.Filter.Parser.{
  Data, nil_data, string_data, Condition, Parser, remaining, quote, space, reserved_at,
  peek_with_length, leading_spaces, or_word, and_word,
}
use topia.Rpc.Filter.Parser.Peeks.{IsWord, is_plain, breaks, more_left, peek_word}

-- A condition as its author writes it.
pub record Term : Type 0 where
  pub field : Bytes
  pub operator : Operator
  pub text : Bytes

-- field operator 'text', and nothing after `exists`.
abbrev pub print_term : Term → Bytes → Bytes
print_term t rest =
    t.field
    ++ (space
        ∷ (op_to_string t.operator
            ++ (if is_exists t.operator
                then rest
                else space ∷ (quote ∷ (t.text ++ (quote ∷ rest))))))

-- The connector that stands before a term: `true` is or, `false` is and.
abbrev pub connector : Bool → Bytes
connector true = or_word
connector false = and_word

abbrev pub print_more : List (Bool × Term) → Bytes
print_more [] = []
print_more ((is_or, t) ∷ more) =
    space ∷ (connector is_or ++ (space ∷ print_term t (print_more more)))

abbrev pub print_filter : Term → List (Bool × Term) → Bytes
print_filter t more = print_term t (print_more more)

abbrev pub condition_with : Bytes → Operator → Data → Condition
condition_with word op d = record {
  field = word;
  operator = op;
  data_value = d;
  data_type = invalid_kind;
}

abbrev pub condition_of : Term → Condition
condition_of t =
    condition_with t.field t.operator
      (if is_exists t.operator then nil_data else string_data t.text)

-- `or` starts a clause, `and` continues the last one.
abbrev pub clauses_of :
    List (List Condition) → List Condition → List (Bool × Term) → List (List Condition)
clauses_of front clause [] = front ++ (clause ∷ [])
clauses_of front clause ((true, t) ∷ more) =
    clauses_of (front ++ (clause ∷ [])) (condition_of t ∷ []) more
clauses_of front clause ((false, t) ∷ more) =
    clauses_of front (clause ++ (condition_of t ∷ [])) more

-- Fields are words, operators are known and texts have neither a quote nor a backslash.
abbrev pub IsPrintable : Term → Type 0
IsPrintable t = IsWord t.field × (is_legal t.operator ≡ true) × All (λ c. is_plain c ≡ true) t.text

abbrev pub starts_dark : Bytes → Bool
starts_dark [] = true
starts_dark (c ∷ s) = if c =? space then false else true

pub no_spaces : (s : Bytes) → starts_dark s ≡ true → drop (leading_spaces s) s ≡ s
unfolding leading_spaces
no_spaces [] d = refl
no_spaces (c ∷ s) d = ground arith

pub one_space :
    (s : Bytes) → starts_dark s ≡ true → drop (leading_spaces (space ∷ s)) (space ∷ s) ≡ s
unfolding leading_spaces
one_space s d = no_spaces s d

pub operator_dark :
    (op : Operator) (s : Bytes) → is_legal op ≡ true → starts_dark (op_to_string op ++ s) ≡ true
unfolding op_to_string
operator_dark unknown_operator s h = ground arith
operator_dark eq_op s h = refl
operator_dark ne_op s h = refl
operator_dark gt_op s h = refl
operator_dark lt_op s h = refl
operator_dark gte_op s h = refl
operator_dark lte_op s h = refl
operator_dark contains_op s h = refl
operator_dark exists_op s h = refl

pub operator_read_back :
    (op : Operator) → is_legal op ≡ true → string_to_op (to_lower (op_to_string op)) ≡ some op
unfolding op_to_string string_to_op equal_bytes
operator_read_back unknown_operator h = ground arith
operator_read_back eq_op h = refl
operator_read_back ne_op h = refl
operator_read_back gt_op h = refl
operator_read_back lt_op h = refl
operator_read_back gte_op h = refl
operator_read_back lte_op h = refl
operator_read_back contains_op h = refl
operator_read_back exists_op h = refl

peek_sign :
    (p : Parser) (op : Operator) (c : ℕ) (s rest : Bytes)
    → op_to_string op ≡ c ∷ s
    → reserved_at reserved_signs (op_to_string op ++ rest) ≡ some (op_to_string op)
    → remaining p ≡ op_to_string op ++ rest
    → peek_with_length p ≡ (op_to_string op, length (op_to_string op))
unfolding peek_with_length
peek_sign p op c s rest shape found e =
    rw (more_left p c (s ++ rest) (e ∙ ap (λ word. word ++ rest) shape), e, found) refl

pub peek_operator :
    (p : Parser) (op : Operator) (rest : Bytes)
    → is_legal op ≡ true
    → breaks rest ≡ true
    → remaining p ≡ op_to_string op ++ rest
    → peek_with_length p ≡ (op_to_string op, length (op_to_string op))
unfolding op_to_string reserved_at starts_with
peek_operator p unknown_operator rest h b e = ground arith
peek_operator p eq_op rest h b e = peek_sign p eq_op _ _ rest refl refl e
peek_operator p ne_op rest h b e = peek_sign p ne_op _ _ rest refl refl e
peek_operator p gt_op [] h b e = peek_sign p gt_op _ _ [] refl refl e
peek_operator p gt_op (c ∷ rest) h b e = peek_sign p gt_op _ _ (c ∷ rest) refl (ground arith) e
peek_operator p lt_op [] h b e = peek_sign p lt_op _ _ [] refl refl e
peek_operator p lt_op (c ∷ rest) h b e = peek_sign p lt_op _ _ (c ∷ rest) refl (ground arith) e
peek_operator p gte_op rest h b e = peek_sign p gte_op _ _ rest refl refl e
peek_operator p lte_op rest h b e = peek_sign p lte_op _ _ rest refl refl e
peek_operator p contains_op rest h b e =
    peek_word p (op_to_string contains_op) rest (ground arith) b e
peek_operator p exists_op rest h b e = peek_word p (op_to_string exists_op) rest (ground arith) b e

pub operator_left :
    (p : Parser) (op : Operator) (rest : Bytes)
    → is_legal op ≡ true
    → remaining p ≡ op_to_string op ++ rest
    → leb (length p.filter_string) p.i ≡ false
unfolding op_to_string
operator_left p unknown_operator rest h e = ground arith
operator_left p eq_op rest h e = more_left p _ _ e
operator_left p ne_op rest h e = more_left p _ _ e
operator_left p gt_op rest h e = more_left p _ _ e
operator_left p lt_op rest h e = more_left p _ _ e
operator_left p gte_op rest h e = more_left p _ _ e
operator_left p lte_op rest h e = more_left p _ _ e
operator_left p contains_op rest h e = more_left p _ _ e
operator_left p exists_op rest h e = more_left p _ _ e

pub word_dark : (word s : Bytes) → IsWord word → starts_dark (word ++ s) ≡ true
word_dark [] s w = absurd (w tt)
word_dark (c ∷ word) s w = ground arith
