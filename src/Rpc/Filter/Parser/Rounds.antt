-- ===== src/Rpc/Filter/Parser/Rounds.antt =====
-- The loop of the filter parser (api/rpc/filter/parser.go): what a round keeps, and that the rounds
-- that `round_limit` grants are enough.
use topia.Base.{
  ℕ, ◌+◌, ◌-◌, ◌*◌, ◌≤◌, ◌<◌, ◌≡◌, refl, ap, ◌≢◌, true, inl, inr, Option, none, some, List, [], ◌∷◌,
  ◌++◌, arith, length, Bool-cases,
}
use topia.Base.Bytes.{Bytes, equal_bytes, to_lower}
use topia.Rpc.Filter.Operator.{Operator, is_exists, string_to_op}
use topia.Rpc.Filter.Parser.{
  Condition, Step, step_start, step_field_name, step_operator, step_data, step_logic_op, Parser,
  peek, pop, ParseError, refused, new_condition, at_last, add_condition, set_operator, set_data,
  string_data, take_operator, or_word, and_word, Round, returns, continues, operator_round,
  logic_round, step_round,
}
use topia.Rpc.Filter.Parser.Tokens.{pop-bound, pop-moves}

-- The change of the last element of a list that has one.
pub at_last-append {ℓ} :
    {A : Type ℓ} (change : A → Option A) (front : List A) (x y : A)
    → change x ≡ some y
    → at_last change (front ++ (x ∷ [])) ≡ some (front ++ (y ∷ []))
unfolding at_last
at_last-append change [] x y e = rw e refl
at_last-append change (a ∷ []) x y e = rw (at_last-append change [] x y e) refl
at_last-append change (a ∷ b ∷ front) x y e = rw (at_last-append change (b ∷ front) x y e) refl

-- What a step needs of the clauses: a last clause and, within a condition, its last condition.
pub data Open : Step → List (List Condition) → Type 0 where
  at_start :
      (front : List (List Condition)) (clause : List Condition)
      → Open step_start (front ++ (clause ∷ []))
  at_field :
      (front : List (List Condition)) (clause : List Condition)
      → Open step_field_name (front ++ (clause ∷ []))
  at_operator :
      (front : List (List Condition)) (clause : List Condition) (c : Condition)
      → Open step_operator (front ++ ((clause ++ (c ∷ [])) ∷ []))
  at_data :
      (front : List (List Condition)) (clause : List Condition) (c : Condition)
      → Open step_data (front ++ ((clause ++ (c ∷ [])) ∷ []))
  at_logic :
      (front : List (List Condition)) (clause : List Condition)
      → Open step_logic_op (front ++ (clause ∷ []))

abbrev pub rank : Step → ℕ
rank step_start = 3
rank step_field_name = 2
rank step_operator = 0
rank step_data = 1
rank step_logic_op = 0

-- What the loop has before it, in rounds.
abbrev pub measure : Parser → ℕ
measure p = 4 * (length p.filter_string - p.i) + rank p.step

-- A round ends with an error, or goes on from a parser that is closer to the end.
pub data Advances (p : Parser) : Round → Type 0 where
  stops : (e : ParseError) → Advances p (returns (refused e))
  moves :
      (next : Parser) (clauses : List (List Condition))
      → Open next.step clauses
      → next.i ≤ length next.filter_string
      → measure next < measure p
      → Advances p (continues next clauses)

pub set_operator-Open :
    (op : Operator) (front : List (List Condition)) (clause : List Condition) (c : Condition)
    → set_operator op (front ++ ((clause ++ (c ∷ [])) ∷ []))
      ≡ some (
          front
          ++ ((clause
                ++ (record {
                  field = c.field;
                  operator = op;
                  data_value = c.data_value;
                  data_type = c.data_type;
                }
                    ∷ []))
              ∷ []))
set_operator-Open op front clause c =
    at_last-append _ front (clause ++ (c ∷ [])) _ (at_last-append _ clause c _ refl)

pub set_data-Open :
    (text : Bytes) (front : List (List Condition)) (clause : List Condition) (c : Condition)
    → set_data text (front ++ ((clause ++ (c ∷ [])) ∷ []))
      ≡ some (
          front
          ++ ((clause
                ++ (record {
                  field = c.field;
                  operator = c.operator;
                  data_value = string_data text;
                  data_type = c.data_type;
                }
                    ∷ []))
              ∷ []))
set_data-Open text front clause c =
    at_last-append _ front (clause ++ (c ∷ [])) _ (at_last-append _ clause c _ refl)

pub add_condition-Open :
    (name : Bytes) (front : List (List Condition)) (clause : List Condition)
    → add_condition name (front ++ (clause ∷ []))
      ≡ some (front ++ ((clause ++ (new_condition name ∷ [])) ∷ []))
add_condition-Open name front clause = at_last-append _ front clause _ refl

nonempty_word :
    (c : ℕ) (rest word : Bytes) → word ≡ [] → equal_bytes (to_lower word) (c ∷ rest) ≢ true
unfolding equal_bytes
nonempty_word c rest [] e h = ground arith
nonempty_word c rest (d ∷ word) e h = ground arith

module _ (p : Parser) (inside : p.i < length p.filter_string) where
  string_to_op_empty : string_to_op (to_lower []) ≡ none
  unfolding string_to_op equal_bytes
  string_to_op_empty = refl

  -- An operator that is found has a length.
  operator_found : (op : Operator) → string_to_op (to_lower (peek p)) ≡ some op → p.i < (pop p).i
  operator_found op e =
      pop-moves p (omega arith)
        λ empty. ground (arith, string_to_op_empty, ap (λ w. string_to_op (to_lower w)) empty)

  take_operator-Advances :
      (front : List (List Condition)) (clause : List Condition) (c : Condition) (word : Bytes)
      (found : Option Operator)
      → ((op : Operator) → found ≡ some op → p.i < (pop p).i)
      → Advances p (take_operator p (front ++ ((clause ++ (c ∷ [])) ∷ [])) word found)
  take_operator-Advances front clause c word none more = stops _
  take_operator-Advances front clause c word (some op) more =
      rw (set_operator-Open op front clause c) (elim (Bool-cases (is_exists op)) [
        | inl hit ↦ rw hit (moves _ _ (at_logic front _) inner (closer 0 (omega arith)))
        | inr miss ↦ rw miss (moves _ _ (at_data front _ _) inner (closer 1 (omega arith)))
      ])
    where
      inner : (pop p).i ≤ length p.filter_string
      inner = (pop-bound p (omega arith)).1

      closer :
          (r : ℕ)
          → r ≤ 1
          → 4 * (length p.filter_string - (pop p).i) + r
            < 4 * (length p.filter_string - p.i) + rank p.step
      closer r small = omega (arith, inner, more op refl)

  logic_round-Advances :
      (front : List (List Condition)) (clause : List Condition)
      → Advances p (logic_round p (front ++ (clause ∷ [])))
  unfolding logic_round
  logic_round-Advances front clause = elim (Bool-cases (equal_bytes (to_lower (peek p)) or_word)) [
    | inl hit ↦ rw hit (moves _ _ (at_field (front ++ (clause ∷ [])) []) inner (closer _ _ hit))
    | inr miss ↦ elim (Bool-cases (equal_bytes (to_lower (peek p)) and_word)) [
      | inl hit ↦ rw (miss, hit) (moves _ _ (at_field front clause) inner (closer _ _ hit))
      | inr neither ↦ rw (miss, neither) (stops _)
    ]
  ]
    where
      inner : (pop p).i ≤ length p.filter_string
      inner = (pop-bound p (omega arith)).1

      closer :
          (c : ℕ) (word : Bytes)
          → equal_bytes (to_lower (peek p)) (c ∷ word) ≡ true
          → 4 * (length p.filter_string - (pop p).i) + 2
            < 4 * (length p.filter_string - p.i) + rank p.step
      closer c word e =
          omega (
            arith,
            inner,
            pop-moves p (omega arith) (λ empty. nonempty_word c word (peek p) empty e),
          )

  -- Whatever the step, the round ends with an error or comes closer to the end.
  pub step_round-Advances :
      (s : Step) (clauses : List (List Condition))
      → p.step ≡ s
      → Open s clauses
      → Advances p (step_round p clauses s)
  unfolding step_round operator_round
  step_round-Advances s clauses at (at_start front clause) =
      moves _ _ (at_field front clause) (omega arith) (rw at (omega arith))
  step_round-Advances s clauses at (at_field front clause) =
      rw (add_condition-Open (to_lower (peek p)) front clause) (
        moves _ _ (at_operator front clause _) (pop-bound p (omega arith)).1
          (rw at (omega (arith, pop-bound p (omega arith)))))
  step_round-Advances s clauses at (at_operator front clause c) =
      take_operator-Advances front clause c _ _ operator_found
  step_round-Advances s clauses at (at_data front clause c) =
      rw (set_data-Open (peek p) front clause c) (
        moves _ _ (at_logic front _) (pop-bound p (omega arith)).1
          (rw at (omega (arith, pop-bound p (omega arith)))))
  step_round-Advances s clauses at (at_logic front clause) = logic_round-Advances front clause
