-- ===== src/Rpc/Filter/Parser/Reads.antt =====
-- The rounds of the parser (api/rpc/filter/parser.go) on a filter that was written out.
use topia.Base.{
  suc, ◌+◌, ◌≡◌, refl, ap, ◌∙◌, Bool, true, false, inl, inr, List, [], ◌∷◌, ◌++◌, arith,
  if◌then◌else◌, length, drop, All, Bool-cases,
}
use topia.Base.Bytes.{Bytes, to_lower, equal_bytes, drop-length}
use topia.Rpc.Filter.Operator.{Operator, is_legal, is_exists, string_to_op, op_to_string}
use topia.Rpc.Filter.Parser.{
  nil_data, string_data, Condition, filter_of, Parser, remaining, quote, space, new_condition,
  ParseResult, parsed, step_field_name, step_operator, step_data, step_logic_op, at_step,
  leading_spaces, pop, step_round, operator_round, logic_round, after_operator, or_word, and_word,
  take_operator, take_logic, go_on, add_condition, set_data,
}
use topia.Rpc.Filter.Parser.Rounds.{add_condition-Open, set_operator-Open, set_data-Open}
use topia.Rpc.Filter.Parser.Peeks.{
  IsWord, is_plain, breaks, more_left, word_left, none_left, peek_word, peek_quoted, remaining-pop,
  to_lower_word,
}
use topia.Rpc.Filter.Parser.Yields.{Yields, ends, goes_on_at}
use topia.Rpc.Filter.Parser.Printer.{
  Term, print_term, print_more, condition_of, condition_with, clauses_of, IsPrintable, starts_dark,
  one_space, operator_dark, operator_read_back, operator_left, word_dark, peek_operator,
}

drop_quoted : (text rest : Bytes) → drop (length text + 2) (quote ∷ (text ++ (quote ∷ rest))) ≡ rest
drop_quoted text rest =
    let e : length text + 2 ≡ suc (suc (length text)) = omega arith in rw e (after text)
  where
    after : (text : Bytes) → drop (suc (length text)) (text ++ (quote ∷ rest)) ≡ rest
    after [] = refl
    after (c ∷ text) = after text

pub more_breaks : (more : List (Bool × Term)) → breaks (print_more more) ≡ true
more_breaks [] = refl
more_breaks ((is_or, t) ∷ more) = refl

module _ (name : Bytes) where
  -- One round on the name of a field.
  read_field :
      (p : Parser) (front : List (List Condition)) (clause : List Condition) (word s : Bytes)
      (result : ParseResult)
      → p.step ≡ step_field_name
      → IsWord word
      → starts_dark s ≡ true
      → remaining p ≡ word ++ (space ∷ s)
      → ((next : Parser)
          → next.step ≡ step_operator
          → remaining next ≡ s
          → Yields name next (front ++ ((clause ++ (new_condition word ∷ [])) ∷ [])) result)
      → Yields name p (front ++ (clause ∷ [])) result
  unfolding step_round
  read_field p front clause word s result at w dark e go =
      let seen = peek_word p word (space ∷ s) w refl e in
      let left =
        remaining-pop p _ _ (space ∷ s) seen (rw e (drop-length word (space ∷ s)))
        ∙ one_space s dark in
      goes_on_at name p (at_step step_operator (pop p)) _ _ result step_field_name at
        (word_left p word (space ∷ s) w e)
        (ap
            (λ seen.
              go_on (at_step step_operator (pop p)) (add_condition seen (front ++ (clause ∷ []))))
            (ap (λ token. to_lower token.0) seen ∙ to_lower_word word w)
          ∙ ap (go_on _) (add_condition-Open word front clause))
        (go (at_step step_operator (pop p)) refl left)

  -- One round on an operator.
  read_operator :
      (p : Parser) (front : List (List Condition)) (clause : List Condition) (word : Bytes)
      (op : Operator) (rest : Bytes) (result : ParseResult)
      → p.step ≡ step_operator
      → is_legal op ≡ true
      → breaks rest ≡ true
      → remaining p ≡ op_to_string op ++ rest
      → ((next : Parser)
          → next.step ≡ after_operator op
          → remaining next ≡ drop (leading_spaces rest) rest
          → Yields name next
              (front ++ ((clause ++ (condition_with word op nil_data ∷ [])) ∷ []))
              result)
      → Yields name p (front ++ ((clause ++ (new_condition word ∷ [])) ∷ [])) result
  unfolding step_round operator_round
  read_operator p front clause word op rest result at legal b e go =
      let seen = peek_operator p op rest legal b e in
      let left = remaining-pop p _ _ rest seen (rw e (drop-length (op_to_string op) rest)) in
      goes_on_at name p (at_step (after_operator op) (pop p)) _ _ result step_operator at
        (operator_left p op rest legal e)
        (ap
            (λ seen.
              take_operator p (front ++ ((clause ++ (new_condition word ∷ [])) ∷ [])) seen
                (string_to_op seen))
            (ap (λ token. to_lower token.0) seen)
          ∙ ap (take_operator p _ _) (operator_read_back op legal)
          ∙ ap (go_on _) (set_operator-Open op front clause (new_condition word)))
        (go (at_step (after_operator op) (pop p)) refl left)

  -- One round on a quoted text.
  read_data :
      (p : Parser) (front : List (List Condition)) (clause : List Condition) (word : Bytes)
      (op : Operator) (text rest : Bytes) (result : ParseResult)
      → p.step ≡ step_data
      → All (λ c. is_plain c ≡ true) text
      → remaining p ≡ quote ∷ (text ++ (quote ∷ rest))
      → ((next : Parser)
          → next.step ≡ step_logic_op
          → remaining next ≡ drop (leading_spaces rest) rest
          → Yields name next
              (front ++ ((clause ++ (condition_with word op (string_data text) ∷ [])) ∷ []))
              result)
      → Yields name p (front ++ ((clause ++ (condition_with word op nil_data ∷ [])) ∷ [])) result
  unfolding step_round
  read_data p front clause word op text rest result at plain e go =
      let seen = peek_quoted p text rest plain e in
      let left = remaining-pop p _ _ rest seen (rw e (drop_quoted text rest)) in
      goes_on_at name p (at_step step_logic_op (pop p)) _ _ result step_data at
        (more_left p quote _ e)
        (ap
            (λ seen.
              go_on (at_step step_logic_op (pop p)) (
                set_data seen (front ++ ((clause ++ (condition_with word op nil_data ∷ [])) ∷ []))))
            (ap (λ token. token.0) seen)
          ∙ ap (go_on _) (set_data-Open text front clause (condition_with word op nil_data)))
        (go (at_step step_logic_op (pop p)) refl left)

  -- One round on a connector.
  read_or :
      (p : Parser) (clauses : List (List Condition)) (s : Bytes) (result : ParseResult)
      → p.step ≡ step_logic_op
      → starts_dark s ≡ true
      → remaining p ≡ or_word ++ (space ∷ s)
      → ((next : Parser)
          → next.step ≡ step_field_name
          → remaining next ≡ s
          → Yields name next (clauses ++ ([] ∷ [])) result)
      → Yields name p clauses result
  unfolding step_round logic_round equal_bytes
  read_or p clauses s result at dark e go =
      let seen = peek_word p or_word (space ∷ s) (ground arith) refl e in
      let left = remaining-pop p _ _ (space ∷ s) seen (rw e refl) ∙ one_space s dark in
      goes_on_at name p (at_step step_field_name (pop p)) _ _ result step_logic_op at
        (more_left p _ _ e) (ap (λ token. take_logic p clauses (to_lower token.0)) seen)
        (go (at_step step_field_name (pop p)) refl left)

  read_and :
      (p : Parser) (clauses : List (List Condition)) (s : Bytes) (result : ParseResult)
      → p.step ≡ step_logic_op
      → starts_dark s ≡ true
      → remaining p ≡ and_word ++ (space ∷ s)
      → ((next : Parser)
          → next.step ≡ step_field_name
          → remaining next ≡ s
          → Yields name next clauses result)
      → Yields name p clauses result
  unfolding step_round logic_round equal_bytes
  read_and p clauses s result at dark e go =
      let seen = peek_word p and_word (space ∷ s) (ground arith) refl e in
      let left = remaining-pop p _ _ (space ∷ s) seen (rw e refl) ∙ one_space s dark in
      goes_on_at name p (at_step step_field_name (pop p)) _ _ result step_logic_op at
        (more_left p _ _ e) (ap (λ token. take_logic p clauses (to_lower token.0)) seen)
        (go (at_step step_field_name (pop p)) refl left)

  -- The rounds on a term.
  pub read_term :
      (p : Parser) (front : List (List Condition)) (clause : List Condition) (t : Term)
      (rest : Bytes) (result : ParseResult)
      → p.step ≡ step_field_name
      → IsPrintable t
      → breaks rest ≡ true
      → remaining p ≡ print_term t rest
      → ((next : Parser)
          → next.step ≡ step_logic_op
          → remaining next ≡ drop (leading_spaces rest) rest
          → Yields name next (front ++ ((clause ++ (condition_of t ∷ [])) ∷ [])) result)
      → Yields name p (front ++ (clause ∷ [])) result
  unfolding leading_spaces
  read_term p front clause t rest result at ok b e go = elim (Bool-cases (is_exists t.operator)) [
    | inl alone ↦
        read_field p front clause t.field (op_to_string t.operator ++ rest) result at ok.0
          (operator_dark t.operator rest ok.1) (rw alone at e)
          λ q at_q e_q.
            read_operator q front clause t.field t.operator rest result at_q ok.1 b e_q
              λ r at_r e_r.
                rw alone at
                  (go r (at_r ∙ ap (λ b. if b then step_logic_op else step_data) alone) e_r)
    | inr text ↦
        let after = space ∷ (quote ∷ (t.text ++ (quote ∷ rest))) in
        read_field p front clause t.field (op_to_string t.operator ++ after) result at ok.0
          (operator_dark t.operator after ok.1) (rw text at e)
          λ q at_q e_q.
            read_operator q front clause t.field t.operator after result at_q ok.1 refl e_q
              λ r at_r e_r.
                read_data r front clause t.field t.operator t.text rest result
                  (at_r ∙ ap (λ b. if b then step_logic_op else step_data) text) ok.2 e_r
                  λ s at_s e_s. rw text at (go s at_s e_s)
  ]

  -- The rounds on the terms behind the first.
  pub read_more :
      (more : List (Bool × Term)) (p : Parser) (front : List (List Condition))
      (clause : List Condition)
      → All (λ entry. IsPrintable entry.1) more
      → p.step ≡ step_logic_op
      → remaining p ≡ drop (leading_spaces (print_more more)) (print_more more)
      → Yields name p
          (front ++ (clause ∷ []))
          (parsed (filter_of name (clauses_of front clause more)))
  unfolding leading_spaces
  read_more [] p front clause ok at e = ends p (front ++ (clause ∷ [])) (none_left p e)
  read_more ((true, t) ∷ more) p front clause ok at e =
      read_or p _ (print_term t (print_more more)) _ at (word_dark t.field _ ok.0.0) e λ q at_q e_q.
        read_term q (front ++ (clause ∷ [])) [] t (print_more more) _ at_q ok.0 (more_breaks more)
          e_q
          λ r at_r e_r.
            read_more more r (front ++ (clause ∷ [])) (condition_of t ∷ []) ok.1 at_r e_r
  read_more ((false, t) ∷ more) p front clause ok at e =
      read_and p _ (print_term t (print_more more)) _ at (word_dark t.field _ ok.0.0) e
        λ q at_q e_q.
          read_term q front clause t (print_more more) _ at_q ok.0 (more_breaks more) e_q
            λ r at_r e_r. read_more more r front (clause ++ (condition_of t ∷ [])) ok.1 at_r e_r
