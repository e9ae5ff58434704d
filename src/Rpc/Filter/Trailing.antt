-- ===== src/Rpc/Filter/Trailing.antt =====
-- A filter string that ends in a connector (api/rpc/filter/parser.go, filter.go): the clause that
-- `or` opens stays empty.
use topia.Base.{◌+◌, ◌≡◌, refl, ap, true, some, List, [], ◌∷◌, ◌++◌, arith, All}
use topia.Base.Bytes.{Bytes, equal_bytes, to_lower}
use topia.Rpc.Filter.Values.{Fields}
use topia.Rpc.Filter.Parser.{
  Condition, Filter, filter_of, Parser, remaining, space, parsed, step_start, step_field_name,
  step_logic_op, at_step, leading_spaces, pop, pop_whitespace, step_round, logic_round, take_logic,
  or_word, parse_filter_string,
}
use topia.Rpc.Filter.Parser.Tokens.{leading_spaces-bound}
use topia.Rpc.Filter.Parser.Rounds.{at_start}
use topia.Rpc.Filter.Parser.Peeks.{word_left, more_left, none_left, peek_word, remaining-pop}
use topia.Rpc.Filter.Parser.Yields.{Yields, ends, goes_on_at, parse_loop-Yields}
use topia.Rpc.Filter.Parser.Printer.{
  Term, print_term, condition_of, IsPrintable, no_spaces, word_dark,
}
use topia.Rpc.Filter.Parser.Reads.{read_term}
use topia.Rpc.Filter.Parser.RoundTrip.{word_not_blank}
use topia.Rpc.Filter.Numbers.{Readers}
use topia.Rpc.Filter.Validate.{
  Completed, completes, fails, complete_clause, complete_clauses, completed_before,
  completed_filter, built, new_filter, clause_passes, any_passes, filter_passes,
}
use topia.Rpc.Filter.Typed.{Within, IsTyped, clause_passes-safe, complete_clause-IsTyped}

module _ (name : Bytes) where
  -- The round on a connector that ends the text.
  last_or :
      (p : Parser) (clauses : List (List Condition))
      → p.step ≡ step_logic_op
      → remaining p ≡ or_word
      → Yields name p clauses (parsed (filter_of name (clauses ++ ([] ∷ []))))
  unfolding step_round logic_round equal_bytes leading_spaces
  last_or p clauses at e =
      let seen = peek_word p or_word [] (ground arith) refl e in
      let left = remaining-pop p _ _ [] seen (rw e refl) in
      goes_on_at name p (at_step step_field_name (pop p)) _ _ _ step_logic_op at (more_left p _ _ e)
        (ap (λ token. take_logic p clauses (to_lower token.0)) seen)
        (ends (at_step step_field_name (pop p)) _
          (none_left (at_step step_field_name (pop p)) left))

module _ (name : Bytes) (t : Term) where
  abbrev trailing : Bytes
  trailing = print_term t (space ∷ or_word)

  abbrev start : Parser
  start = record { step = step_start; i = 0; filter_string = trailing }

  trailing-Yields :
      IsPrintable t
      → Yields name
          (pop_whitespace start)
          ([] ∷ [])
          (parsed (filter_of name ((condition_of t ∷ []) ∷ [] ∷ [])))
  unfolding step_round leading_spaces
  trailing-Yields ok =
      let whole : remaining (pop_whitespace start) ≡ trailing = opened in
      goes_on_at name (pop_whitespace start) (at_step step_field_name (pop_whitespace start)) _ _ _
        step_start refl (word_left (pop_whitespace start) t.field _ ok.0 whole) refl
        (read_term name _ [] [] t (space ∷ or_word) _ refl ok refl whole
          λ next at e. last_or name next _ at e)
    where
      opened : remaining (pop_whitespace start) ≡ trailing
      opened =
          let e : 0 + leading_spaces trailing ≡ leading_spaces trailing = omega arith in
          rw e (no_spaces trailing (word_dark t.field _ ok.0))

  -- The parser accepts a condition that a lone `or` follows, and adds an empty clause.
  parse-trailing :
      IsPrintable t
      → parse_filter_string name trailing
        ≡ parsed (filter_of name ((condition_of t ∷ []) ∷ [] ∷ []))
  unfolding parse_filter_string
  parse-trailing ok = rw (word_not_blank t.field _ ok.0) (
      parse_loop-Yields name _ (pop_whitespace start) ([] ∷ []) _ (trailing-Yields ok)
        (leading_spaces-bound start (omega arith)) (at_start [] []) (omega arith))

empty_clause_passes :
    (clause : Completed (List Condition)) (f f' : Filter) (msg : Fields)
    → Within (All IsTyped) clause
    → completed_filter f
        (elim clause [ fails e ↦ fails e | completes c ↦ completed_before c (completes ([] ∷ [])) ])
      ≡ built f'
    → filter_passes f' msg ≡ some true
unfolding filter_passes any_passes clause_passes
empty_clause_passes (fails e) f f' msg typed built_f = ground arith
empty_clause_passes (completes clause) f f' msg typed built_f =
    ground (arith, clause_passes-safe clause msg typed)

module _ (registry : List (Bytes × Fields)) (readers : Readers) where
  -- A filter made from a written condition with `or` behind it passes every message, whether or
  -- not the condition holds of it.
  trailing_or_passes :
      (event : Bytes) (t : Term) (f : Filter) (msg : Fields)
      → IsPrintable t
      → new_filter registry readers event (print_term t (space ∷ or_word)) ≡ built f
      → filter_passes f msg ≡ some true
  unfolding new_filter complete_clauses complete_clause
  trailing_or_passes event t f msg ok made =
      empty_clause_passes (complete_clause registry readers event (condition_of t ∷ []))
        (filter_of event ((condition_of t ∷ []) ∷ [] ∷ [])) f msg
        (complete_clause-IsTyped registry readers event (condition_of t ∷ []))
        (rw (parse-trailing event t ok) at made)
