-- ===== src/Rpc/Filter/Parser/RoundTrip.antt =====
-- What the parser (api/rpc/filter/parser.go) reads back from a filter that was written out.
use topia.Base.{◌+◌, ◌≡◌, refl, Bool, false, List, [], ◌∷◌, ◌++◌, arith, All}
use topia.Base.Bytes.{Bytes, is_blank}
use topia.Rpc.Filter.Parser.{
  filter_of, Parser, remaining, parsed, step_start, step_field_name, at_step, leading_spaces,
  pop_whitespace, step_round, parse_filter_string,
}
use topia.Rpc.Filter.Parser.Tokens.{leading_spaces-bound}
use topia.Rpc.Filter.Parser.Rounds.{at_start}
use topia.Rpc.Filter.Parser.Peeks.{IsWord, word_left}
use topia.Rpc.Filter.Parser.Yields.{Yields, goes_on_at, parse_loop-Yields}
use topia.Rpc.Filter.Parser.Printer.{
  Term, print_more, print_filter, condition_of, clauses_of, IsPrintable, no_spaces, word_dark,
}
use topia.Rpc.Filter.Parser.Reads.{read_term, read_more, more_breaks}

pub word_not_blank : (word s : Bytes) → IsWord word → is_blank (word ++ s) ≡ false
unfolding is_blank
word_not_blank [] s w = absurd (w tt)
word_not_blank (c ∷ word) s w = ground arith

module _ (name : Bytes) (t : Term) (more : List (Bool × Term)) where
  abbrev start : Parser
  start = record { step = step_start; i = 0; filter_string = print_filter t more }

  abbrev opened : Parser
  opened = pop_whitespace start

  opened_lem : IsWord t.field → remaining opened ≡ print_filter t more
  opened_lem w =
      let e : 0 + leading_spaces (print_filter t more) ≡ leading_spaces (print_filter t more) =
        omega arith in
      rw e (no_spaces (print_filter t more) (word_dark t.field _ w))

  whole-Yields :
      IsPrintable t
      → All (λ entry. IsPrintable entry.1) more
      → Yields name opened
          ([] ∷ [])
          (parsed (filter_of name (clauses_of [] (condition_of t ∷ []) more)))
  unfolding step_round
  whole-Yields ok oks =
      goes_on_at name opened (at_step step_field_name opened) _ _ _ step_start refl
        (word_left opened t.field _ ok.0 (opened_lem ok.0)) refl
        (read_term name _ [] [] t (print_more more) _ refl ok (more_breaks more) (opened_lem ok.0)
          λ next at e. read_more name more next [] (condition_of t ∷ []) oks at e)

  -- A filter that is written with words as fields, known operators and texts in quotes, which hold
  -- neither a quote nor a backslash, is read back: a clause for each stretch between two `or`s,
  -- with the conditions that `and` joins in their order.
  pub parse_filter_string-print :
      IsPrintable t
      → All (λ entry. IsPrintable entry.1) more
      → parse_filter_string name (print_filter t more)
        ≡ parsed (filter_of name (clauses_of [] (condition_of t ∷ []) more))
  unfolding parse_filter_string
  parse_filter_string-print ok oks = rw (word_not_blank t.field _ ok.0) (
      parse_loop-Yields name _ opened ([] ∷ []) _ (whole-Yields ok oks)
        (leading_spaces-bound start (omega arith)) (at_start [] []) (omega arith))
