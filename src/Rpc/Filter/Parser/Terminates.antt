-- ===== src/Rpc/Filter/Parser/Terminates.antt =====
-- The filter parser (api/rpc/filter/parser.go) on every text: its loop comes to an end.
use topia.Base.{
  ℕ, zero, suc, ◌≤◌, ◌<◌, ◌≡◌, refl, Bool, false, inl, inr, List, [], ◌∷◌, arith, leb, length,
  Bool-cases,
}
use topia.Base.Bytes.{Bytes, is_blank}
use topia.Rpc.Filter.Parser.{
  Condition, Filter, filter_of, Parser, ParseError, ParseResult, parsed, refused, step_start, Round,
  returns, continues, pop_whitespace, parse_loop, round_limit, parse_filter_string,
}
use topia.Rpc.Filter.Parser.Tokens.{leading_spaces-bound}
use topia.Rpc.Filter.Parser.Rounds.{
  Open, at_start, measure, Advances, stops, moves, step_round-Advances,
}

-- A result that the source returns: a filter of the event or an error, neither a panic nor a
-- loop that goes on.
pub data Decides (name : Bytes) (blank : Bool) : ParseResult → Type 0 where
  accepts :
      (f : Filter) → f.event_name ≡ name → f.direct_pass ≡ blank → Decides name blank (parsed f)
  rejects : (e : ParseError) → Decides name blank (refused e)

module _ (name : Bytes) where
  -- What a round hands on, where the rest of the loop decides.
  onward :
      (rounds : ℕ) (p : Parser) (round : Round)
      → Advances p round
      → ((next : Parser) (clauses : List (List Condition))
          → next.i ≤ length next.filter_string
          → Open next.step clauses
          → measure next < measure p
          → Decides name false (parse_loop name rounds next clauses))
      → Decides name false (elim round [
        | returns result ↦ result
        | continues p' clauses' ↦ parse_loop name rounds p' clauses'
      ])
  onward rounds p round (stops e) again = rejects e
  onward rounds p round (moves next clauses ready within closer) again =
      again next clauses within ready closer

  parse_loop-Decides :
      (rounds : ℕ) (p : Parser) (clauses : List (List Condition))
      → p.i ≤ length p.filter_string
      → Open p.step clauses
      → measure p < rounds
      → Decides name false (parse_loop name rounds p clauses)
  unfolding parse_loop
  parse_loop-Decides zero p clauses within ready enough = absurd (omega arith)
  parse_loop-Decides (suc rounds) p clauses within ready enough =
      elim (Bool-cases (leb (length p.filter_string) p.i)) [
        | inl ended ↦ rw ended (accepts (filter_of name clauses) refl refl)
        | inr more ↦ rw more (
            onward rounds p _ (step_round-Advances p (ground arith) p.step clauses refl ready)
              λ next clauses' within' ready' closer.
                parse_loop-Decides rounds next clauses' within' ready' (omega arith))
      ]

-- On every text the parser returns within `round_limit` rounds, a filter for the event or an
-- error; no index that it uses is out of range.
pub parse_filter_string-Decides :
    (name s : Bytes) → Decides name (is_blank s) (parse_filter_string name s)
unfolding parse_filter_string
parse_filter_string-Decides name s = elim (Bool-cases (is_blank s)) [
  | inl blank ↦ rw blank (accepts _ refl refl)
  | inr text ↦ rw text (
      parse_loop-Decides name (round_limit s) (pop_whitespace start) ([] ∷ [])
        (leading_spaces-bound start (omega arith)) (at_start [] [])
        (omega (arith, leading_spaces-bound start (omega arith))))
]
  where
    start : Parser
    start = record { step = step_start; i = 0; filter_string = s }
