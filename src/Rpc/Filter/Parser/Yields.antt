-- ===== src/Rpc/Filter/Parser/Yields.antt =====
-- The loop of the filter parser (api/rpc/filter/parser.go) as a relation without a bound on the
-- rounds, and its agreement with the bounded loop.
use topia.Base.{
  ℕ, zero, suc, ◌≤◌, ◌<◌, ◌≡◌, refl, ap, subst, ◌∙◌, true, false, List, arith, leb, length,
}
use topia.Base.Bytes.{Bytes}
use topia.Rpc.Filter.Parser.{
  Condition, filter_of, Step, Parser, ParseResult, parsed, Round, returns, continues, step_round,
  parse_loop,
}
use topia.Rpc.Filter.Parser.Rounds.{Open, measure, Advances, stops, moves, step_round-Advances}

-- `ends` leaves the loop, `goes_on` is a round.
pub data Yields (name : Bytes) : Parser → List (List Condition) → ParseResult → Type 0 where
  ends :
      (p : Parser) (clauses : List (List Condition))
      → leb (length p.filter_string) p.i ≡ true
      → Yields name p clauses (parsed (filter_of name clauses))
  goes_on :
      (p next : Parser) (clauses clauses' : List (List Condition)) (result : ParseResult)
      → leb (length p.filter_string) p.i ≡ false
      → step_round p clauses p.step ≡ continues next clauses'
      → Yields name next clauses' result
      → Yields name p clauses result

-- A round at a step that is known.
pub goes_on_at :
    (name : Bytes) (p next : Parser) (clauses clauses' : List (List Condition))
    (result : ParseResult) (s : Step)
    → p.step ≡ s
    → leb (length p.filter_string) p.i ≡ false
    → step_round p clauses s ≡ continues next clauses'
    → Yields name next clauses' result
    → Yields name p clauses result
goes_on_at name p next clauses clauses' result s at more e y =
    goes_on p next clauses clauses' result more (ap (step_round p clauses) at ∙ e) y

-- What a round that goes on keeps.
abbrev Keeps : Parser → Round → Type 0
Keeps p (returns result) = Unit
Keeps p (continues next clauses) =
    Open next.step clauses × (next.i ≤ length next.filter_string) × (measure next < measure p)

Advances-Keeps : {p : Parser} {round : Round} → Advances p round → Keeps p round
Advances-Keeps (stops e) = tt
Advances-Keeps (moves next clauses ready within closer) = (ready, within, closer)

pub parse_loop-Yields :
    (name : Bytes) (rounds : ℕ) (p : Parser) (clauses : List (List Condition))
    (result : ParseResult)
    → Yields name p clauses result
    → p.i ≤ length p.filter_string
    → Open p.step clauses
    → measure p < rounds
    → parse_loop name rounds p clauses ≡ result
unfolding parse_loop
parse_loop-Yields name zero p clauses result y within ready enough = absurd (omega arith)
parse_loop-Yields name (suc rounds) p clauses result (ends _ _ over) within ready enough =
    rw over refl
parse_loop-Yields name (suc rounds) p clauses result (goes_on _ next _ clauses' _ more e y) within
      ready enough =
    let kept =
      subst (Keeps p) e
        (Advances-Keeps (step_round-Advances p (ground arith) p.step clauses refl ready)) in
    rw (more, e)
      (parse_loop-Yields name rounds next clauses' result y kept.1 kept.0 (omega (arith, kept)))
