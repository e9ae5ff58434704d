-- ===== src/Rpc/Filter/Sound.antt =====
-- Filters from text to answer (api/rpc/filter/filter.go): what NewFilter returns, and Pass on it.
use topia.Base.{Bool, ◌≢◌, none, List, arith, All}
use topia.Base.Bytes.{Bytes}
use topia.Rpc.Filter.Values.{Fields}
use topia.Rpc.Filter.Parser.{Condition, Filter, ParseError, ParseResult}
use topia.Rpc.Filter.Parser.Terminates.{Decides, accepts, rejects, parse_filter_string-Decides}
use topia.Rpc.Filter.Numbers.{Readers}
use topia.Rpc.Filter.Validate.{
  Completed, completes, fails, ConditionError, FilterResult, built, bad_text, bad_condition,
  completed_filter, complete_parsed, new_filter, filter_passes,
}
use topia.Rpc.Filter.Typed.{Within, IsTyped, any_passes-safe, complete_clauses-IsTyped}

-- A filter that answers on every message, or an error.
pub data IsUsable : FilterResult → Type 0 where
  answers_all : (f : Filter) → ((msg : Fields) → filter_passes f msg ≢ none) → IsUsable (built f)
  text_refused : (e : ParseError) → IsUsable (bad_text e)
  condition_refused : (e : ConditionError) → IsUsable (bad_condition e)

module _ (registry : List (Bytes × Fields)) (readers : Readers) where
  completed_filter-IsUsable :
      (f : Filter) (clauses : Completed (List (List Condition)))
      → Within (All (All IsTyped)) clauses
      → IsUsable (completed_filter f clauses)
  unfolding filter_passes
  completed_filter-IsUsable f (fails e) typed = condition_refused e
  completed_filter-IsUsable f (completes clauses) typed =
      answers_all _ λ msg e. ground (arith, any_passes-safe clauses msg typed)

  complete_parsed-IsUsable :
      (name : Bytes) (blank : Bool) (r : ParseResult)
      → Decides name blank r
      → IsUsable (complete_parsed registry readers r)
  complete_parsed-IsUsable name blank r (accepts f named direct) =
      completed_filter-IsUsable f _
        (complete_clauses-IsTyped registry readers f.event_name f.clauses)
  complete_parsed-IsUsable name blank r (rejects e) = text_refused e

  -- On every event name and text NewFilter returns: an error, or a filter that passes or stops
  -- every message, without a panic in a type assertion or an index.
  pub new_filter-IsUsable : (event s : Bytes) → IsUsable (new_filter registry readers event s)
  unfolding new_filter
  new_filter-IsUsable event s =
      complete_parsed-IsUsable event _ _ (parse_filter_string-Decides event s)
