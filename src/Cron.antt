-- ===== src/Cron.antt =====
-- internal/cron/parser.go. The library robfig/cron and the zones of the package time are the record
-- `Library`: the due time after an instant, as a schedule reads it in a zone.
use easy_cron.Prelude.{String, Option, none, some, ◌⊎◌, inl, inr}
use easy_cron.Domain.{Time}

pub record Library : Type 1 where
  pub Zone : Type 0
  pub load_location : String → Option Zone
  pub parse_expression : String → Option (Zone → Time → Time)

pub data ParseError : Type 0 where
  parse_cron load_timezone : ParseError

-- `Parser.Parse`, the schedule as its `Next`.
unfoldable pub parse : Library → String → String → ParseError ⊎ (Time → Time)
parse lib expression timezone = elim (lib.parse_expression expression) [
  | none ↦ inl parse_cron
  | some sched ↦ elim (lib.load_location timezone) [
    | none ↦ inl load_timezone
    | some loc ↦ inr (sched loc)
  ]
]
