-- ===== src/Tests/Recording.antt =====
-- The record of requests at concrete events.
use rust_playground.Base.{◌≡◌, refl, none, some, true, insert}
use rust_playground.Database.{
  Row, State, initialize, starts, step, handle_start, start_request, start_with_guard,
  abandoned_how,
}
use rust_playground.Database.Fates.{Refines, step-Refines, working}
use rust_playground.Database.Ended.{
  Reaches, none_yet, later, RecordsResult, Reaches-IsAccounted, Reaches-records,
}

abbrev a_row : Row
a_row = record { category = "ws.Execute"; payload = "{}"; how = none }

abbrev one_started : State
one_started = record {
  rows = insert 1 a_row initialize.rows;
  guards = insert 1 (record { id = 1; how = abandoned_how; has_handle = true }) initialize.guards;
  ending = initialize.ending;
}

one_starts : step initialize (starts working "ws.Execute" "{}" 1) ≡ some one_started
unfolding step start_with_guard handle_start start_request initialize
one_starts = refl

step-Refines_example : Refines initialize one_started
step-Refines_example =
    step-Refines initialize (starts working "ws.Execute" "{}" 1) (Reaches-IsAccounted none_yet) refl
      one_starts

one-Reaches : Reaches one_started
one-Reaches = later (starts working "ws.Execute" "{}" 1) none_yet refl one_starts

one_guard : one_started.guards 1 ≡ some (record { id = 1; how = abandoned_how; has_handle = true })
unfolding initialize
one_guard = refl

Reaches-records_example : RecordsResult one_started 1 true
Reaches-records_example = Reaches-records 1 true one-Reaches one_guard
