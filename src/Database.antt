-- ===== src/Database.antt =====
-- The record of requests (ui/src/request_database.rs). SQLite keeps the rows by their primary key;
-- the key of a new row is SQLite's choice, and whether a statement works comes with the event, as
-- does whether the channels to the database's task and back still stand. The two time stamps and
-- the log are left out: `ended_at` is set just when `how` is.
pub mod Accounts
pub mod Fates
pub mod Ended
use rust_playground.Base.{
  ℕ, String, Bool, true, false, not, Option, none, some, Result, ok, err, is_ok, Map, insert,
  remove, empty_map, is_some, ◌==◌, if◌then◌else◌,
}

pub data How : Type 0 where
  complete_how abandoned_how error_how : How

-- `how as u8`
abbrev pub how_code : How → ℕ
how_code complete_how = 0
how_code abandoned_how = 1
how_code error_how = 2

pub record Row : Type 0 where
  pub category : String
  pub payload : String
  pub how : Option ℕ

pub data Error : Type 0 where
  start_request_error end_request_error : Error

pub data HandleError : Type 0 where
  database : Error → HandleError
  send_start_request recv_start_request send_end_request recv_end_request : HandleError

-- Whether a message to the task is sent, its statement works, and the reply is received.
pub record Link : Type 0 where
  pub sent : Bool
  pub executed : Bool
  pub received : Bool

-- `EndGuardInner`: the row, how it ends, and whether the handle is there.
pub record EndGuardInner : Type 0 where
  pub id : ℕ
  pub how : How
  pub has_handle : Bool

-- The rows, the guards that are held, and the tasks that were spawned to end a request.
pub record State : Type 0 where
  pub rows : Map Row
  pub guards : Map EndGuardInner
  pub ending : Map How

-- `initialize`, where the file has no rows of an earlier process.
unfoldable pub initialize : State
initialize = record { rows = empty_map; guards = empty_map; ending = empty_map }

-- `Database::start_request`, with the key that SQLite returns.
unfoldable pub start_request : Bool → String → String → ℕ → Map Row → Result ℕ Error × Map Row
start_request executed category payload id rows =
    if executed
    then (ok id, insert id (record { category = category; payload = payload; how = none }) rows)
    else (err start_request_error, rows)

abbrev set_how : How → Option Row → Option Row
set_how how none = none
set_how how (some r) = some (record r { how = some (how_code how) })

abbrev pub update : ℕ → How → Map Row → Map Row
update id how rows k = if id == k then set_how how (rows k) else rows k

-- `Database::end_request`
unfoldable pub end_request : Bool → ℕ → How → Map Row → Result (Unit {0}) Error × Map Row
end_request executed id how rows =
    if executed then (ok tt, update id how rows) else (err end_request_error, rows)

abbrev reply :
    {A : Type 0} → HandleError → Bool → Result A Error × Map Row → Result A HandleError × Map Row
reply lost received (ok a, rows) = (if received then ok a else err lost, rows)
reply lost received (err e, rows) = (if received then err (database e) else err lost, rows)

-- `Handle::start_request`, by way of the database's task.
unfoldable pub handle_start : Link → String → String → ℕ → Map Row → Result ℕ HandleError × Map Row
unfolding start_request
handle_start l category payload id rows =
    if l.sent
    then reply recv_start_request l.received (start_request l.executed category payload id rows)
    else (err send_start_request, rows)

-- `Handle::end_request`, likewise.
unfoldable pub handle_end : Link → ℕ → How → Map Row → Result (Unit {0}) HandleError × Map Row
unfolding end_request
handle_end l id how rows =
    if l.sent
    then reply recv_end_request l.received (end_request l.executed id how rows)
    else (err send_end_request, rows)

-- `attempt_start_request` and `start_with_guard`.
abbrev guard_for : Result ℕ HandleError → Option EndGuardInner
guard_for (ok id) = some (record { id = id; how = abandoned_how; has_handle = true })
guard_for (err e) = none

abbrev hold : Option EndGuardInner → Map EndGuardInner → Map EndGuardInner
hold none guards = guards
hold (some g) guards = insert g.id g guards

unfoldable pub start_with_guard : Link → String → String → ℕ → State → State
unfolding handle_start
start_with_guard l category payload id s =
    let (r, rows) = handle_start l category payload id s.rows in
    record s { rows = rows; guards = hold (guard_for r) s.guards }

-- `Drop` of `EndGuardInner`: what it spawns where there is a runtime.
unfoldable pub drop_inner : Bool → EndGuardInner → Map How → Map How
drop_inner runtime g ending =
    if runtime then (if g.has_handle then insert g.id g.how ending else ending) else ending

-- `EndGuard::complete_now`, with whether the result is an error, and the drop of an `EndGuard`.
abbrev with_result : Bool → EndGuardInner → EndGuardInner
with_result is_err g = record g { how = if is_err then error_how else complete_how }

unfoldable pub let_go :
    (EndGuardInner → EndGuardInner) → Bool → ℕ → State → Option EndGuardInner → Option State
unfolding drop_inner
let_go f runtime id s none = none
let_go f runtime id s (some g) =
    some (record s { guards = remove id s.guards; ending = drop_inner runtime (f g) s.ending })

unfoldable pub run_ending : Link → ℕ → State → Option How → Option State
unfolding handle_end
run_ending l id s none = none
run_ending l id s (some how) =
    let (r, rows) = handle_end l id how s.rows in
    some (record s { rows = rows; ending = remove id s.ending })

pub data Event : Type 0 where
  starts : Link → String → String → ℕ → Event
  completes : ℕ → Bool → Bool → Event
  drops : ℕ → Bool → Event
  ends : ℕ → Link → Event

-- What happens next, where it can: SQLite gives a new row a key that no row has.
unfoldable pub step : State → Event → Option State
unfolding start_with_guard let_go run_ending
step s (starts l category payload id) =
    if is_some (s.rows id) then none else some (start_with_guard l category payload id s)
step s (completes id is_err runtime) = let_go (with_result is_err) runtime id s (s.guards id)
step s (drops id runtime) = let_go (λ g. g) runtime id s (s.guards id)
step s (ends id l) = run_ending l id s (s.ending id)
