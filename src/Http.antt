-- ===== src/Http.antt =====
-- A request over HTTP in ui/src/server_axum.rs: `attempt_record_request` around `with_coordinator`.
-- What the handler does to the rest of the program is a list of effects.
pub mod Answers
pub mod Handlers
use rust_playground.Base.{
  String, Bool, true, false, Option, none, some, List, [], ◌∷◌, ◌++◌, Result, ok, err,
  if◌then◌else◌,
}
use rust_playground.Metrics.{
  Endpoint, endpoint_word, Outcome, success, error_user_code, error_server, error_timeout_soft,
  Labels, LabelsCore, complete,
}
use rust_playground.Database.{How, complete_how, abandoned_how, error_how}
use Prim.Native.String.{◌++◌ as str_append}

-- The errors that a handler answers with: of the request's words, of the operation, of the time
-- that it took, and of the end of the coordinator.
pub data Error (P E : Type 0) : Type 0 where
  request : P → Error P E
  operation : E → Error P E
  timeout : Error P E
  shutdown_coordinator : E → Error P E

-- A row of the request database begins and ends, a coordinator is built, and is shut down or
-- dropped, and a metric is recorded.
pub data Effect : Type 0 where
  start : String → String → Effect
  end : How → Effect
  build : Effect
  shutdown : Effect
  drop : Effect
  record_metric : Labels → Effect

-- The awaits of `with_coordinator` at which a client can go away, when the handler is dropped.
pub data Await : Type 0 where
  in_job in_shutdown : Await

-- Those of `attempt_record_request`. Before there is a guard the database may have been sent the
-- request to begin a row, and then begins it all the same.
pub data Leaving : Type 0 where
  in_start : Bool → Leaving
  later : Await → Leaving

abbrev pub from_success : Bool → Outcome
from_success true = success
from_success false = error_user_code

-- `attempt_record_request`'s `complete_now`, or the drop of the guard.
abbrev pub how_of {ℓ κ} : {A : Type ℓ} {E : Type κ} → Option (Result A E) → How
how_of none = abandoned_how
how_of (some (ok a)) = complete_how
how_of (some (err e)) = error_how

-- What the handler is for: an endpoint with its request and response types. `job` is `none` when
-- the time is up.
pub record Operation (WebReq Req Resp WebResp P E : Type 0) : Type 0 where
  pub endpoint : Endpoint
  pub payload : WebReq → String
  pub try_into : WebReq → Result Req P
  pub labels_core : Req → LabelsCore
  pub job : Req → Option (Result Resp E)
  pub is_success : Resp → Bool
  pub into : Resp → WebResp
  pub shut_down : Result (Unit {0}) E

module _ {WebReq Req Resp WebResp P E : Type 0} (o : Operation WebReq Req Resp WebResp P E) where
  pub outcome_of : Option (Result Resp E) → Outcome
  outcome_of (some (ok v)) = from_success (o.is_success v)
  outcome_of (some (err e)) = error_server
  outcome_of none = error_timeout_soft

  -- `resp.context(TimeoutSnafu)?` and `resp.map(Into::into)`
  pub response_of : Option (Result Resp E) → Result WebResp (Error P E)
  response_of none = err timeout
  response_of (some (ok v)) = ok (o.into v)
  response_of (some (err e)) = err (operation e)

  metric : Req → Effect
  unfolding outcome_of
  metric req = record_metric (complete o.endpoint (o.labels_core req) (outcome_of (o.job req)))

  -- `coordinator.shutdown().await.context(ShutdownCoordinatorSnafu)?; resp`
  pub shutdown_then : Result (Unit {0}) E → Result WebResp (Error P E) → Result WebResp (Error P E)
  shutdown_then (ok u) resp = resp
  shutdown_then (err e) resp = err (shutdown_coordinator e)

  finish :
      Option Await → Result WebResp (Error P E) → List Effect × Option (Result WebResp (Error P E))
  unfolding shutdown_then
  finish (some in_shutdown) resp = (drop ∷ [], none)
  finish (some in_job) resp = (shutdown ∷ [], some (shutdown_then o.shut_down resp))
  finish none resp = (shutdown ∷ [], some (shutdown_then o.shut_down resp))

  -- The rest of `with_coordinator` once the request was read, or could not be.
  with_request : Option Await → Result Req P → List Effect × Option (Result WebResp (Error P E))
  unfolding finish metric response_of
  with_request leaves (err e) = finish leaves (err (request e))
  with_request (some in_job) (ok req) = (drop ∷ [], none)
  with_request (some in_shutdown) (ok req) =
      let (es, r) = finish (some in_shutdown) (response_of (o.job req)) in (metric req ∷ es, r)
  with_request none (ok req) =
      let (es, r) = finish none (response_of (o.job req)) in (metric req ∷ es, r)

  unfoldable pub with_coordinator :
      Option Await → WebReq → List Effect × Option (Result WebResp (Error P E))
  unfolding with_request
  with_coordinator leaves req =
      let (es, r) = with_request leaves (o.try_into req) in (build ∷ es, r)

  start_effect : WebReq → Effect
  start_effect req = start (str_append "http." (endpoint_word o.endpoint)) (o.payload req)

  -- Once there is a guard.
  guarded : Option Await → WebReq → List Effect × Option (Result WebResp (Error P E))
  unfolding with_coordinator start_effect
  guarded leaves req =
      let (es, r) = with_coordinator leaves req in
      (start_effect req ∷ (es ++ end (how_of r) ∷ []), r)

  unfoldable pub attempt_record_request :
      Option Leaving → WebReq → List Effect × Option (Result WebResp (Error P E))
  unfolding guarded
  attempt_record_request (some (in_start begun)) req =
      (if begun then start_effect req ∷ [] else [], none)
  attempt_record_request (some (later a)) req = guarded (some a) req
  attempt_record_request none req = guarded none req
