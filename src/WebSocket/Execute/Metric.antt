-- ===== src/WebSocket/Execute/Metric.antt =====
-- What is recorded of an execution over a WebSocket.
use rust_playground.Base.{
  ◌≡◌, refl, Bool, true, false, some, none, is_some, List, [], ◌∷◌, Result, ok, err, is_ok, length,
  String, Bool-cases, Option, inl, inr, not, ◌&&◌,
}
use rust_playground.Message.{ExecuteCommandResponse}
use rust_playground.Api.{ApiExecuteRequest, ParseError}
use rust_playground.Api.Convert.{ws_to_execute}
use rust_playground.Request.{ExecuteRequest}
use rust_playground.WebSocket.{
  Meta, MessageResponse, execute_begin, execute_stdout, execute_stderr, execute_status, execute_end,
  to_status, to_response,
}
use rust_playground.WebSocket.Execute.{
  Channels, Event, stdin, stdout, stderr, status, Relay, abandoned, completed, failed, panicked,
  Handled, goes_on, stops, Run, and_then, opened, respond, handle, relay, drain, finish, stream,
  execute_inner, metric_of, handle_execute, execute_read, metric_recorded,
}
use rust_playground.WebSocket.Execute.Stream.{Reports, execute_inner-Reports}
use rust_playground.WebSocket.Execute.Whole.{are_possible, both}

abbrev is_calm : {E : Type 0} → Handled E → Bool
is_calm (stops panicked s) = false
is_calm _ = true

module _ (E : Type 0) (c : Channels) (m : Meta) where
  then_calm :
      (h : Handled E) (k : Relay → Handled E)
      → is_calm h ≡ true
      → ((u : Relay) → is_calm (k u) ≡ true)
      → is_calm (and_then h k) ≡ true
  then_calm (goes_on u) k p f = f u
  then_calm (stops e u) k p f = p

  respond_calm : (r : MessageResponse) (s : Relay) → is_calm (respond {E = E} c m r s) ≡ true
  unfolding respond
  respond_calm r s = elim (Bool-cases (c.accepts (length s.responses))) [
    | inl h ↦ rw h refl
    | inr h ↦ rw h refl
  ]

  -- A response leaves standard input as it is.
  respond_then_calm :
      (r : MessageResponse) (s : Relay) (k : Relay → Handled E)
      → ((u : Relay) → u.stdin_open ≡ s.stdin_open → is_calm (k u) ≡ true)
      → is_calm (and_then (respond c m r s) k) ≡ true
  unfolding respond
  respond_then_calm r s k f = elim (Bool-cases (c.accepts (length s.responses))) [
    | inl h ↦ rw h (f _ refl)
    | inr h ↦ rw h refl
  ]

  relay_calm :
      (es : List Event) (s : Relay)
      → are_possible s.stdin_open es ≡ true
      → is_calm (relay {E = E} c m es s) ≡ true
  unfolding relay handle are_possible
  relay_calm [] s p = refl
  relay_calm (stdin (some t) ∷ es) s p =
      let (h, q) = both s.stdin_open (are_possible s.stdin_open es) p in
      elim (Bool-cases (c.takes (length s.to_coordinator))) [
        | inl k ↦ rw (h, k) (relay_calm es _ (rw h at q))
        | inr k ↦ rw (h, k) refl
      ]
  relay_calm (stdin none ∷ es) s p =
      let (h, q) = both s.stdin_open (are_possible false es) p in
      relay_calm es (record s { stdin_open = false }) q
  relay_calm (stdout t ∷ es) s p =
      respond_then_calm (execute_stdout t m) s (relay c m es) λ u q. relay_calm es u (rw q p)
  relay_calm (stderr t ∷ es) s p =
      respond_then_calm (execute_stderr t m) s (relay c m es) λ u q. relay_calm es u (rw q p)
  relay_calm (status t ∷ es) s p =
      respond_then_calm (execute_status (to_status t) m) s (relay c m es)
        λ u q. relay_calm es u (rw q p)

  drain_calm :
      (f : String → Meta → MessageResponse) (ts : List String) (s : Relay)
      → is_calm (drain {E = E} c m f ts s) ≡ true
  unfolding drain
  drain_calm f [] s = refl
  drain_calm f (t ∷ ts) s =
      then_calm (respond c m (f t m) s) (drain c m f ts) (respond_calm (f t m) s) (drain_calm f ts)

  finish_calm : (x : Result ExecuteCommandResponse E) (s : Relay) → is_calm (finish c m x s) ≡ true
  unfolding finish
  finish_calm (err e) s = refl
  finish_calm (ok r) s =
      then_calm (respond c m (execute_end (to_response r) m) s) _
        (respond_calm (execute_end (to_response r) m) s) λ u. refl

  stream_calm :
      (b : Option E) (w : Run E)
      → are_possible true w.events ≡ true
      → is_calm (stream c m b w) ≡ true
  unfolding stream
  stream_calm (some e) w p = refl
  stream_calm none w p = respond_then_calm (execute_begin m) opened _ λ s q.
      then_calm (relay c m w.events s) _ (relay_calm w.events s (rw q p)) λ s.
        then_calm (drain c m execute_stdout w.stdout_left s) _
          (drain_calm execute_stdout w.stdout_left s)
          λ s.
            then_calm (drain c m execute_stderr w.stderr_left s) _
              (drain_calm execute_stderr w.stderr_left s) λ s. finish_calm w.ended s

metric_of-some :
    {E : Type 0} {m : Meta} {w : Run E} (r : ExecuteRequest) (h : Handled E)
    → Reports m w h
    → is_calm h ≡ true
    → is_some (metric_of r h) ≡ true
metric_of-some r (stops abandoned u) t p = refl
metric_of-some r (stops (completed o) u) t p = refl
metric_of-some r (stops (failed e) u) t p = refl
metric_of-some r (stops panicked u) t p = absurd cc
metric_of-some r (goes_on u) t p = elim t [ ]

execute_read-metric :
    {E : Type 0} (c : Channels) (m : Meta) (w : Run E) (x : Result ExecuteRequest ParseError)
    → are_possible true w.events ≡ true
    → is_some (execute_read c m w x).1 ≡ is_ok x
unfolding execute_inner execute_read
execute_read-metric c m w (err e) p = refl
execute_read-metric {E} c m w (ok r) p =
    metric_of-some r (execute_inner c m w) (execute_inner-Reports c m w)
      (stream_calm E c m w.begun w p)

-- When the events of an execution are possible, its duration is recorded exactly when its task was
-- not aborted at an await and the request could be read: also where the browser is gone, the
-- execution fails, or it cannot begin, and the `unwrap` of the way to standard input never panics.
pub handle_execute-metric :
    {E : Type 0} (aborted : Bool) (c : Channels) (m : Meta) (request : ApiExecuteRequest)
    (w : Run E)
    → are_possible true w.events ≡ true
    → is_some (metric_recorded aborted c m request w)
      ≡ (not aborted && is_ok (ws_to_execute request))
unfolding handle_execute metric_recorded
handle_execute-metric true c m request w p = refl
handle_execute-metric false c m request w p = execute_read-metric c m w (ws_to_execute request) p
