-- ===== src/WebSocket/Session.antt =====
-- One session over a WebSocket: `handle_core`, `handle_msg` and what they call, of
-- ui/src/server_axum/websocket.rs. The messages are read already, as `serde_json` does it. An
-- execution is its task's number, which stands for its token and the channel to its standard input
-- too. The channel `tx`, of three places, is the list of what waits in it; a send of the session's
-- own loop to a full one never returns, since only that loop takes from it.
pub mod Loop
pub mod Changes
pub mod Silenced
pub mod Collected
pub mod Exclusive
pub mod Tokens
pub mod Waiting
use Prim.Native.String.{◌++◌ as str_append}
use rust_playground.Base.{
  ℕ, String, Bool, true, false, not, Option, none, some, List, [], ◌∷◌, ◌++◌, map, Result, ok, err,
  keep, length, ltb, ◌==◌, if◌then◌else◌,
}
use rust_playground.Api.{ApiExecuteRequest}
use rust_playground.WebSocket.{Meta, server_meta, MessageResponse, error, feature_flags}
use rust_playground.WebSocket.Manager.{Manager, manager}

pub data WsMessageRequest : Type 0 where
  execute_request : ApiExecuteRequest → Meta → WsMessageRequest
  execute_stdin : String → Meta → WsMessageRequest
  execute_stdin_close execute_kill : Meta → WsMessageRequest

-- An error is the texts that `snafu::CleanedErrorText` makes of it.
abbrev pub TaggedError : Type 0
TaggedError = List String × Option Meta

abbrev pub joined : String → List String → String
joined e [] = e
joined e (t ∷ ts) = joined (str_append e (str_append ": " t)) ts

abbrev pub reduced : List String → String
reduced [] = ""
reduced (t ∷ ts) = joined t ts

abbrev pub or_server : Option Meta → Meta
or_server none = server_meta
or_server (some m) = m

unfoldable pub error_to_response : TaggedError → MessageResponse
error_to_response (texts, meta) = error (reduced texts) (or_server meta)

unfoldable pub to_response : Result MessageResponse TaggedError → MessageResponse
unfolding error_to_response
to_response (ok r) = r
to_response (err e) = error_to_response e

-- `ActiveExecutionInfo` with its key: whether the sender of standard input is there.
pub record ActiveExecution : Type 0 where
  pub sequence_number : Meta
  pub job : ℕ
  pub has_stdin : Bool

-- The state of `handle_core`, with the tokens that were cancelled, what the executions and the
-- browser were sent, and the counters of messages.
pub record Session : Type 0 where
  pub manager : Manager
  pub active : List ActiveExecution
  pub cancelled : List ℕ
  pub idle_timer : Bool
  pub waiting : List (Result MessageResponse TaggedError)
  pub inputs : List (ℕ × String)
  pub sent : List MessageResponse
  pub incoming : ℕ
  pub outgoing : List Bool

pub data Handled : Type 0 where
  goes_on : Session → Handled
  breaks : Session → Handled
  blocks : Session → Handled

-- `connect_handshake`, on the first message: its text, what `serde_json` reads of it, and whether
-- the echo is sent.
unfoldable pub connect_handshake : Option (String × Option Bool) → (String → Bool) → Bool
connect_handshake none sends = false
connect_handshake (some (txt, none)) sends = false
connect_handshake (some (txt, some accepts)) sends = if not accepts then false else sends txt

-- After the handshake.
unfoldable pub start : Option ℕ → Session
unfolding manager
start flags = record {
  manager = manager;
  active = [];
  cancelled = [];
  idle_timer = false;
  waiting = ok (feature_flags flags server_meta) ∷ [];
  inputs = [];
  sent = [];
  incoming = 0;
  outgoing = [];
}

-- `tx.send(…).await` of the loop.
unfoldable pub send : Result MessageResponse TaggedError → Session → Handled
send r s =
    if ltb (length s.waiting) 3
    then goes_on (record s { waiting = s.waiting ++ (r ∷ []) })
    else blocks s

-- The entries that a test keeps; the guards of the others are dropped.
unfoldable pub retain_active : (ActiveExecution → Bool) → Session → Session
retain_active p s = record s {
  active = keep p s.active;
  cancelled = map (λ a. a.job) (keep (λ a. not (p a)) s.active) ++ s.cancelled;
}

abbrev pub is_numbered : Meta → ActiveExecution → Bool
is_numbered k a = a.sequence_number == k

abbrev pub get : Meta → List ActiveExecution → Option ActiveExecution
get k [] = none
get k (a ∷ active) = let rest = get k active in if is_numbered k a then some a else rest

-- `BTreeMap::insert`, which drops the old value.
unfoldable pub insert_active : ActiveExecution → Session → Session
unfolding retain_active
insert_active a s =
    let t = retain_active (λ b. not (is_numbered a.sequence_number b)) s in
    record t { active = a ∷ t.active }

-- `*execution_tx = None`
abbrev pub without_stdin : Meta → List ActiveExecution → List ActiveExecution
without_stdin k [] = []
without_stdin k (a ∷ active) =
    (if is_numbered k a then record a { has_stdin = false } else a) ∷ without_stdin k active
