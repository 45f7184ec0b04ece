-- ===== src/Api/Roundtrip.antt =====
-- A request of the web API is accepted exactly when it spells a request to the coordinator.
use rust_playground.Base.{◌≡◌, ◌↔◌, ok, arith}
use rust_playground.Request.{ExecuteRequest, edition_key, crate_type_key}
use rust_playground.Api.{ApiExecuteRequest}
use rust_playground.Api.Words.{
  channel_word, mode_word, crate_type_words, edition_words, channel_words, mode_words,
}
use rust_playground.Api.Convert.{to_execute, ws_to_execute}

-- The request in the words of the web API.
abbrev pub spell_execute : ExecuteRequest → ApiExecuteRequest
spell_execute q = record {
  channel = channel_word q.channel;
  mode = mode_word q.mode;
  edition = edition_key q.edition;
  crate_type = crate_type_key q.crate_type;
  tests = q.tests;
  backtrace = q.backtrace;
  code = q.code;
}

to_execute-spells :
    (r : ApiExecuteRequest) (q : ExecuteRequest) → to_execute r ≡ ok q → r ≡ spell_execute q
unfolding to_execute
to_execute-spells r q h = ground (
  arith,
  channel_words r.channel q.channel,
  mode_words r.mode q.mode,
  edition_words r.edition q.edition,
  crate_type_words r.crate_type q.crate_type,
)

ws_to_execute-spells :
    (r : ApiExecuteRequest) (q : ExecuteRequest) → ws_to_execute r ≡ ok q → r ≡ spell_execute q
unfolding ws_to_execute
ws_to_execute-spells r q h = ground (
  arith,
  channel_words r.channel q.channel,
  mode_words r.mode q.mode,
  edition_words r.edition q.edition,
  crate_type_words r.crate_type q.crate_type,
)

module _ (q : ExecuteRequest) where
  spelled-to_execute : to_execute (spell_execute q) ≡ ok q
  unfolding to_execute
  spelled-to_execute = ground (
    arith,
    channel_words (channel_word q.channel) q.channel,
    mode_words (mode_word q.mode) q.mode,
    edition_words (edition_key q.edition) q.edition,
    crate_type_words (crate_type_key q.crate_type) q.crate_type,
  )

  spelled-ws_to_execute : ws_to_execute (spell_execute q) ≡ ok q
  unfolding ws_to_execute
  spelled-ws_to_execute = ground (
    arith,
    channel_words (channel_word q.channel) q.channel,
    mode_words (mode_word q.mode) q.mode,
    edition_words (edition_key q.edition) q.edition,
    crate_type_words (crate_type_key q.crate_type) q.crate_type,
  )

-- Over HTTP and over the WebSocket alike, a request to execute is accepted as a request to the
-- coordinator exactly when it is that request in the words of the API.
pub to_execute_iff :
    (r : ApiExecuteRequest) (q : ExecuteRequest)
    → ((to_execute r ≡ ok q) ↔ (r ≡ spell_execute q))
      × ((ws_to_execute r ≡ ok q) ↔ (r ≡ spell_execute q))
to_execute_iff r q = (
  (to_execute-spells r q, λ e. rw e (spelled-to_execute q)),
  (ws_to_execute-spells r q, λ e. rw e (spelled-ws_to_execute q)),
)
