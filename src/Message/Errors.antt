-- ===== src/Message/Errors.antt =====
-- Errors as they are sent to the coordinator (`SerializedError2` of
-- compiler/base/orchestrator/src/message.rs). The texts that `snafu::CleanedErrorText` makes of an
-- error are the list that `new` is given.
use rust_playground.Base.{
  String, ◌≡◌, refl, ap, Bool, not, List, [], ◌∷◌, ◌++◌, append_assoc, str_eq, keep,
}
use mathlib.Core.List.{reverse, reverse-reverse, reverse-cons}
use rust_playground.Message.{SerializedError, SerializedError2, bare, caused}

-- `fold(None, |source, message| Some(Box::new(Self { source, message })))`, after the first step.
fold_sources : SerializedError2 → List String → SerializedError2
fold_sources source [] = source
fold_sources source (message ∷ messages) = fold_sources (caused message source) messages

-- The messages behind the first one, outermost last, under the first one.
with_source : String → List String → SerializedError2
unfolding fold_sources
with_source message [] = bare message
with_source message (innermost ∷ outward) = caused message (fold_sources (bare innermost) outward)

abbrev pub non_empty : String → Bool
non_empty t = not (str_eq t "")

from_messages : List String → SerializedError2
unfolding with_source
from_messages [] = with_source "No error message" []
from_messages (message ∷ messages) = with_source message (reverse messages)

-- `SerializedError2::new`
unfoldable pub new : List String → SerializedError2
unfolding from_messages
new texts = from_messages (keep non_empty texts)

-- `SerializedError2::adapt`
unfoldable pub adapt : SerializedError → SerializedError2
adapt other = bare other.text

-- The messages of an error, as a report prints them by walking `source`.
abbrev pub chain : SerializedError2 → List String
chain (bare message) = message ∷ []
chain (caused message source) = message ∷ chain source

-- What an error with these texts should report.
abbrev pub reported : List String → List String
reported [] = "No error message" ∷ []
reported (t ∷ ts) = t ∷ ts

chain-fold_sources :
    (source : SerializedError2) (messages : List String)
    → chain (fold_sources source messages) ≡ reverse messages ++ chain source
unfolding fold_sources
chain-fold_sources source [] = refl
chain-fold_sources source (m ∷ ms) =
    rw (chain-fold_sources (caused m source) ms, reverse-cons m ms) (rw append_assoc refl)

chain-with_source :
    (message : String) (messages : List String)
    → chain (with_source message messages) ≡ message ∷ reverse messages
unfolding with_source
chain-with_source message [] = refl
chain-with_source message (m ∷ ms) =
    ap (λ l. message ∷ l) (rw (chain-fold_sources (bare m) ms, reverse-cons m ms))

chain-from_messages : (messages : List String) → chain (from_messages messages) ≡ reported messages
unfolding from_messages
chain-from_messages [] = refl
chain-from_messages (m ∷ ms) = rw (chain-with_source m (reverse ms), reverse-reverse)

-- The error that is sent reports exactly the texts that are not empty, outermost first, and
-- "No error message" when there is none.
chain-new : (texts : List String) → chain (new texts) ≡ reported (keep non_empty texts)
unfolding new
chain-new texts = chain-from_messages (keep non_empty texts)
