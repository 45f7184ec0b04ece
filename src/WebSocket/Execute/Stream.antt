-- ===== src/WebSocket/Execute/Stream.antt =====
-- What the browser is sent of one execution.
use rust_playground.Base.{
  ◌≡◌, ◌≢◌, refl, sym, ap, ◌∙◌, some, none, List, [], ◌∷◌, ◌++◌, map, append-nil, append_assoc,
  Result, ok, err, length, Bool-cases, Option, inl, inr, String,
}
use rust_playground.Message.{ExecuteCommandResponse}
use rust_playground.Metrics.{Outcome}
use rust_playground.WebSocket.{
  Meta, MessageResponse, execute_begin, execute_stdout, execute_stderr, execute_status, execute_end,
  to_status, to_response, from_success,
}
use rust_playground.WebSocket.Execute.{
  Channels, Event, stdin, stdout, stderr, status, Relay, Stop, completed, Handled, goes_on, stops,
  Run, and_then, opened, respond, handle, relay, drain, finish, stream, execute_inner,
}

abbrev pub response_of : Meta → Event → List MessageResponse
response_of m (stdin s) = []
response_of m (stdout t) = execute_stdout t m ∷ []
response_of m (stderr t) = execute_stderr t m ∷ []
response_of m (status s) = execute_status (to_status s) m ∷ []

abbrev pub gather : {A : Type 0} → (Event → List A) → List Event → List A
gather f [] = []
gather f (e ∷ es) = f e ++ gather f es

abbrev pub left : Meta → (String → Meta → MessageResponse) → List String → List MessageResponse
left m f ts = map (λ t. f t m) ts

abbrev pub last : {E : Type 0} → Meta → Result ExecuteCommandResponse E → List MessageResponse
last m (err e) = []
last m (ok r) = execute_end (to_response r) m ∷ []

-- All that there is to say of a run: the output as it comes, then what is left of it.
unfoldable pub story : {E : Type 0} → Meta → Run E → List MessageResponse
story m w =
    execute_begin m
    ∷ (gather (response_of m) w.events
        ++ (left m execute_stdout w.stdout_left
            ++ (left m execute_stderr w.stderr_left ++ last m w.ended)))

-- How an execution stops: with the whole story, if it completed, and else somewhere in it.
pub data Reports {E : Type 0} (m : Meta) (w : Run E) : Handled E → Type 0 where
  whole :
      {r : ExecuteCommandResponse} {u : Relay}
      → w.begun ≡ none
      → w.ended ≡ ok r
      → u.responses ≡ story m w
      → Reports m w (stops (completed (from_success r)) u)
  part :
      {e : Stop E} {u : Relay} (rest : List MessageResponse)
      → ((o : Outcome) → e ≢ completed o)
      → u.responses ++ rest ≡ story m w
      → Reports m w (stops e u)

-- After `xs` more responses it goes on, or it stopped somewhere before.
pub data Tells {E : Type 0} (s : Relay) (xs : List MessageResponse) : Handled E → Type 0 where
  all : {u : Relay} → u.responses ≡ s.responses ++ xs → Tells s xs (goes_on u)
  some_of :
      {e : Stop E} {u : Relay} (rest : List MessageResponse)
      → ((o : Outcome) → e ≢ completed o)
      → u.responses ++ rest ≡ s.responses ++ xs
      → Tells s xs (stops e u)

module _ {E : Type 0} where
  later :
      {s u : Relay} (xs ys : List MessageResponse) {h : Handled E}
      → u.responses ≡ s.responses ++ xs
      → Tells u ys h
      → Tells s (xs ++ ys) h
  later {s} xs ys p (all q) = all (q ∙ ap (λ l. l ++ ys) p ∙ append_assoc s.responses xs ys)
  later {s} xs ys p (some_of rest n q) =
      some_of rest n (q ∙ ap (λ l. l ++ ys) p ∙ append_assoc s.responses xs ys)

  Tells-and_then :
      {s : Relay} {xs ys : List MessageResponse} {h : Handled E} {k : Relay → Handled E}
      → Tells s xs h
      → ((u : Relay) → Tells u ys (k u))
      → Tells s (xs ++ ys) (and_then h k)
  Tells-and_then {xs} {ys} (all {u} p) f = later xs ys p (f u)
  Tells-and_then {s} {xs} {ys} (some_of {u} rest n p) f = some_of (rest ++ ys) n (
      sym (append_assoc u.responses rest ys) ∙ ap (λ l. l ++ ys) p ∙ append_assoc s.responses xs ys)

  Tells-nothing : (s : Relay) → Tells {E = E} s [] (goes_on s)
  Tells-nothing s = all (sym (append-nil s.responses))

  module _ (c : Channels) (m : Meta) where
    respond-Tells : (r : MessageResponse) (s : Relay) → Tells s (r ∷ []) (respond {E = E} c m r s)
    unfolding respond
    respond-Tells r s = elim (Bool-cases (c.accepts (length s.responses))) [
      | inl h ↦ rw h (all refl)
      | inr h ↦ rw h (some_of (r ∷ []) (λ o q. cc) refl)
    ]

    handle-Tells : (e : Event) (s : Relay) → Tells s (response_of m e) (handle {E = E} c m e s)
    unfolding handle
    handle-Tells (stdin (some t)) s = elim (Bool-cases s.stdin_open) [
      | inl h ↦ elim (Bool-cases (c.takes (length s.to_coordinator))) [
        | inl k ↦ rw (h, k) (all (sym (append-nil s.responses)))
        | inr k ↦ rw (h, k) (some_of [] (λ o q. cc) refl)
      ]
      | inr h ↦ rw h (some_of [] (λ o q. cc) refl)
    ]
    handle-Tells (stdin none) s = all (sym (append-nil s.responses))
    handle-Tells (stdout t) s = respond-Tells (execute_stdout t m) s
    handle-Tells (stderr t) s = respond-Tells (execute_stderr t m) s
    handle-Tells (status t) s = respond-Tells (execute_status (to_status t) m) s

    relay-Tells :
        (es : List Event) (s : Relay) → Tells s (gather (response_of m) es) (relay {E = E} c m es s)
    unfolding relay
    relay-Tells [] s = Tells-nothing s
    relay-Tells (e ∷ es) s = Tells-and_then (handle-Tells e s) (relay-Tells es)

    drain-Tells :
        (f : String → Meta → MessageResponse) (ts : List String) (s : Relay)
        → Tells s (left m f ts) (drain {E = E} c m f ts s)
    unfolding drain
    drain-Tells f [] s = Tells-nothing s
    drain-Tells f (t ∷ ts) s = Tells-and_then (respond-Tells (f t m) s) (drain-Tells f ts)

    finish-Reports :
        {w : Run E} (x : Result ExecuteCommandResponse E) (s : Relay)
        → w.begun ≡ none
        → w.ended ≡ x
        → s.responses ++ last m x ≡ story m w
        → Reports m w (finish c m x s)
    unfolding finish respond
    finish-Reports (err e) s b q p = part [] (λ o q. cc) p
    finish-Reports (ok r) s b q p = elim (Bool-cases (c.accepts (length s.responses))) [
      | inl h ↦ rw h (whole b q p)
      | inr h ↦ rw h (part (execute_end (to_response r) m ∷ []) (λ o q. cc) p)
    ]

    -- A part of a run that tells its own, and what follows it.
    then-Reports :
        {w : Run E} {s : Relay} (xs rest : List MessageResponse) {h : Handled E}
        {k : Relay → Handled E}
        → s.responses ++ (xs ++ rest) ≡ story m w
        → Tells s xs h
        → ((u : Relay) → u.responses ++ rest ≡ story m w → Reports m w (k u))
        → Reports m w (and_then h k)
    then-Reports {s} xs rest p (all {u} q) f =
        f u (ap (λ l. l ++ rest) q ∙ append_assoc s.responses xs rest ∙ p)
    then-Reports {s} xs rest p (some_of {u} gone n q) f = part (gone ++ rest) n (
        sym (append_assoc u.responses gone rest)
        ∙ ap (λ l. l ++ rest) q
        ∙ append_assoc s.responses xs rest
        ∙ p)

    stream-Reports : {w : Run E} (b : Option E) → w.begun ≡ b → Reports m w (stream c m b w)
    unfolding stream story
    stream-Reports {w} (some e) b = part (story m w) (λ o q. cc) refl
    stream-Reports {w} none b =
        then-Reports (execute_begin m ∷ [])
          (gather (response_of m) w.events
            ++ (left m execute_stdout w.stdout_left
                ++ (left m execute_stderr w.stderr_left ++ last m w.ended)))
          {h = respond c m (execute_begin m) opened} refl (respond-Tells (execute_begin m) opened)
          λ s p.
            then-Reports (gather (response_of m) w.events)
              (left m execute_stdout w.stdout_left
                ++ (left m execute_stderr w.stderr_left ++ last m w.ended))
              (p) (relay-Tells w.events s)
              λ s p.
                then-Reports (left m execute_stdout w.stdout_left)
                  (left m execute_stderr w.stderr_left ++ last m w.ended) p
                  (drain-Tells execute_stdout w.stdout_left s)
                  λ s p.
                    then-Reports (left m execute_stderr w.stderr_left) (last m w.ended) p
                      (drain-Tells execute_stderr w.stderr_left s)
                      λ s p. finish-Reports w.ended s b refl p

-- An execution always stops. Whatever channels close and whatever happens meanwhile, what the
-- browser was sent is a beginning of the run's whole story (that it began, every piece of output
-- and every status as they came, what was left of the output, and its end), and it is all of the
-- story if the execution completed, which is then recorded with the success of the coordinator's
-- response.
pub execute_inner-Reports :
    {E : Type 0} (c : Channels) (m : Meta) (w : Run E) → Reports m w (execute_inner c m w)
unfolding execute_inner
execute_inner-Reports c m w = stream-Reports c m w.begun refl
