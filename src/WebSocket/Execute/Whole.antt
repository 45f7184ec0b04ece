-- ===== src/WebSocket/Execute/Whole.antt =====
-- An execution whose browser and coordinator take everything, and one that does not panic.
use rust_playground.Base.{
  ℕ, ◌≡◌, refl, sym, ap, ◌∙◌, Bool, true, false, some, none, List, [], ◌∷◌, ◌++◌, append-nil,
  append_assoc, subst, Result, ok, err, length, String, ◌&&◌,
}
use rust_playground.Message.{ExecuteCommandResponse}
use rust_playground.WebSocket.{
  Meta, MessageResponse, execute_begin, execute_stdout, execute_stderr, execute_status, execute_end,
  to_status, to_response, from_success,
}
use rust_playground.WebSocket.Execute.{
  Channels, Event, stdin, stdout, stderr, status, Relay, Stop, completed, failed, end, Handled,
  goes_on, stops, Run, and_then, opened, respond, handle, relay, drain, finish, stream,
  execute_inner,
}
use rust_playground.WebSocket.Execute.Stream.{story, gather, response_of, left, last}

-- Whether `select!` can give these events, as standard input is open or not.
unfoldable pub are_possible : Bool → List Event → Bool
are_possible o [] = true
are_possible o (stdin (some t) ∷ es) = o && are_possible o es
are_possible o (stdin none ∷ es) = o && are_possible false es
are_possible o (stdout t ∷ es) = are_possible o es
are_possible o (stderr t ∷ es) = are_possible o es
are_possible o (status t ∷ es) = are_possible o es

abbrev pub chunk_of : Event → List String
chunk_of (stdin (some t)) = t ∷ []
chunk_of _ = []

-- Both channels take everything.
pub record IsOpen (c : Channels) : Type 0 where
  pub all_accepted : (n : ℕ) → c.accepts n ≡ true
  pub all_taken : (n : ℕ) → c.takes n ≡ true

-- Where a relay that said `xs` and passed on `ts` goes on.
pub record GoesOn {E : Type 0} (s : Relay) (ts : List String) (xs : List MessageResponse)
    (h : Handled E) : Type 0 where
  pub to : Relay
  pub on : h ≡ goes_on to
  pub given : to.to_coordinator ≡ s.to_coordinator ++ ts
  pub told : to.responses ≡ s.responses ++ xs

-- How an execution stops that is not disturbed.
abbrev pub stop_for : {E : Type 0} → Result ExecuteCommandResponse E → Stop E
stop_for (ok r) = completed (from_success r)
stop_for (err e) = failed (end e)

-- An execution that stops so after all of `xs`, with all of `ts` passed on.
pub record StopsWith {E : Type 0} (e : Stop E) (ts : List String) (xs : List MessageResponse)
    (h : Handled E) : Type 0 where
  pub to : Relay
  pub on : h ≡ stops e to
  pub given : to.to_coordinator ≡ ts
  pub told : to.responses ≡ xs

abbrev telling : Relay → MessageResponse → Relay
telling s r = record s { responses = s.responses ++ (r ∷ []) }

abbrev giving : Relay → String → Relay
giving s t = record s { to_coordinator = s.to_coordinator ++ (t ∷ []) }

pub both : (a b : Bool) → (a && b) ≡ true → (a ≡ true) × (b ≡ true)
both true b h = (refl, h)
both false b h = absurd cc

module _ {E : Type 0} (c : Channels) (o : IsOpen c) (m : Meta) where
  respond-on : (r : MessageResponse) (s : Relay) → respond {E = E} c m r s ≡ goes_on (telling s r)
  unfolding respond
  respond-on r s = rw (o.all_accepted (length s.responses)) refl

  GoesOn-then :
      {s : Relay} (ts₁ ts₂ : List String) (xs ys : List MessageResponse) {h : Handled E}
      (k : Relay → Handled E) (g : GoesOn s ts₁ xs h)
      → GoesOn g.to ts₂ ys (k g.to)
      → GoesOn s (ts₁ ++ ts₂) (xs ++ ys) (and_then h k)
  GoesOn-then {s} ts₁ ts₂ xs ys k g f = record {
    to = f.to;
    on = ap (λ h. and_then h k) g.on ∙ f.on;
    given = f.given ∙ ap (λ l. l ++ ts₂) g.given ∙ append_assoc s.to_coordinator ts₁ ts₂;
    told = f.told ∙ ap (λ l. l ++ ys) g.told ∙ append_assoc s.responses xs ys;
  }

  GoesOn-nothing : (s : Relay) → GoesOn {E = E} s [] [] (goes_on s)
  GoesOn-nothing s = record {
    to = s;
    on = refl;
    given = sym (append-nil s.to_coordinator);
    told = sym (append-nil s.responses);
  }

  unfoldable tells :
      (s : Relay) (r : MessageResponse) {h : Handled E}
      → h ≡ goes_on (telling s r)
      → GoesOn s [] (r ∷ []) h
  tells s r p = record {
    to = telling s r;
    on = p;
    given = sym (append-nil s.to_coordinator);
    told = refl;
  }

  unfoldable gives :
      (s : Relay) (t : String) {h : Handled E} → h ≡ goes_on (giving s t) → GoesOn s (t ∷ []) [] h
  gives s t p = record {
    to = giving s t;
    on = p;
    given = refl;
    told = sym (append-nil s.responses);
  }

  unfoldable closes :
      (s : Relay) → GoesOn {E = E} s [] [] (goes_on (record s { stdin_open = false }))
  closes s = record {
    to = record s { stdin_open = false };
    on = refl;
    given = sym (append-nil s.to_coordinator);
    told = sym (append-nil s.responses);
  }

  drain-GoesOn :
      (f : String → Meta → MessageResponse) (ts : List String) (s : Relay)
      → GoesOn s [] (left m f ts) (drain {E = E} c m f ts s)
  unfolding drain tells
  drain-GoesOn f [] s = GoesOn-nothing s
  drain-GoesOn f (t ∷ ts) s =
      GoesOn-then [] [] (f t m ∷ []) (left m f ts) (drain c m f ts)
        (tells s (f t m) (respond-on (f t m) s)) (drain-GoesOn f ts (telling s (f t m)))

  relay-GoesOn :
      (es : List Event) (s : Relay)
      → are_possible s.stdin_open es ≡ true
      → GoesOn s (gather chunk_of es) (gather (response_of m) es) (relay {E = E} c m es s)
  unfolding relay handle are_possible closes gives tells
  relay-GoesOn [] s p = GoesOn-nothing s
  relay-GoesOn (stdin (some t) ∷ es) s p =
      let (h, q) = both s.stdin_open (are_possible s.stdin_open es) p in
      GoesOn-then (t ∷ []) (gather chunk_of es) [] (gather (response_of m) es) (relay c m es)
        (gives s t (rw (h, o.all_taken (length s.to_coordinator)) refl))
        (relay-GoesOn es (giving s t) q)
  relay-GoesOn (stdin none ∷ es) s p =
      let (h, q) = both s.stdin_open (are_possible false es) p in
      GoesOn-then [] (gather chunk_of es) [] (gather (response_of m) es) (relay c m es) (closes s)
        (relay-GoesOn es (record s { stdin_open = false }) q)
  relay-GoesOn (stdout t ∷ es) s p =
      let r = execute_stdout t m in
      GoesOn-then [] (gather chunk_of es) (r ∷ []) (gather (response_of m) es) (relay c m es)
        (tells s r (respond-on r s)) (relay-GoesOn es (telling s r) p)
  relay-GoesOn (stderr t ∷ es) s p =
      let r = execute_stderr t m in
      GoesOn-then [] (gather chunk_of es) (r ∷ []) (gather (response_of m) es) (relay c m es)
        (tells s r (respond-on r s)) (relay-GoesOn es (telling s r) p)
  relay-GoesOn (status t ∷ es) s p =
      let r = execute_status (to_status t) m in
      GoesOn-then [] (gather chunk_of es) (r ∷ []) (gather (response_of m) es) (relay c m es)
        (tells s r (respond-on r s)) (relay-GoesOn es (telling s r) p)

  finish-StopsWith :
      (x : Result ExecuteCommandResponse E) (s : Relay)
      → StopsWith (stop_for x) s.to_coordinator (s.responses ++ last m x) (finish c m x s)
  unfolding finish
  finish-StopsWith (err e) s = record {
    to = s;
    on = refl;
    given = refl;
    told = sym (append-nil s.responses);
  }
  finish-StopsWith (ok r) s = record {
    to = telling s (execute_end (to_response r) m);
    on =
        ap (λ h. and_then h (stops (completed (from_success r))))
          (respond-on (execute_end (to_response r) m) s);
    given = refl;
    told = refl;
  }

  StopsWith-after :
      {s : Relay} {e : Stop E} {us : List String} (ts : List String) (xs ys : List MessageResponse)
      {h : Handled E} (k : Relay → Handled E) (g : GoesOn s ts xs h)
      → StopsWith e us (g.to.responses ++ ys) (k g.to)
      → StopsWith e us (s.responses ++ (xs ++ ys)) (and_then h k)
  StopsWith-after {s} ts xs ys k g f = record {
    to = f.to;
    on = ap (λ h. and_then h k) g.on ∙ f.on;
    given = f.given;
    told = f.told ∙ ap (λ l. l ++ ys) g.told ∙ append_assoc s.responses xs ys;
  }

  stream-StopsWith :
      (w : Run E)
      → are_possible true w.events ≡ true
      → StopsWith (stop_for w.ended) (gather chunk_of w.events) (story m w) (stream c m none w)
  unfolding stream story tells
  stream-StopsWith w p =
      let begun = tells opened (execute_begin m) (respond-on (execute_begin m) opened) in
      let relayed = relay-GoesOn w.events begun.to p in
      let out = drain-GoesOn execute_stdout w.stdout_left relayed.to in
      let both = drain-GoesOn execute_stderr w.stderr_left out.to in
      let done = finish-StopsWith w.ended both.to in
      let all =
        StopsWith-after [] (execute_begin m ∷ [])
          (gather (response_of m) w.events
            ++ (left m execute_stdout w.stdout_left
                ++ (left m execute_stderr w.stderr_left ++ last m w.ended)))
          _ begun
          (StopsWith-after (gather chunk_of w.events) (gather (response_of m) w.events)
            (left m execute_stdout w.stdout_left
              ++ (left m execute_stderr w.stderr_left ++ last m w.ended))
            _ relayed
            (StopsWith-after [] (left m execute_stdout w.stdout_left)
              (left m execute_stderr w.stderr_left ++ last m w.ended) _ out
              (StopsWith-after [] (left m execute_stderr w.stderr_left) (last m w.ended) _ both
                done))) in
      subst (λ ts. StopsWith (stop_for w.ended) ts (story m w) (stream c m none w))
        (both.given
          ∙ append-nil out.to.to_coordinator
          ∙ out.given
          ∙ append-nil relayed.to.to_coordinator
          ∙ relayed.given)
        all

-- Where the browser takes every response and the coordinator every chunk of input, and the events
-- are possible, an execution that begins comes to its end: the browser has been sent the whole
-- story, the coordinator all the input in order, and it completes exactly as the coordinator's
-- response says, or fails with the coordinator's error.
pub execute_inner-StopsWith :
    {E : Type 0} (c : Channels) (m : Meta) (w : Run E)
    → IsOpen c
    → are_possible true w.events ≡ true
    → w.begun ≡ none
    → StopsWith (stop_for w.ended) (gather chunk_of w.events) (story m w) (execute_inner c m w)
unfolding execute_inner
execute_inner-StopsWith c m w o p b =
    subst
      (λ x. StopsWith (stop_for w.ended) (gather chunk_of w.events) (story m w) (stream c m x w))
      (sym b) (stream-StopsWith c o m w p)
