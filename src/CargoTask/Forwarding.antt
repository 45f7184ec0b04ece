-- ===== src/CargoTask/Forwarding.antt =====
-- What the task of a run of cargo passes on.
use rust_playground.Base.{
  ◌≡◌, refl, sym, ap, ◌∙◌, subst, ◌↔◌, String, Bool, true, false, none, some, List, [], ◌∷◌, ◌++◌,
  append-nil, append_assoc, Result, ok,
}
use rust_playground.Message.{
  CoordinatorMessage, WorkerMessage, CommandStatistics, ExecuteCommandResponse,
}
use rust_playground.CargoTask.{
  SpawnCargoError, Event, cancelled, stdin, from_worker, Task, goes_on, returns, is_possible,
  handle,
}

-- Events that are possible, oldest first, from a task to the next.
pub data Steps : Task → List Event → Task → Type 0 where
  here : {t : Task} → Steps t [] t
  step :
      {t u v : Task} {es : List Event} (accepted : Bool) (e : Event)
      → is_possible t e ≡ true
      → handle accepted t e ≡ goes_on u
      → Steps u es v
      → Steps t (e ∷ es) v

-- What an event is for the worker and for the three channels of the caller.
abbrev pub request_of : Event → List CoordinatorMessage
request_of cancelled = CoordinatorMessage.kill ∷ []
request_of (stdin (some s)) = CoordinatorMessage.stdin_packet s ∷ []
request_of (stdin none) = CoordinatorMessage.stdin_close ∷ []
request_of (from_worker m) = []

abbrev pub stdout_of : Event → List String
stdout_of (from_worker (WorkerMessage.stdout_packet p)) = p ∷ []
stdout_of _ = []

abbrev pub stderr_of : Event → List String
stderr_of (from_worker (WorkerMessage.stderr_packet p)) = p ∷ []
stderr_of _ = []

abbrev pub status_of : Event → List CommandStatistics
status_of (from_worker (WorkerMessage.command_statistics s)) = s ∷ []
status_of _ = []

abbrev pub gather : {A : Type 0} → (Event → List A) → List Event → List A
gather f [] = []
gather f (e ∷ es) = f e ++ gather f es

-- All that the events were for, and no more, has been passed on in order.
pub record Forwards (t : Task) (es : List Event) (u : Task) : Type 0 where
  pub requests : u.to_worker ≡ t.to_worker ++ gather request_of es
  pub stdouts : u.stdout ≡ t.stdout ++ gather stdout_of es
  pub stderrs : u.stderr ≡ t.stderr ++ gather stderr_of es
  pub statuses : u.status ≡ t.status ++ gather status_of es

pub goes_on-injective : {t u : Task} → goes_on t ≡ goes_on u → t ≡ u
goes_on-injective h = cc

nothing : {A : Type 0} (xs : List A) → xs ≡ xs ++ []
nothing xs = sym (append-nil xs)

handle-Forwards :
    (accepted : Bool) (t : Task) (e : Event) {u : Task}
    → handle accepted t e ≡ goes_on u
    → Forwards t (e ∷ []) u
unfolding handle
handle-Forwards true t cancelled h =
    subst (Forwards t (cancelled ∷ [])) (goes_on-injective h) (record {
      requests = refl;
      stdouts = nothing t.stdout;
      stderrs = nothing t.stderr;
      statuses = nothing t.status;
    })
handle-Forwards false t cancelled h = cc
handle-Forwards true t (stdin (some s)) h =
    subst (Forwards t (stdin (some s) ∷ [])) (goes_on-injective h) (record {
      requests = refl;
      stdouts = nothing t.stdout;
      stderrs = nothing t.stderr;
      statuses = nothing t.status;
    })
handle-Forwards false t (stdin (some s)) h = cc
handle-Forwards true t (stdin none) h =
    subst (Forwards t (stdin none ∷ [])) (goes_on-injective h) (record {
      requests = refl;
      stdouts = nothing t.stdout;
      stderrs = nothing t.stderr;
      statuses = nothing t.status;
    })
handle-Forwards false t (stdin none) h = cc
handle-Forwards a t (from_worker (WorkerMessage.stdout_packet p)) h =
    subst (Forwards t (from_worker (WorkerMessage.stdout_packet p) ∷ [])) (goes_on-injective h)
      (record {
        requests = nothing t.to_worker;
        stdouts = refl;
        stderrs = nothing t.stderr;
        statuses = nothing t.status;
      })
handle-Forwards a t (from_worker (WorkerMessage.stderr_packet p)) h =
    subst (Forwards t (from_worker (WorkerMessage.stderr_packet p) ∷ [])) (goes_on-injective h)
      (record {
        requests = nothing t.to_worker;
        stdouts = nothing t.stdout;
        stderrs = refl;
        statuses = nothing t.status;
      })
handle-Forwards a t (from_worker (WorkerMessage.command_statistics p)) h =
    subst (Forwards t (from_worker (WorkerMessage.command_statistics p) ∷ [])) (goes_on-injective h)
      (record {
        requests = nothing t.to_worker;
        stdouts = nothing t.stdout;
        stderrs = nothing t.stderr;
        statuses = refl;
      })
handle-Forwards a t (from_worker _) h = cc

join :
    {A : Type 0} (f : Event → List A) (e : Event) (es : List Event) (x : List A) {y z : List A}
    → y ≡ x ++ gather f (e ∷ [])
    → z ≡ y ++ gather f es
    → z ≡ x ++ gather f (e ∷ es)
join f e es x p q =
    q
    ∙ ap (λ l. l ++ gather f es) (p ∙ ap (λ l. x ++ l) (append-nil (f e)))
    ∙ append_assoc x (f e) (gather f es)

-- As long as the task goes on, however events interleave, the worker is sent just the caller's
-- input, its end and the cancellation, and the caller just the worker's packets and statistics,
-- each channel all of its own and in order.
pub Steps-Forwards : {t u : Task} {es : List Event} → Steps t es u → Forwards t es u
Steps-Forwards {t} here = record {
  requests = nothing t.to_worker;
  stdouts = nothing t.stdout;
  stderrs = nothing t.stderr;
  statuses = nothing t.status;
}
Steps-Forwards {t} (step {u} {v} {es} accepted e p h s) =
    let first = handle-Forwards accepted t e h in
    let rest = Steps-Forwards s in
    record {
      requests = join request_of e es t.to_worker first.requests rest.requests;
      stdouts = join stdout_of e es t.stdout first.stdouts rest.stdouts;
      stderrs = join stderr_of e es t.stderr first.stderrs rest.stderrs;
      statuses = join status_of e es t.status first.statuses rest.statuses;
    }

returns-injective :
    {a b : Result ExecuteCommandResponse SpawnCargoError} → returns a ≡ returns b → a ≡ b
returns-injective h = cc

ok-injective :
    {a b : ExecuteCommandResponse}
    → ◌≡◌ {A = Result ExecuteCommandResponse SpawnCargoError} (ok a) (ok b)
    → a ≡ b
ok-injective h = cc

handle-ok :
    (accepted : Bool) (t : Task) (e : Event) (r : ExecuteCommandResponse)
    → handle accepted t e ≡ returns (ok r)
    → e ≡ from_worker (WorkerMessage.execute_command r)
unfolding handle
handle-ok true t cancelled r h = cc
handle-ok false t cancelled r h = cc
handle-ok true t (stdin (some s)) r h = cc
handle-ok false t (stdin (some s)) r h = cc
handle-ok true t (stdin none) r h = cc
handle-ok false t (stdin none) r h = cc
handle-ok a t (from_worker (WorkerMessage.execute_command x)) r h =
    ap (λ y. from_worker (WorkerMessage.execute_command y)) (ok-injective (returns-injective h))
handle-ok a t (from_worker _) r h = cc

-- The task ends well exactly on the worker's response to the command, and returns that response.
pub handle-ok_iff :
    (accepted : Bool) (t : Task) (e : Event) (r : ExecuteCommandResponse)
    → (handle accepted t e ≡ returns (ok r)) ↔ (e ≡ from_worker (WorkerMessage.execute_command r))
unfolding handle
handle-ok_iff accepted t e r = (handle-ok accepted t e r, λ q. rw q refl)
