-- ===== src/Container/Collected.antt =====
-- The output of an execution, from the worker to the caller.
use rust_playground.Base.{◌↔◌, ◌≡◌, refl, sym, ap, ◌∙◌, Bool, List, Result, ok, err}
use rust_playground.Message.{ExecuteCommandResponse, WorkerMessage}
use rust_playground.CargoTask.{SpawnCargoError, Event, from_worker, Task, returns, start, handle}
use rust_playground.CargoTask.Forwarding.{
  Steps, Steps-Forwards, stdout_of, stderr_of, gather, handle-ok_iff,
}
use rust_playground.Container.{TaskError, cargo_failed, cargo_response}
use rust_playground.Container.Tasks.{
  PlainResponse, WithOutput, collect, plain_task, try_absorb, execute,
}

-- What `execute` returns on the response of the worker after the events `es`.
abbrev pub output_of : List Event → ExecuteCommandResponse → WithOutput PlainResponse
output_of es r = record {
  response = record { success = r.success; exit_detail = r.exit_detail };
  stdout = collect (gather stdout_of es);
  stderr = collect (gather stderr_of es);
}

abbrev response_to :
    {E : Type 0}
    → List Event
    → Result ExecuteCommandResponse SpawnCargoError
    → Result (WithOutput PlainResponse) (TaskError E)
response_to es (ok r) = ok (output_of es r)
response_to es (err e) = err (cargo_failed e)

execute-response_to :
    {E : Type 0} (es : List Event) (t : Task) (r : Result ExecuteCommandResponse SpawnCargoError)
    → t.stdout ≡ gather stdout_of es
    → t.stderr ≡ gather stderr_of es
    → execute {E = E} t r ≡ response_to es r
unfolding execute plain_task cargo_response try_absorb
execute-response_to es t (ok r) p q = rw (p, q) refl
execute-response_to es t (err e) p q = refl

returns-injective :
    {a b : Result ExecuteCommandResponse SpawnCargoError} → returns a ≡ returns b → a ≡ b
returns-injective h = cc

module _ {E : Type 0} (accepted : Bool) (t : Task) (es : List Event) (e : Event)
    (w : WithOutput PlainResponse) where
  responded :
      (r : Result ExecuteCommandResponse SpawnCargoError)
      → handle accepted t e ≡ returns r
      → response_to {E = E} es r ≡ ok w
      → (x : ExecuteCommandResponse) × (e ≡ from_worker (WorkerMessage.execute_command x))
        × (w ≡ output_of es x)
  responded (ok x) h q = (x, (handle-ok_iff accepted t e x).0 h, cc)
  responded (err x) h q = absurd cc

  responds :
      (r : Result ExecuteCommandResponse SpawnCargoError) (x : ExecuteCommandResponse)
      → handle accepted t e ≡ returns r
      → e ≡ from_worker (WorkerMessage.execute_command x)
      → w ≡ output_of es x
      → response_to {E = E} es r ≡ ok w
  responds r x h p q =
      ap (response_to es) (returns-injective (sym h ∙ (handle-ok_iff accepted t e x).1 p))
      ∙ ap (λ (w : WithOutput PlainResponse). ok w) (sym q)

-- When the task of cargo returns on the event `e` after the events `es`, however the messages of
-- the worker, standard input and a cancellation interleave: an execution succeeds exactly when `e`
-- is the worker's response to the command, and then gives that response with all that the worker
-- sent of standard output and of standard error, each in order.
pub execute-ok_iff :
    {E : Type 0} {t : Task} {r : Result ExecuteCommandResponse SpawnCargoError} (es : List Event)
    (accepted : Bool) (e : Event) (w : WithOutput PlainResponse)
    → Steps start es t
    → handle accepted t e ≡ returns r
    → (execute {E = E} t r ≡ ok w) ↔ (
        (x : ExecuteCommandResponse) × (e ≡ from_worker (WorkerMessage.execute_command x))
        × (w ≡ output_of es x))
unfolding start
execute-ok_iff {E} {t} {r} es accepted e w s h =
    let f = Steps-Forwards s in
    let p = execute-response_to {E = E} es t r f.stdouts f.stderrs in
    (
      λ q. responded {E = E} accepted t es e w r h (sym p ∙ q),
      λ (x, a, b). p ∙ responds {E = E} accepted t es e w r x h a b,
    )
