-- ===== src/Worker/Processes/Killing.antt =====
-- Which processes are killed.
use rust_playground.Base.{ℕ, ◌≡◌, ◌≢◌, none, some, List, [], ◌∷◌, ok, All}
use rust_playground.Worker.Processes.{
  start, stdin, stdin_close, kill, Event, command, stdin_shutdown, joined, ProcessState, handle,
}

-- A run of the loop that has met no error.
pub data Runs : ProcessState → List Event → ProcessState → Type 0 where
  here : {s : ProcessState} → Runs s [] s
  step :
      {s t u : ProcessState} {es : List Event} (e : Event)
      → handle s e ≡ ok t
      → Runs t es u
      → Runs s (e ∷ es) u

-- An event that does not ask to kill job `j` whose token is `token`: neither is the job killed, nor
-- a process begun for it anew, and new tokens are other ones.
abbrev pub Spares : ℕ → ℕ → Event → Type 0
Spares j token (command k (start other (some c) reported)) = (k ≢ j) × (other ≢ token)
Spares j token (command k (start other none reported)) = Unit
Spares j token (command k (stdin packet accepted)) = Unit
Spares j token (command k stdin_close) = Unit
Spares j token (command k kill) = k ≢ j
Spares j token (stdin_shutdown k) = Unit
Spares j token (joined r) = Unit

-- The job's token is kept for it alone and was not cancelled.
pub record IsAlive (j token : ℕ) (s : ProcessState) : Type 0 where
  pub kept : s.kill_tokens j ≡ some token
  pub own : (k : ℕ) → s.kill_tokens k ≡ some token → k ≡ j
  pub spared : All (λ (t : ℕ). t ≢ token) s.cancelled
