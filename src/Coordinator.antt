-- ===== src/Coordinator.antt =====
-- The containers of a coordinator (`Coordinator::new`, `select_channel`, `idle` and `shutdown` of
-- compiler/base/orchestrator/src/coordinator.rs). A container and a cancellation token are numbers.
-- How Docker and the container's tasks answer comes with the event.
pub mod Current
use rust_playground.Base.{
  ℕ, suc, Bool, true, false, Option, none, some, List, [], ◌∷◌, Result, ok, err,
}
use rust_playground.Request.{Channel, stable, beta, nightly}

-- A container with the token that it was given.
pub record Container : Type 0 where
  pub id : ℕ
  pub token : ℕ

-- The three cells and the token, with how many containers and tokens there were, and which tokens
-- were cancelled.
pub record Coordinator : Type 0 where
  pub stable_cell : Option Container
  pub beta_cell : Option Container
  pub nightly_cell : Option Container
  pub token : ℕ
  pub cancelled : List ℕ
  pub containers : ℕ

-- The first token is 0.
unfoldable pub coordinator : Coordinator
coordinator = record {
  stable_cell = none;
  beta_cell = none;
  nightly_cell = none;
  token = 0;
  cancelled = [];
  containers = 0;
}

abbrev pub cell : Channel → Coordinator → Option Container
cell stable s = s.stable_cell
cell beta s = s.beta_cell
cell nightly s = s.nightly_cell

abbrev pub set_cell : Channel → Option Container → Coordinator → Coordinator
set_cell stable c s = record s { stable_cell = c }
set_cell beta c s = record s { beta_cell = c }
set_cell nightly c s = record s { nightly_cell = c }

abbrev pub started : Coordinator → Container
started s = record { id = s.containers; token = s.token }

-- `get_or_try_init`, with the error of `Container::new`, should it be called and fail.
unfoldable pub get_or_try_init :
    {E : Type 0}
    → Option E
    → Channel
    → Coordinator
    → Option Container
    → Result Container E × Coordinator
get_or_try_init e channel s (some c) = (ok c, s)
get_or_try_init none channel s none = (
  ok (started s),
  set_cell channel (some (started s)) (record s { containers = suc s.containers }),
)
get_or_try_init (some e) channel s none = (err e, s)

unfoldable pub select_channel :
    {E : Type 0} → Option E → Channel → Coordinator → Result Container E × Coordinator
unfolding get_or_try_init
select_channel e channel s = get_or_try_init e channel s (cell channel s)

-- How `Container::shutdown` goes: well, with an error when it is first polled, or with one later.
pub data Shutdown (E : Type 0) : Type 0 where
  stops : Shutdown E
  fails_at_once fails_later : E → Shutdown E

-- One branch of `try_join!`, when it is first polled: the cell is taken only then, and an error at
-- once ends the join before the next branch is polled.
abbrev pub poll_cell :
    {E : Type 0}
    → Channel
    → Shutdown E
    → Coordinator
    → Option Container
    → (Coordinator → Result (Unit {0}) E × Coordinator)
    → Result (Unit {0}) E × Coordinator
poll_cell channel o s none rest = rest s
poll_cell channel stops s (some c) rest = rest (set_cell channel none s)
poll_cell channel (fails_at_once e) s (some c) rest = (err e, set_cell channel none s)
poll_cell channel (fails_later e) s (some c) rest =
    let (r, t) = rest (set_cell channel none s) in (err e, t)

-- `token.cancel()`, with a new token in its place.
abbrev pub renewed : Coordinator → Coordinator
renewed s = record s { token = suc s.token; cancelled = s.token ∷ s.cancelled }

unfoldable pub idle :
    {E : Type 0} → (Channel → Shutdown E) → Coordinator → Result (Unit {0}) E × Coordinator
idle o s =
    let t = renewed s in
    poll_cell stable (o stable) t t.stable_cell λ t.
      poll_cell beta (o beta) t t.beta_cell
        λ t. poll_cell nightly (o nightly) t t.nightly_cell λ t. (ok tt, t)
