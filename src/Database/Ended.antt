-- ===== src/Database/Ended.antt =====
-- How requests are recorded in the end.
use rust_playground.Base.{
  ℕ, ◌≡◌, ◌≢◌, refl, sym, ap, ◌∙◌, subst, Bool, true, false, Option, none, some, remove, ==-refl,
  ≢→==, none≢some, some-injective, if◌then◌else◌, is_some,
}
use rust_playground.Database.{
  How, complete_how, error_how, how_code, Row, EndGuardInner, State, initialize, Event, completes,
  ends, step, update, drop_inner, handle_end, end_request, let_go, run_ending,
}
use rust_playground.Database.Accounts.{Account, unused, held, to_end, ended, IsAccounted, Held-of}
use rust_playground.Database.Fates.{step-Refines, works, working, drop_inner-insert}

-- The records that the program comes to while SQLite, the database's task and the runtime work.
pub data Reaches : State → Type 0 where
  none_yet : Reaches initialize
  later : {s t : State} (e : Event) → Reaches s → works e ≡ true → step s e ≡ some t → Reaches t

pub Reaches-IsAccounted : {s : State} → Reaches s → IsAccounted s
unfolding initialize
Reaches-IsAccounted none_yet = λ k. unused
Reaches-IsAccounted (later {s} e r w h) = (step-Refines s e (Reaches-IsAccounted r) w h).accounts

ended-of :
    {k : ℕ} {r : Option Row} {g : Option EndGuardInner} {e : Option How} {x : Row}
    → Account k r g e
    → g ≡ none
    → e ≡ none
    → r ≡ some x
    → is_some x.how ≡ true
ended-of unused a b c = absurd (none≢some c)
ended-of (held p q u v) a b c = absurd (none≢some (sym a))
ended-of (to_end p) a b c = absurd (none≢some (sym b))
ended-of (ended {r} p) a b c = subst (λ x. is_some x.how ≡ true) (some-injective c) (rw p refl)

-- Whatever came before: when the guard of a request has been dropped and its task has run, so that
-- neither is there any more, the row of the request says how it ended.
pub Reaches-ended :
    {s : State}
    → Reaches s
    → (id : ℕ) {r : Row} → s.guards id ≡ none
    → s.ending id ≡ none
    → s.rows id ≡ some r
    → is_some r.how ≡ true
Reaches-ended p id g e r = ended-of (Reaches-IsAccounted p id) g e r

-- A request that is recorded with its result, all else as it was.
pub record RecordsResult (s : State) (id : ℕ) (is_err : Bool) : Type 0 where
  pub between : State
  pub after : State
  pub dropped : step s (completes id is_err true) ≡ some between
  pub ran : step between (ends id working) ≡ some after
  pub row : Row
  pub was : s.rows id ≡ some row
  pub is : after.rows id ≡ some (record row { how = some (if is_err then 2 else 0) })
  pub others : (k : ℕ) → id ≢ k → after.rows k ≡ s.rows k

abbrev result_how : Bool → How
result_how is_err = if is_err then error_how else complete_how

result_code : (b : Bool) → how_code (result_how b) ≡ (if b then 2 else 0)
result_code true = refl
result_code false = refl

-- In every record that the program comes to, a request whose guard is held can be recorded with its
-- result: once its result is there and the task that the guard spawns has run, its row says that it
-- failed or that it is complete, as the result is, and nothing else of that row or of the others
-- has changed.
pub Reaches-records :
    {s : State} (id : ℕ) (is_err : Bool) {g : EndGuardInner}
    → Reaches s
    → s.guards id ≡ some g
    → RecordsResult s id is_err
unfolding step let_go run_ending handle_end end_request
Reaches-records {s} id is_err {g} p h =
    let w = Held-of (Reaches-IsAccounted p id) h in
    let x : EndGuardInner = record g { how = result_how is_err } in
    let between : State = record s {
      guards = remove id s.guards;
      ending = drop_inner true x s.ending;
    } in
    let spawned : between.ending id ≡ some (result_how is_err) =
      ap (λ m. m id) (drop_inner-insert x id s.ending w.handle w.own) ∙ rw (==-refl id) refl in
    record {
      between = between;
      after = record between {
        rows = update id (result_how is_err) s.rows;
        ending = remove id between.ending;
      };
      dropped = rw h refl;
      ran = rw spawned refl;
      row = w.row;
      was = w.has_row;
      is = rw (==-refl id, w.has_row, result_code is_err) refl;
      others = λ k n. rw (≢→== id k n) refl;
    }
