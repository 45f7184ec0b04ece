-- ===== src/CargoTask/Input.antt =====
-- What the worker is sent during a run of cargo.
use rust_playground.Base.{
  ℕ, ◌+◌, ◌≡◌, refl, ap, ◌∙◌, subst, String, Bool, true, false, none, some, List, [], ◌∷◌, ◌++◌,
  map, map-append, append-nil, append_assoc, any, any-append, not, ◌||◌, sym, if◌then◌else◌, arith,
}
use rust_playground.Message.{CoordinatorMessage, WorkerMessage}
use rust_playground.CargoTask.{
  Event, cancelled, stdin, from_worker, Task, goes_on, start, is_possible, handle,
}
use rust_playground.CargoTask.Forwarding.{Steps, here, step, goes_on-injective}

-- What concerns standard input, and how often the command is killed.
abbrev pub input : List CoordinatorMessage → List CoordinatorMessage
input [] = []
input (CoordinatorMessage.kill ∷ ms) = input ms
input (m ∷ ms) = m ∷ input ms

abbrev pub kills : List CoordinatorMessage → ℕ
kills [] = 0
kills (CoordinatorMessage.kill ∷ ms) = 1 + kills ms
kills (m ∷ ms) = kills ms

input-append : (xs ys : List CoordinatorMessage) → input (xs ++ ys) ≡ input xs ++ input ys
input-append [] ys = refl
input-append (CoordinatorMessage.kill ∷ xs) ys = input-append xs ys
input-append (CoordinatorMessage.write_file r ∷ xs) ys = rw (input-append xs ys) refl
input-append (CoordinatorMessage.delete_file r ∷ xs) ys = rw (input-append xs ys) refl
input-append (CoordinatorMessage.read_file r ∷ xs) ys = rw (input-append xs ys) refl
input-append (CoordinatorMessage.execute_command r ∷ xs) ys = rw (input-append xs ys) refl
input-append (CoordinatorMessage.stdin_packet r ∷ xs) ys = rw (input-append xs ys) refl
input-append (CoordinatorMessage.stdin_close ∷ xs) ys = rw (input-append xs ys) refl

kills-append : (xs ys : List CoordinatorMessage) → kills (xs ++ ys) ≡ kills xs + kills ys
kills-append [] ys = omega arith
kills-append (CoordinatorMessage.kill ∷ xs) ys = omega (arith, kills-append xs ys)
kills-append (CoordinatorMessage.write_file r ∷ xs) ys = kills-append xs ys
kills-append (CoordinatorMessage.delete_file r ∷ xs) ys = kills-append xs ys
kills-append (CoordinatorMessage.read_file r ∷ xs) ys = kills-append xs ys
kills-append (CoordinatorMessage.execute_command r ∷ xs) ys = kills-append xs ys
kills-append (CoordinatorMessage.stdin_packet r ∷ xs) ys = kills-append xs ys
kills-append (CoordinatorMessage.stdin_close ∷ xs) ys = kills-append xs ys

-- What came in on standard input, and whether its end and the cancellation came.
abbrev pub typed : List Event → List String
typed [] = []
typed (stdin (some s) ∷ es) = s ∷ typed es
typed (stdin none ∷ es) = typed es
typed (cancelled ∷ es) = typed es
typed (from_worker m ∷ es) = typed es

abbrev pub is_end : Event → Bool
is_end (stdin none) = true
is_end _ = false

abbrev pub is_cancellation : Event → Bool
is_cancellation cancelled = true
is_cancellation _ = false

-- The chunks that came in, and after them their end, once, if it came; one kill if the run was
-- cancelled.
pub record IsOrdered (past : List Event) (t : Task) : Type 0 where
  pub in_order :
      input t.to_worker
      ≡ map CoordinatorMessage.stdin_packet (typed past)
        ++ (if any is_end past then CoordinatorMessage.stdin_close ∷ [] else [])
  pub is_open : t.stdin_open ≡ not (any is_end past)
  pub killed : kills t.to_worker ≡ (if any is_cancellation past then 1 else 0)
  pub live : t.cancellable ≡ not (any is_cancellation past)

typed-append : (xs ys : List Event) → typed (xs ++ ys) ≡ typed xs ++ typed ys
typed-append [] ys = refl
typed-append (stdin (some s) ∷ xs) ys = ap (λ l. s ∷ l) (typed-append xs ys)
typed-append (stdin none ∷ xs) ys = typed-append xs ys
typed-append (cancelled ∷ xs) ys = typed-append xs ys
typed-append (from_worker m ∷ xs) ys = typed-append xs ys

or_false : (b : Bool) → (b || false) ≡ b
or_false true = refl
or_false false = refl

not_yet : (b c : Bool) → b ≡ true → b ≡ not c → c ≡ false
not_yet b true p q = absurd (let h = sym p ∙ q in cc)
not_yet b false p q = refl

open_input :
    (past : List Event) (t : Task)
    → IsOrdered past t
    → t.stdin_open ≡ true
    → input t.to_worker ≡ map CoordinatorMessage.stdin_packet (typed past)
open_input past t o p =
    let q = rw (not_yet t.stdin_open (any is_end past) p o.is_open) at o.in_order in
    q ∙ append-nil (map CoordinatorMessage.stdin_packet (typed past))

-- A message of the worker changes nothing of it.
quiet :
    (past : List Event) (m : WorkerMessage) (t : Task)
    → IsOrdered past t
    → IsOrdered (past ++ (from_worker m ∷ [])) t
quiet past m t o = record {
  in_order = rw (typed-append, any-append, append-nil, or_false) o.in_order;
  is_open = rw (any-append, or_false) o.is_open;
  killed = rw (any-append, or_false) o.killed;
  live = rw (any-append, or_false) o.live;
}

handle-IsOrdered :
    (accepted : Bool) (past : List Event) (t : Task) (e : Event) {u : Task}
    → IsOrdered past t
    → is_possible t e ≡ true
    → handle accepted t e ≡ goes_on u
    → IsOrdered (past ++ (e ∷ [])) u
unfolding handle
handle-IsOrdered false past t cancelled o p h = cc
handle-IsOrdered true past t cancelled o p h =
    let fresh = not_yet t.cancellable (any is_cancellation past) p o.live in
    subst (IsOrdered _) (goes_on-injective h) (record {
      in_order =
          input-append t.to_worker (CoordinatorMessage.kill ∷ [])
          ∙ append-nil (input t.to_worker)
          ∙ rw (typed-append, any-append, append-nil, or_false) o.in_order;
      is_open = rw (any-append, or_false) o.is_open;
      killed =
          kills-append t.to_worker (CoordinatorMessage.kill ∷ [])
          ∙ (let none_yet = rw fresh at o.killed in rw (any-append, fresh) (omega arith));
      live = rw (any-append, fresh) refl;
    })
handle-IsOrdered false past t (stdin (some s)) o p h = cc
handle-IsOrdered true past t (stdin (some s)) o p h =
    let opened = not_yet t.stdin_open (any is_end past) p o.is_open in
    subst (IsOrdered _) (goes_on-injective h) (record {
      in_order =
          input-append t.to_worker (CoordinatorMessage.stdin_packet s ∷ [])
          ∙ rw (typed-append, any-append, opened, append-nil, map-append)
              (ap (λ l. l ++ (CoordinatorMessage.stdin_packet s ∷ [])) (open_input past t o p));
      is_open = rw (any-append, or_false) o.is_open;
      killed =
          kills-append t.to_worker (CoordinatorMessage.stdin_packet s ∷ [])
          ∙ rw (any-append, or_false) (omega (arith, o.killed));
      live = rw (any-append, or_false) o.live;
    })
handle-IsOrdered false past t (stdin none) o p h = cc
handle-IsOrdered true past t (stdin none) o p h =
    let opened = not_yet t.stdin_open (any is_end past) p o.is_open in
    subst (IsOrdered _) (goes_on-injective h) (record {
      in_order =
          input-append t.to_worker (CoordinatorMessage.stdin_close ∷ [])
          ∙ rw (typed-append, any-append, opened, append-nil)
              (ap (λ l. l ++ (CoordinatorMessage.stdin_close ∷ [])) (open_input past t o p));
      is_open = rw (any-append, opened) refl;
      killed =
          kills-append t.to_worker (CoordinatorMessage.stdin_close ∷ [])
          ∙ rw (any-append, or_false) (omega (arith, o.killed));
      live = rw (any-append, or_false) o.live;
    })
handle-IsOrdered a past t (from_worker (WorkerMessage.stdout_packet q)) o p h =
    let n = quiet past (WorkerMessage.stdout_packet q) t o in
    subst (IsOrdered _) (goes_on-injective h)
      (record { in_order = n.in_order; is_open = n.is_open; killed = n.killed; live = n.live })
handle-IsOrdered a past t (from_worker (WorkerMessage.stderr_packet q)) o p h =
    let n = quiet past (WorkerMessage.stderr_packet q) t o in
    subst (IsOrdered _) (goes_on-injective h)
      (record { in_order = n.in_order; is_open = n.is_open; killed = n.killed; live = n.live })
handle-IsOrdered a past t (from_worker (WorkerMessage.command_statistics q)) o p h =
    let n = quiet past (WorkerMessage.command_statistics q) t o in
    subst (IsOrdered _) (goes_on-injective h)
      (record { in_order = n.in_order; is_open = n.is_open; killed = n.killed; live = n.live })
handle-IsOrdered a past t (from_worker _) o p h = cc

Steps-IsOrdered :
    {t u : Task} (past : List Event) {es : List Event}
    → IsOrdered past t
    → Steps t es u
    → IsOrdered (past ++ es) u
Steps-IsOrdered past o here = rw (append-nil past) o
Steps-IsOrdered {t} past o (step {es} accepted e p h s) =
    rw (sym (append_assoc past (e ∷ []) es))
      (Steps-IsOrdered (past ++ (e ∷ [])) (handle-IsOrdered accepted past t e o p h) s)

-- As long as the task goes on, whatever happens in whatever order, what the worker has been sent
-- for standard input is just the chunks that came in, in their order, and after the last of them
-- its end, once, if the end came; and it has been told to kill the command once if the run was
-- cancelled, and otherwise not.
pub start-IsOrdered : {u : Task} {es : List Event} → Steps start es u → IsOrdered es u
start-IsOrdered s =
    let first : IsOrdered [] start =
      unfold start in record { in_order = refl; is_open = refl; killed = refl; live = refl } in
    Steps-IsOrdered [] first s
