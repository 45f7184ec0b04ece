-- ===== src/Tests/Listening.antt =====
-- The demultiplexer at concrete events.
use mathlib.Core.List.{Perm}
use mathlib.Core.List.Perm
use rust_playground.Base.{
  ◌≡◌, refl, arith, ℕ, List, [], ◌∷◌, ok, ◌==◌, insert, remove, retain, not, All, empty_map,
}
use rust_playground.Commander.{
  Demultiplexer, Event, command, from_worker, gc, listen, listen_once, demultiplex, start, next_id,
}
use rust_playground.Commander.Listeners.{received, IsListening, Leaves}
use rust_playground.Commander.Routes.{demultiplex-routes}
use rust_playground.Commander.Once.{IsWaiting, demultiplex-once}
use rust_playground.Commander.Ids.{issue, demultiplex-total}

-- Job 0 has a listener on channel 7.
abbrev listening : Demultiplexer ℕ
listening = record {
  waiting = insert 0 7 empty_map;
  waiting_once = empty_map;
  sent = [];
  acks = [];
}

listening-IsListening : IsListening 0 7 listening
listening-IsListening = record {
  registered = refl;
  not_once = refl;
  own = λ k e. ground arith;
  own_once = λ k e. cc;
}

abbrev events : List (Event ℕ)
events =
    from_worker 0 5
    ∷ command 20 (listen_once 1 8)
    ∷ from_worker 1 9
    ∷ gc (λ c. c == 8)
    ∷ from_worker 0 6
    ∷ []

abbrev done : Demultiplexer ℕ
done = record {
  waiting = retain (λ tx. not (tx == 8)) (insert 0 7 empty_map);
  waiting_once = retain (λ tx. not (tx == 8)) (remove 1 (insert 1 8 empty_map));
  sent = (7, 5) ∷ (8, 9) ∷ (7, 6) ∷ [];
  acks = 20 ∷ [];
}

demultiplexes : demultiplex listening events ≡ ok done
unfolding demultiplex
demultiplexes = refl

events-Leaves : All (Leaves 0 7) events
events-Leaves = (tt, ((λ e. omega arith, λ e. omega arith), (tt, (refl, (tt, tt)))))

demultiplex-routes_example : received 7 done.sent ≡ 5 ∷ 6 ∷ []
demultiplex-routes_example =
    demultiplex-routes 0 7 events listening done listening-IsListening events-Leaves demultiplexes

requests-Perm : Perm (1 ∷ 0 ∷ 2 ∷ []) (issue 3 0)
unfolding issue next_id
requests-Perm = Perm.swap 0 1 (2 ∷ [])

demultiplex-total_example :
    (d : Demultiplexer ℕ) × (demultiplex start
        (command 20 (listen 1 8) ∷ from_worker 1 3 ∷ command 21 (listen_once 0 9) ∷ [])
      ≡ ok d)
demultiplex-total_example =
    demultiplex-total
      (command 20 (listen 1 8) ∷ from_worker 1 3 ∷ command 21 (listen_once 0 9) ∷ []) 3 (2 ∷ [])
      (omega arith) requests-Perm

-- Job 0 waits for one message on channel 7.
abbrev awaiting : Demultiplexer ℕ
awaiting = record { waiting = empty_map; waiting_once = insert 0 7 empty_map; sent = []; acks = [] }

awaiting-IsWaiting : IsWaiting 0 7 awaiting
awaiting-IsWaiting = record { registered = refl; own = λ k e. cc; own_once = λ k e. ground arith }

abbrev answered : Demultiplexer ℕ
answered = record {
  waiting = retain (λ tx. not (tx == 8)) empty_map;
  waiting_once =
      retain (λ tx. not (tx == 8)) (remove 1 (insert 1 8 (remove 0 (insert 0 7 empty_map))));
  sent = (7, 5) ∷ (8, 9) ∷ [];
  acks = 20 ∷ [];
}

answers : demultiplex awaiting events ≡ ok answered
unfolding demultiplex
answers = refl

demultiplex-once_example : received 7 answered.sent ≡ 5 ∷ []
demultiplex-once_example =
    demultiplex-once 0 7 events awaiting answered awaiting-IsWaiting events-Leaves answers
