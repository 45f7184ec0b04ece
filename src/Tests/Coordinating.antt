-- ===== src/Tests/Coordinating.antt =====
-- A coordinator with two containers.
use rust_playground.Base.{ℕ, ◌≡◌, refl, true, none, some, [], ok, any, ◌==◌}
use rust_playground.Request.{Channel, stable, beta}
use rust_playground.Coordinator.{
  Coordinator, coordinator, select_channel, get_or_try_init, Shutdown, fails_at_once, idle,
}
use rust_playground.Coordinator.Current.{
  Reaches, new, selects, IsCurrent, Reaches-IsCurrent, idle-stale,
}

abbrev two_started : Coordinator
two_started = record {
  stable_cell = some (record { id = 0; token = 0 });
  beta_cell = some (record { id = 1; token = 0 });
  nightly_cell = none;
  token = 0;
  cancelled = [];
  containers = 2;
}

two-Reaches : Reaches ℕ two_started
unfolding select_channel get_or_try_init coordinator
two-Reaches = selects none beta (selects none stable new)

Reaches-IsCurrent_example : IsCurrent two_started
Reaches-IsCurrent_example = Reaches-IsCurrent two-Reaches

abbrev no_docker : Channel → Shutdown ℕ
no_docker c = fails_at_once 12

idle-stale_example :
    (select_channel {E = ℕ} none beta (idle no_docker two_started).1
      ≡ (ok (record { id = 1; token = 0 }), (idle no_docker two_started).1))
    × (any (λ t. t == 0) (idle no_docker two_started).1.cancelled ≡ true)
idle-stale_example =
    idle-stale 12 no_docker (record { id = 0; token = 0 }) (record { id = 1; token = 0 })
      two-Reaches refl refl refl
