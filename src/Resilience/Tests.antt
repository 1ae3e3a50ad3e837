-- ===== src/Resilience/Tests.antt =====
-- The circuit breaker's theorems at a breaker that opens after two failures.
use clean_data_platform_airf.Prelude.{some, List, [], ◌∷◌}
use clean_data_platform_airf.Resilience.Breaker.{
  open_, half_open, Breaker, new_breaker, Event, enter, succeed, fail, cancel, System, happen_all,
}
use clean_data_platform_airf.Resilience.Breaker.Interleaving.{IsSound, idle, happen_all-IsSound}

abbrev opened : Breaker
opened = record (new_breaker "api" 2 60) { state = open_; opened_at = some 7 }

abbrev overlap : List Event
overlap = enter 1 ∷ enter 2 ∷ fail 3 ∷ fail 4 ∷ enter 5 ∷ enter 99 ∷ succeed ∷ cancel ∷ []

happen_all-IsSound_example : IsSound (happen_all overlap (idle (new_breaker "api" 2 60))).breaker
happen_all-IsSound_example = happen_all-IsSound overlap "api" 1 60

abbrev probing : System
probing = record { breaker = record opened { state = half_open }; in_flight = 1; turned_away = 0 }

abbrev late : System
late = record { breaker = opened; in_flight = 1; turned_away = 0 }
