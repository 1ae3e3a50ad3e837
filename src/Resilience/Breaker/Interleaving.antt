-- ===== src/Resilience/Breaker/Interleaving.antt =====
-- circuit_breaker.py, with calls that overlap.
use clean_data_platform_airf.Prelude.{
  ℕ, suc, ◌+◌, ◌<◌, ◌≡◌, refl, String, List, [], ◌∷◌, arith, is_some, not, length,
}
use clean_data_platform_airf.Resilience.Breaker.{
  half_open, Breaker, new_breaker, is_closed, Event, enter, succeed, fail, cancel, System, happen,
  happen_all,
}

pub record IsSound (b : Breaker) : Type 0 where
  pub counted : b.failure_count < b.failure_threshold
  pub stamped : is_some b.opened_at ≡ not (is_closed b.state)

happen-IsSound : (e : Event) (s : System) → IsSound s.breaker → IsSound (happen e s).breaker
unfolding happen
happen-IsSound (enter now) s h = ground arith
happen-IsSound succeed s h = ground arith
happen-IsSound (fail now) s h = ground arith
happen-IsSound cancel s h = ground arith

happen_all_from :
    (es : List Event) (s : System) → IsSound s.breaker → IsSound (happen_all es s).breaker
unfolding happen_all
happen_all_from [] s h = h
happen_all_from (e ∷ es) s h = happen_all_from es (happen e s) (happen-IsSound e s h)

abbrev pub idle : Breaker → System
idle b = record { breaker = b; in_flight = 0; turned_away = 0 }

-- However calls overlap on a new breaker with a threshold of at least 1, it never holds as many
-- failures as the threshold, and it has an opening time exactly while it is not closed.
pub happen_all-IsSound :
    (es : List Event) (name : String) (n timeout : ℕ)
    → IsSound (happen_all es (idle (new_breaker name (suc n) timeout))).breaker
happen_all-IsSound es name n timeout =
    happen_all_from es (idle (new_breaker name (suc n) timeout))
      (record { counted = omega arith; stamped = refl })

-- Calls that enter at the given times.
abbrev pub entering : List ℕ → List Event
entering [] = []
entering (now ∷ rest) = enter now ∷ entering rest

-- A half-open breaker lets through every call that enters before a probe has ended, not only one.
half_open_admits_all :
    (times : List ℕ) (s : System)
    → s.breaker.state ≡ half_open
    → happen_all (entering times) s ≡ record s { in_flight = s.in_flight + length times }
unfolding happen_all happen
half_open_admits_all [] s h = ground arith
half_open_admits_all (now ∷ times) s h =
    ground (arith, half_open_admits_all times (record s { in_flight = s.in_flight + 1 }))

-- Whatever the state, a call that was let in and returns closes the breaker; so a call that entered
-- before the breaker opened closes it again before its timeout has passed.
late_success_closes :
    (s : System) (n now : ℕ)
    → s.in_flight ≡ suc n
    → happen (enter now) (happen succeed s) ≡ record s {
      breaker = new_breaker s.breaker.name s.breaker.failure_threshold s.breaker.recovery_timeout;
      in_flight = suc n;
    }
unfolding happen
late_success_closes s n now h = ground arith
