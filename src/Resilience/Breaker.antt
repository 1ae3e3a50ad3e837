-- ===== src/Resilience/Breaker.antt =====
-- app/infrastructure/resilience/circuit_breaker.py. Times are the clock's readings in one fixed
-- unit. A call is three parts, since other calls run while its coroutine is awaited: the test on
-- entry, the wait, and what its outcome changes.
pub mod Sequence
pub mod Interleaving
use clean_data_platform_airf.Prelude.{
  ℕ, zero, suc, ◌+◌, ◌-◌, String, Bool, true, false, ◌||◌, Option, none, some, List, [], ◌∷◌, leb,
  if◌then◌else◌,
}
use clean_data_platform_airf.Errors.{Result, ok, err, PlatformError, circuit_breaker_open}

pub data State : Type 0 where
  closed open_ half_open : State

pub record Breaker : Type 0 where
  pub name : String
  pub failure_threshold : ℕ
  pub recovery_timeout : ℕ
  pub state : State
  pub failure_count : ℕ
  pub opened_at : Option ℕ

-- `AsyncCircuitBreaker(name, failure_threshold, recovery_timeout_seconds)`
abbrev pub new_breaker : String → ℕ → ℕ → Breaker
new_breaker name failure_threshold recovery_timeout = record {
  name = name;
  failure_threshold = failure_threshold;
  recovery_timeout = recovery_timeout;
  state = closed;
  failure_count = 0;
  opened_at = none;
}

-- `_transition_to`, at the clock reading `now`
abbrev transition_to : State → ℕ → Breaker → Breaker
transition_to open_ now b = record b { state = open_; opened_at = some now; failure_count = 0 }
transition_to s now b = record b { state = s }

unfoldable pub on_success : Breaker → Breaker
on_success b = record b { state = closed; failure_count = 0; opened_at = none }

abbrev pub is_half_open : State → Bool
is_half_open half_open = true
is_half_open _ = false

abbrev pub is_open : State → Bool
is_open open_ = true
is_open _ = false

abbrev pub is_closed : State → Bool
is_closed closed = true
is_closed _ = false

unfoldable pub on_failure : ℕ → Breaker → Breaker
on_failure now b =
    let b' = record b { failure_count = b.failure_count + 1 } in
    if is_half_open b.state || leb b.failure_threshold (b.failure_count + 1)
    then transition_to open_ now b'
    else b'

-- `self._opened_at or 0`
abbrev pub opened_or_0 : Option ℕ → ℕ
opened_or_0 none = 0
opened_or_0 (some t) = t

-- The test on entry: the breaker after it, and whether the call goes ahead. `elapsed >= timeout` is
-- written without a subtraction.
unfoldable pub admit : ℕ → Breaker → Breaker × Bool
admit now b =
    if is_open b.state
    then (if leb (opened_or_0 b.opened_at + b.recovery_timeout) now
        then (transition_to half_open now b, true)
        else (b, false))
    else (b, true)

-- How the awaited coroutine ends. A cancellation is no `Exception`: it passes both handlers.
pub data Ending {ℓ} (A : Type ℓ) : Type ℓ where
  returned : A → Ending A
  failed : PlatformError → Ending A
  cancelled : Ending A

-- What the caller of `call` gets.
pub data Reply {ℓ} (A : Type ℓ) : Type ℓ where
  replied : Ending A → Reply A
  refused : PlatformError → Reply A

unfoldable pub finish {ℓ} : {A : Type ℓ} → ℕ → Ending A → Breaker → Breaker
unfolding on_success on_failure
finish now (returned a) b = on_success b
finish now (failed e) b = on_failure now b
finish now cancelled b = b

-- `call` with nothing else running: entered at `now`, its coroutine ends at `later`.
unfoldable pub call {ℓ} : {A : Type ℓ} → ℕ → ℕ → Ending A → Breaker → Breaker × Reply A
unfolding admit finish
call now later ending b =
    let (b', admitted) = admit now b in
    if admitted
    then (finish later ending b', replied ending)
    else (b', refused (circuit_breaker_open b.name))

-- Calls that overlap: what happens to the breaker, in the order in which it happens.
pub data Event : Type 0 where
  enter : ℕ → Event
  succeed : Event
  fail : ℕ → Event
  cancel : Event

pub record System : Type 0 where
  pub breaker : Breaker
  pub in_flight : ℕ
  pub turned_away : ℕ

-- An outcome with no call in flight does not happen.
unfoldable pub happen : Event → System → System
unfolding admit on_success on_failure
happen (enter now) s =
    let (b, admitted) = admit now s.breaker in
    if admitted
    then record s { breaker = b; in_flight = s.in_flight + 1 }
    else record s { breaker = b; turned_away = s.turned_away + 1 }
happen succeed s = elim s.in_flight [
  | zero ↦ s
  | suc n ↦ record s { breaker = on_success s.breaker; in_flight = n }
]
happen (fail now) s = elim s.in_flight [
  | zero ↦ s
  | suc n ↦ record s { breaker = on_failure now s.breaker; in_flight = n }
]
happen cancel s = elim s.in_flight [ zero ↦ s | suc n ↦ record s { in_flight = n } ]

unfoldable pub happen_all : List Event → System → System
happen_all [] s = s
happen_all (e ∷ rest) s = happen_all rest (happen e s)
