-- ===== src/Resilience/Breaker/Sequence.antt =====
-- circuit_breaker.py, one call after the other.
use clean_data_platform_airf.Prelude.{
  ℕ, zero, suc, ◌+◌, ◌≤◌, ◌<◌, ◌≡◌, refl, String, some, arith, leb, ltb, if◌then◌else◌,
}
use clean_data_platform_airf.Errors.{PlatformError, circuit_breaker_open}
use clean_data_platform_airf.Resilience.Breaker.{
  closed, open_, half_open, Breaker, new_breaker, Ending, returned, failed, cancelled, replied,
  refused, call,
}

-- `n` calls in turn that all fail at the time `now`, entered then too.
unfoldable pub fail_times : ℕ → ℕ → PlatformError → Breaker → Breaker
unfolding call
fail_times zero now e b = b
fail_times (suc n) now e b = fail_times n now e (call {A = ℕ} now now (failed e) b).0

failing_once :
    (now : ℕ) (e : PlatformError) (b : Breaker)
    → b.state ≡ closed
    → (call {A = ℕ} now now (failed e) b).0 ≡ (
        if leb b.failure_threshold (b.failure_count + 1)
        then record b { state = open_; opened_at = some now; failure_count = 0 }
        else record b { failure_count = b.failure_count + 1 })
unfolding call
failing_once now e b h = ground arith

-- While the failures stay below the threshold a closed breaker counts them and stays closed.
fail_times_below :
    (n now : ℕ) (e : PlatformError) (b : Breaker)
    → b.state ≡ closed
    → b.failure_count + n < b.failure_threshold
    → fail_times n now e b ≡ record b { failure_count = b.failure_count + n }
unfolding fail_times
fail_times_below zero now e b h lt = ground arith
fail_times_below (suc n) now e b h lt = ground (
  arith,
  failing_once now e b,
  fail_times_below n now e (record b { failure_count = b.failure_count + 1 }),
)

fail_times_reaching :
    (n now : ℕ) (e : PlatformError) (b : Breaker)
    → b.state ≡ closed
    → b.failure_count + suc n ≡ b.failure_threshold
    → fail_times (suc n) now e b
      ≡ record b { state = open_; opened_at = some now; failure_count = 0 }
unfolding fail_times
fail_times_reaching zero now e b h eq = ground (arith, failing_once now e b)
fail_times_reaching (suc n) now e b h eq = ground (
  arith,
  failing_once now e b,
  fail_times_reaching n now e (record b { failure_count = b.failure_count + 1 }),
)

-- From a new breaker with a threshold of n + 1, up to n failures in turn leave it closed and are
-- counted, and the failure after them opens it at that time and resets the count.
opens_at_threshold :
    (n k now : ℕ) (e : PlatformError) (name : String) (timeout : ℕ)
    → k ≤ n
    → let b = new_breaker name (suc n) timeout in
      (fail_times k now e b ≡ record b { failure_count = k })
      × (fail_times (suc n) now e b
          ≡ record b { state = open_; opened_at = some now; failure_count = 0 })
opens_at_threshold n k now e name timeout h =
    let b = new_breaker name (suc n) timeout in
    (
      ground (arith, fail_times_below k now e b refl),
      ground (arith, fail_times_reaching n now e b refl),
    )

-- The breaker after a probe that ended at `later`.
abbrev pub probed {ℓ} : {A : Type ℓ} → ℕ → Ending A → Breaker → Breaker
probed later (returned a) b = new_breaker b.name b.failure_threshold b.recovery_timeout
probed later (failed e) b = record b { state = open_; failure_count = 0; opened_at = some later }
probed later cancelled b = record b { state = half_open }

-- An open breaker turns away each call that comes before its timeout has passed, unchanged and
-- without running it. The first call after that runs as a probe: if it returns, the breaker is as
-- new; if it raises, the breaker is open again from that moment; if it is cancelled, the breaker
-- stays half open.
open_call :
    {A : Type 0} (b : Breaker) (t now later : ℕ) (ending : Ending A)
    → b.state ≡ open_
    → b.opened_at ≡ some t
    → call now later ending b ≡ (
        if ltb now (t + b.recovery_timeout)
        then (b, refused (circuit_breaker_open b.name))
        else (probed later ending b, replied ending))
unfolding call
open_call b t now later (returned a) h opened = ground arith
open_call b t now later (failed e) h opened = ground arith
open_call b t now later cancelled h opened = ground arith
