-- ===== src/Gateway/Breaker.antt =====
-- s3gw/breaker.go: the circuit breaker of one backend, and the middleware that asks it.
pub mod Runs
pub mod Probes
use s3rp.Common.{
  ℤ, pos, negsuc, ℕ, zero, suc, ◌+◌, Bool, true, false, not, ◌&&◌, Option, none, some,
  if◌then◌else◌, ltb, leb, Text,
}

pub data BreakerState : Type 0 where
  breaker_closed breaker_open breaker_half_open : BreakerState

-- A clock reading is in the unit of a `time.Duration`; the clock is the one of `time.Now`.
pub record ConsecutiveFailures : Type 0 where
  pub n : ℕ
  pub cooldown : ℕ
  pub state : BreakerState
  pub failures : ℕ
  pub since : ℕ
  pub last_probe : ℕ

-- `if n < 1 { n = 1 }`.
abbrev at_least_one : ℤ → ℕ
at_least_one (pos n) = if ltb n 1 then 1 else n
at_least_one (negsuc _) = 1

-- `NewConsecutiveFailures`, for a cooldown that is not negative.
unfoldable pub new_consecutive_failures : ℤ → ℕ → ConsecutiveFailures
new_consecutive_failures n cooldown = record {
  n = at_least_one n;
  cooldown = cooldown;
  state = breaker_closed;
  failures = 0;
  since = 0;
  last_probe = 0;
}

-- What a call of `Allow` returns, and the breaker after it.
pub record Admission : Type 0 where
  pub admitted : Bool
  pub breaker : ConsecutiveFailures

-- `Allow`, with its two readings of the clock: the one that is compared and the one that is stored.
-- `t.Sub(u) < d` is written without the subtraction.
unfoldable pub allow : ConsecutiveFailures → ℕ → ℕ → Admission
allow b now later = elim b.state [
  | breaker_closed ↦ record { admitted = true; breaker = b }
  | breaker_open ↦
      if ltb now (b.since + b.cooldown) then record { admitted = false; breaker = b } else record {
        admitted = true;
        breaker = record b { state = breaker_half_open; last_probe = later };
      }
  | breaker_half_open ↦
      if ltb now (b.last_probe + b.cooldown)
      then record { admitted = false; breaker = b }
      else record { admitted = true; breaker = record b { last_probe = later } }
]

-- The method `open`.
unfoldable pub open_at : ConsecutiveFailures → ℕ → ConsecutiveFailures
open_at b now = record b { state = breaker_open; failures = 0; since = now }

-- `Report`; the clock is read if the breaker opens.
unfoldable pub report : ConsecutiveFailures → Bool → ℕ → ConsecutiveFailures
unfolding open_at
report b ok now = if ok then record b { state = breaker_closed; failures = 0 } else elim b.state [
  | breaker_closed ↦
      let counted = record b { failures = suc b.failures } in
      if leb b.n (suc b.failures) then open_at counted now else counted
  | breaker_open ↦ b
  | breaker_half_open ↦ open_at b now
]

-- An error of an attempt, as `errors.Is` and `errors.AsType` see it: whether it is
-- `context.Canceled` or `context.DeadlineExceeded`, and the status of the `ResponseError` in it.
pub record AttemptError : Type 0 where
  pub canceled : Bool
  pub deadline_exceeded : Bool
  pub response_error : Option ℕ

-- What the transport returned: the status of the raw response, if there is one, and the error.
pub record Attempt : Type 0 where
  pub raw_status : Option ℕ
  pub err : Option AttemptError

-- What the breaker is told of an attempt.
pub data Told : Type 0 where
  nothing : Told
  told : Bool → Told

is_canceled : Option AttemptError → Bool
is_canceled none = false
is_canceled (some e) = e.canceled

is_deadline_exceeded : Option AttemptError → Bool
is_deadline_exceeded none = false
is_deadline_exceeded (some e) = e.deadline_exceeded

-- What an attempt without a real response tells.
without_response : Option AttemptError → Told
without_response none = told true
without_response (some e) = elim e.response_error [
  | none ↦ told false
  | some status ↦ if leb 100 status then told (ltb status 500) else told false
]

-- `classifyAttempt`.
unfoldable pub classify_attempt : Attempt → Told
unfolding is_canceled is_deadline_exceeded without_response
classify_attempt a =
    if is_canceled a.err
    then nothing
    else if is_deadline_exceeded a.err
    then told false
    else elim a.raw_status [
      | none ↦ without_response a.err
      | some status ↦ if leb 100 status then told (ltb status 500) else without_response a.err
    ]

-- The breaker after a call of `Report`, or without one.
unfoldable pub tell : ConsecutiveFailures → Told → ℕ → ConsecutiveFailures
tell b nothing now = b
tell b (told ok) now = report b ok now

-- What the middleware returns: `ServiceUnavailable` without a call, or the attempt's outcome.
pub data Sent : Type 0 where
  breaker_open_error : Sent
  outcome : Attempt → Sent

-- `breakerMiddleware`: the attempt is sent only if the breaker admits it.
unfoldable pub breaker_middleware :
    ConsecutiveFailures → (now later done : ℕ) → Attempt → Sent × ConsecutiveFailures
breaker_middleware b now later done attempt =
    let a = allow b now later in
    if not a.admitted
    then (breaker_open_error, a.breaker)
    else (outcome attempt, tell a.breaker (classify_attempt attempt) done)
