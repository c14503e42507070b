-- ===== src/Tests/Breakers.antt =====
-- Runs of a circuit breaker that opens after two failures.
use s3rp.Common.{
  pos, ◌+◌, ◌*◌, ◌≤◌, ◌≡◌, ◌↔◌, refl, true, false, ◌||◌, none, some, List, [], ◌∷◌, ltb, leb, arith,
  inl, ◌⊎◌,
}
use s3rp.Gateway.Breaker.{
  ConsecutiveFailures, new_consecutive_failures, breaker_open, Attempt, classify_attempt, outcome,
  breaker_middleware, allow, tell, breaker_open_error,
}
use s3rp.Gateway.Breaker.Runs.{
  Call, asks, reports, after_all, IsWellFormed, is_closed, failed, breaker-IsWellFormed,
  after_all-is_closed,
}
use s3rp.Gateway.Breaker.Probes.{
  mark, last_reading, admissions, admissions-cooldown, breaker_middleware_iff,
  breaker_middleware-recovers,
}

abbrev calls : List Call
calls = asks 1 1 ∷ reports false 2 ∷ asks 3 3 ∷ reports false 4 ∷ []

abbrev fresh : ConsecutiveFailures
fresh = new_consecutive_failures (pos 2) 10

breaker-IsWellFormed_example : IsWellFormed (after_all (new_consecutive_failures (pos 2) 10) calls)
breaker-IsWellFormed_example = breaker-IsWellFormed (pos 2) 10 calls

fresh-IsWellFormed : IsWellFormed fresh
unfolding new_consecutive_failures
fresh-IsWellFormed = record { limit = ground arith; below = ground arith; idle = inl refl }

after_all-is_closed_example :
    is_closed (after_all fresh calls) ≡ ltb (fresh.failures + failed calls) fresh.n
unfolding new_consecutive_failures
after_all-is_closed_example = after_all-is_closed fresh calls fresh-IsWellFormed refl refl

abbrev opened : ConsecutiveFailures
opened = record {
  n = 2;
  cooldown = 10;
  state = breaker_open;
  failures = 0;
  since = 4;
  last_probe = 0;
}

abbrev probes : List Call
probes = asks 5 5 ∷ asks 14 15 ∷ reports false 16 ∷ asks 26 26 ∷ []

admissions-cooldown_example :
    mark opened + admissions opened probes * opened.cooldown ≤ last_reading 4 probes
admissions-cooldown_example = admissions-cooldown opened 4 probes refl (ground arith) refl refl

abbrev answered : Attempt
answered = record { raw_status = some 404; err = none }

breaker_middleware_iff_example :
    (((breaker_middleware opened 14 14 20 answered).0 ≡ outcome answered)
      ↔ ((is_closed opened || leb (mark opened + opened.cooldown) 14) ≡ true))
    × ((breaker_middleware opened 14 14 20 answered
          ≡ (outcome answered, tell (allow opened 14 14).breaker (classify_attempt answered) 20))
        ⊎ (breaker_middleware opened 14 14 20 answered ≡ (breaker_open_error, opened)))
breaker_middleware_iff_example = breaker_middleware_iff opened 14 14 20 answered

breaker_middleware-recovers_example :
    ((breaker_middleware opened 14 14 20 answered).0 ≡ outcome answered)
    × (is_closed (breaker_middleware opened 14 14 20 answered).1 ≡ true)
    × ((breaker_middleware opened 14 14 20 answered).1.failures ≡ 0)
breaker_middleware-recovers_example =
    breaker_middleware-recovers opened 14 14 20 answered 404 (ground arith) refl (ground arith)
      (ground arith) tt
