-- ===== src/Gateway/Breaker/Runs.antt =====
-- s3gw/breaker.go: runs of the circuit breaker, as sequences of calls of its two methods.
use s3rp.Common.{
  ℤ, pos, negsuc, ℕ, suc, ◌+◌, ◌≤◌, ◌<◌, ◌≡◌, ◌⊎◌, inl, inr, refl, Bool, true, false, not, ◌&&◌,
  List, [], ◌∷◌, if◌then◌else◌, ltb, leb, arith, Bool-cases,
}
use s3rp.Gateway.Breaker.{
  breaker_closed, breaker_open, breaker_half_open, ConsecutiveFailures, new_consecutive_failures,
  allow, open_at, report,
}

-- A call of a method, with its readings of the clock.
pub data Call : Type 0 where
  asks : (now later : ℕ) → Call
  reports : (ok : Bool) (now : ℕ) → Call

-- The breaker after a call.
unfoldable pub after : ConsecutiveFailures → Call → ConsecutiveFailures
after b (asks now later) = (allow b now later).breaker
after b (reports ok now) = report b ok now

unfoldable pub after_all : ConsecutiveFailures → List Call → ConsecutiveFailures
after_all b [] = b
after_all b (c ∷ cs) = after_all (after b c) cs

-- Only a closed breaker counts, and it counts below its limit.
pub record IsWellFormed (b : ConsecutiveFailures) : Type 0 where
  pub limit : 1 ≤ b.n
  pub below : b.failures < b.n
  pub idle : (b.state ≡ breaker_closed) ⊎ (b.failures ≡ 0)

after-IsWellFormed :
    (b : ConsecutiveFailures) (c : Call) → IsWellFormed b → IsWellFormed (after b c)
unfolding after allow report open_at
after-IsWellFormed b (asks now later) w = record {
  limit = ground arith;
  below = ground arith;
  idle = ground arith;
}
after-IsWellFormed b (reports ok now) w = record {
  limit = ground arith;
  below = ground arith;
  idle = ground arith;
}

after_all-IsWellFormed :
    (b : ConsecutiveFailures) (cs : List Call) → IsWellFormed b → IsWellFormed (after_all b cs)
unfolding after_all
after_all-IsWellFormed b [] w = w
after_all-IsWellFormed b (c ∷ cs) w =
    after_all-IsWellFormed (after b c) cs (after-IsWellFormed b c w)

-- Whatever calls a new breaker has served, it opens after one failure at least, has counted fewer
-- failures than it takes to open, and has counted none unless it is closed.
pub breaker-IsWellFormed :
    (n : ℤ) (cooldown : ℕ) (cs : List Call)
    → IsWellFormed (after_all (new_consecutive_failures n cooldown) cs)
unfolding new_consecutive_failures
breaker-IsWellFormed (pos n) cooldown cs =
    after_all-IsWellFormed (new_consecutive_failures (pos n) cooldown) cs
      record { limit = ground arith; below = ground arith; idle = inl refl }
breaker-IsWellFormed (negsuc n) cooldown cs =
    after_all-IsWellFormed (new_consecutive_failures (negsuc n) cooldown) cs
      record { limit = ground arith; below = ground arith; idle = inl refl }

abbrev pub is_closed : ConsecutiveFailures → Bool
is_closed b = elim b.state [
  | breaker_closed ↦ true
  | breaker_open ↦ false
  | breaker_half_open ↦ false
]

-- No call reports a success.
abbrev pub is_unsuccessful : List Call → Bool
is_unsuccessful [] = true
is_unsuccessful (asks now later ∷ cs) = is_unsuccessful cs
is_unsuccessful (reports ok now ∷ cs) = not ok && is_unsuccessful cs

-- The failures that the calls report.
abbrev pub failed : List Call → ℕ
failed [] = 0
failed (asks now later ∷ cs) = failed cs
failed (reports ok now ∷ cs) = if ok then failed cs else suc (failed cs)

stays_open :
    (b : ConsecutiveFailures) (cs : List Call)
    → is_unsuccessful cs ≡ true
    → is_closed b ≡ false
    → is_closed (after_all b cs) ≡ false
unfolding after_all after allow report open_at
stays_open b [] u o = o
stays_open b (asks now later ∷ cs) u o = stays_open (after b (asks now later)) cs u (ground arith)
stays_open b (reports ok now ∷ cs) u o =
    stays_open (after b (reports ok now)) cs (ground arith) (ground arith)

-- A closed breaker that hears of no success stays closed exactly as long as the failures that it
-- has counted, and those reported since, are fewer than its limit, however the calls of the two
-- methods are interleaved.
pub after_all-is_closed :
    (b : ConsecutiveFailures) (cs : List Call)
    → IsWellFormed b
    → is_closed b ≡ true
    → is_unsuccessful cs ≡ true
    → is_closed (after_all b cs) ≡ ltb (b.failures + failed cs) b.n
unfolding after_all after allow report open_at
after_all-is_closed b [] w o u = ground arith
after_all-is_closed b (asks now later ∷ cs) w o u =
    let step = after-IsWellFormed b (asks now later) w in
    let rest = after_all-is_closed (after b (asks now later)) cs step (ground arith) u in
    ground arith
after_all-is_closed b (reports ok now ∷ cs) w o u = elim (Bool-cases (leb b.n (suc b.failures))) [
  | inl opens ↦
      let rest = stays_open (report b ok now) cs (ground arith) (ground arith) in ground arith
  | inr counts ↦
      let step = after-IsWellFormed b (reports ok now) w in
      let rest = after_all-is_closed (report b ok now) cs step (ground arith) (ground arith) in
      ground arith
]
