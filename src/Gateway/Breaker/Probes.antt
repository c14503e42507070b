-- ===== src/Gateway/Breaker/Probes.antt =====
-- s3gw/breaker.go: the probes that an open circuit breaker admits.
use s3rp.Common.{
  ℕ, suc, ◌+◌, ◌*◌, ◌≤◌, ◌<◌, ◌≡◌, ◌↔◌, ◌⊎◌, inl, inr, subst, Bool, true, false, ◌&&◌, ◌||◌, Option,
  none, some, List, [], ◌∷◌, if◌then◌else◌, leb, Option-cases, arith,
}
use s3rp.Gateway.Breaker.{
  breaker_closed, breaker_open, breaker_half_open, ConsecutiveFailures, allow, open_at, report,
  AttemptError, Attempt, told, classify_attempt, tell, breaker_open_error, outcome,
  breaker_middleware,
}
use s3rp.Gateway.Breaker.Runs.{Call, asks, reports, after, is_closed, is_unsuccessful}

-- When the present cooldown began: at the opening, or at the last probe.
abbrev pub mark : ConsecutiveFailures → ℕ
mark b = elim b.state [
  | breaker_closed ↦ 0
  | breaker_open ↦ b.since
  | breaker_half_open ↦ b.last_probe
]

-- The clock does not run backwards over the calls, from a first reading on.
abbrev pub is_ordered : ℕ → List Call → Bool
is_ordered t [] = true
is_ordered t (asks now later ∷ cs) = leb t now && (leb now later && is_ordered later cs)
is_ordered t (reports ok now ∷ cs) = leb t now && is_ordered now cs

-- The last reading of the clock.
abbrev pub last_reading : ℕ → List Call → ℕ
last_reading t [] = t
last_reading t (asks now later ∷ cs) = last_reading later cs
last_reading t (reports ok now ∷ cs) = last_reading now cs

-- How many attempts the breaker admits over the calls.
unfoldable pub admissions : ConsecutiveFailures → List Call → ℕ
admissions b [] = 0
admissions b (asks now later ∷ cs) =
    let rest = admissions (after b (asks now later)) cs in
    if (allow b now later).admitted then suc rest else rest
admissions b (reports ok now ∷ cs) = admissions (after b (reports ok now)) cs

allow-mark :
    (b : ConsecutiveFailures) (now later : ℕ)
    → is_closed b ≡ false
    → now ≤ later
    → mark b ≤ now
    → (is_closed (allow b now later).breaker ≡ false)
      × ((allow b now later).breaker.cooldown ≡ b.cooldown)
      × (mark (allow b now later).breaker ≤ later)
      × (mark b + (if (allow b now later).admitted then b.cooldown else 0)
          ≤ mark (allow b now later).breaker)
unfolding allow
allow-mark b now later o m l = (ground arith, ground arith, ground arith, ground arith)

report-mark :
    (b : ConsecutiveFailures) (now : ℕ)
    → is_closed b ≡ false
    → mark b ≤ now
    → (is_closed (report b false now) ≡ false)
      × ((report b false now).cooldown ≡ b.cooldown)
      × (mark (report b false now) ≤ now)
      × (mark b ≤ mark (report b false now))
unfolding report open_at
report-mark b now o m = (ground arith, ground arith, ground arith, ground arith)

counted_mul :
    (counted : Bool) (k c : ℕ)
    → (if counted then suc k else k) * c ≡ (if counted then c else 0) + k * c
counted_mul true k c = omega arith
counted_mul false k c = omega arith

-- Over a run that reports no success, on a clock that does not run backwards, a breaker that is not
-- closed admits at most one attempt per cooldown: from the opening, or the last probe, until the
-- last call, as many cooldowns have passed as attempts were admitted.
pub admissions-cooldown :
    (b : ConsecutiveFailures) (t : ℕ) (cs : List Call)
    → is_closed b ≡ false
    → mark b ≤ t
    → is_ordered t cs ≡ true
    → is_unsuccessful cs ≡ true
    → mark b + admissions b cs * b.cooldown ≤ last_reading t cs
unfolding admissions after
admissions-cooldown b t [] o m i u = ground arith
admissions-cooldown b t (asks now later ∷ cs) o m i u =
    let (o', same, m', moved) = allow-mark b now later o (ground arith) (ground arith) in
    let rest =
      admissions-cooldown (allow b now later).breaker later cs o' m' (ground arith)
        (ground arith) in
    let added =
      counted_mul (allow b now later).admitted (admissions (allow b now later).breaker cs)
        b.cooldown in
    omega (arith, added, moved, rw (same) at rest)
admissions-cooldown b t (reports ok now ∷ cs) o m i u =
    let (o', same, m', moved) = report-mark b now o (ground arith) in
    let rest =
      admissions-cooldown (report b false now) now cs o' m' (ground arith) (ground arith) in
    ground arith

-- The middleware sends an attempt exactly if the breaker is closed, or a cooldown has passed since
-- it opened or admitted its last probe. An attempt that is not sent is refused as unavailable, and
-- leaves the breaker as it was; one that is sent is told to the breaker that admitted it.
pub breaker_middleware_iff :
    (b : ConsecutiveFailures) (now later done : ℕ) (a : Attempt)
    → (((breaker_middleware b now later done a).0 ≡ outcome a)
        ↔ ((is_closed b || leb (mark b + b.cooldown) now) ≡ true))
      × ((breaker_middleware b now later done a
            ≡ (outcome a, tell (allow b now later).breaker (classify_attempt a) done))
          ⊎ (breaker_middleware b now later done a ≡ (breaker_open_error, b)))
unfolding breaker_middleware allow
breaker_middleware_iff b now later done a = ((λ h. ground arith, λ h. ground arith), ground arith)

-- An error that is neither of the two of a context that ended, or none.
abbrev pub IsUninterrupted : Option AttemptError → Type 0
IsUninterrupted none = Unit
IsUninterrupted (some e) = (e.canceled ≡ false) × (e.deadline_exceeded ≡ false)

-- A response below 500 tells of a success.
classify_attempt-told :
    (a : Attempt) (status : ℕ)
    → a.raw_status ≡ some status
    → 100 ≤ status
    → status < 500
    → IsUninterrupted a.err
    → classify_attempt a ≡ told true
unfolding classify_attempt
classify_attempt-told a status answered real fine live = elim (Option-cases a.err) [
  | inl none_of ↦ ground (arith, none_of)
  | inr (e, some_of) ↦
      let both : IsUninterrupted (some e) = subst IsUninterrupted some_of live in
      ground (arith, some_of, both.0, both.1)
]

-- A breaker never stays shut: at any time that lies a cooldown behind its opening and its last
-- probe, an attempt is sent, and if the backend answers it with a status from 100 to 499, without
-- the context having been canceled or its deadline exceeded, the breaker is closed again, with no
-- failure counted.
pub breaker_middleware-recovers :
    (b : ConsecutiveFailures) (now later done : ℕ) (a : Attempt) (status : ℕ)
    → mark b + b.cooldown ≤ now
    → a.raw_status ≡ some status
    → 100 ≤ status
    → status < 500
    → IsUninterrupted a.err
    → ((breaker_middleware b now later done a).0 ≡ outcome a)
      × (is_closed (breaker_middleware b now later done a).1 ≡ true)
      × ((breaker_middleware b now later done a).1.failures ≡ 0)
unfolding breaker_middleware allow tell report
breaker_middleware-recovers b now later done a status m answered real fine live =
    let c = classify_attempt-told a status answered real fine live in
    (ground arith, ground arith, ground arith)
