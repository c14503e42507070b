-- ===== src/Gateway/Outcome.antt =====
-- What a step of the gateway ends in: a value, an `*s3err.Error`, or a panic.
use Prim.Native.String.{String}
use s3rp.Common.{ℕ, ◌≡◌, refl, arith, Bool, true, false, Option, none, some}
use s3rp.Gateway.Access.{Cause, no_cause, S3Error, Answer, permitted, refused}

pub data Outcome {ℓ} (X : Type ℓ) : Type ℓ where
  panics : Outcome X
  fails : S3Error → Outcome X
  returns : X → Outcome X

infixl 5 ◌>>=◌ ◌>>◌
abbrev pub ◌>>=◌ {ℓ κ} : {X : Type ℓ} {Y : Type κ} → Outcome X → (X → Outcome Y) → Outcome Y
panics >>= next = panics
fails e >>= next = fails e
returns x >>= next = next x

-- A step without a value, and what runs if it returns.
abbrev pub ◌>>◌ {ℓ} : {Y : Type ℓ} → Outcome (Unit {0}) → Outcome Y → Outcome Y
step >> later = step >>= λ done. later

-- `s3err.New` and `s3err.NotImplemented`, without the message.
abbrev pub new_error : ℕ → String → Cause → S3Error
new_error status code cause = record { status = status; code = code; cause = cause }

abbrev pub not_implemented : S3Error
not_implemented = new_error 501 "NotImplemented" no_cause

-- `if bad { return err }`.
abbrev pub fail_if : Bool → S3Error → Outcome (Unit {0})
fail_if true e = fails e
fail_if false e = returns tt

-- The answer of `authorize`, whose panic is `none`.
abbrev pub checked : Option Answer → Outcome (Unit {0})
checked none = panics
checked (some permitted) = returns tt
checked (some (refused e)) = fails e

pub checked-permitted : (a : Option Answer) → checked a ≡ returns tt → a ≡ some permitted
checked-permitted none e = ground arith
checked-permitted (some permitted) e = refl
checked-permitted (some (refused e')) e = ground arith

pub then-returns {ℓ} :
    {B : Type ℓ} (m : Outcome (Unit {0})) (k : Outcome B) (b : B)
    → (m >> k) ≡ returns b
    → (m ≡ returns tt) × (k ≡ returns b)
then-returns (returns tt) k b e = (refl, e)
then-returns (fails x) k b e = absurd (ground arith)
then-returns panics k b e = absurd (ground arith)

pub bind-returns {ℓ κ} :
    {A : Type ℓ} {B : Type κ} (m : Outcome A) (k : A → Outcome B) (b : B)
    → (m >>= k) ≡ returns b
    → (a : A) × (m ≡ returns a) × (k a ≡ returns b)
bind-returns (returns a) k b e = (a, refl, e)
bind-returns (fails x) k b e = absurd (ground arith)
bind-returns panics k b e = absurd (ground arith)
