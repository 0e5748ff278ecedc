-- ===== src/Llm/RateLimit.antt =====
-- `ProviderRateLimiter` of src/litweave/llm/rate_limit.py, a token bucket. Time is in milliseconds, and a
-- token is `unit` parts, so that `rpm` parts flow in each millisecond. The rounding of floats and of
-- the clock is left out but for a wait, which is rounded up to a millisecond. `late` is by how much a
-- sleep that begins at a time is longer than asked for; `time.sleep` is never shorter.
pub mod Window
pub mod Limited
use surveyforge.Base.{
  ℕ, zero, suc, ◌+◌, ◌-◌, ◌*◌, ◌/◌, min, max, Bool, ◌||◌, Option, none, some, List, [], ◌∷◌, ltb,
  leb, if◌then◌else◌, Dict, ◌==◌, String, lookup,
}
use surveyforge.Runtime.Errors.{Result, ok, err, value_error}

abbrev pub unit : ℕ
unit = 60_000

pub record Limiter : Type 0 where
  pub rpm : ℕ
  pub capacity : ℕ

-- What changes: `_tokens` in parts, and `_last`.
pub record Bucket : Type 0 where
  pub tokens : ℕ
  pub last : ℕ

-- `ProviderRateLimiter(rpm, burst)` at the time `now`
unfoldable pub new_limiter : ℕ → ℕ → ℕ → Result (Limiter × Bucket)
new_limiter rpm burst now =
    if leb rpm 0 || leb burst 0
    then err (value_error "rpm and burst must be positive")
    else ok (record { rpm = rpm; capacity = burst }, record { tokens = burst * unit; last = now })

-- `RateLimitConfig.get`
unfoldable pub limits_of : Dict (ℕ × ℕ) → ℕ × ℕ → String → ℕ × ℕ
limits_of per_provider default provider = elim (lookup provider per_provider) [
  | none ↦ default
  | some limits ↦ limits
]

module _ (l : Limiter) where
  unfoldable pub refill : ℕ → Bucket → Bucket
  refill now b = record {
    tokens = min (l.capacity * unit) (b.tokens + l.rpm * (now - b.last));
    last = now;
  }

  -- `max(wait, 0.001)`
  unfoldable pub wait_of : Bucket → ℕ
  wait_of b = max 1 ((unit - b.tokens + (l.rpm - 1)) / l.rpm)

  module _ (late : ℕ → ℕ) where
    -- The loop and the debit, with the time at which the caller goes on; none is out of fuel.
    unfoldable pub wait_for_token : ℕ → Bucket → ℕ → Option (Bucket × ℕ)
    unfolding refill wait_of
    wait_for_token zero b now =
        if ltb b.tokens unit then none else some (record b { tokens = b.tokens - unit }, now)
    wait_for_token (suc fuel) b now =
        let later = now + (wait_of b + late now) in
        let rest = wait_for_token fuel (refill later b) later in
        if ltb b.tokens unit then rest else some (record b { tokens = b.tokens - unit }, now)

    unfoldable pub acquire : ℕ → Bucket → ℕ → Option (Bucket × ℕ)
    unfolding wait_for_token refill
    acquire fuel b now = wait_for_token fuel (refill now b) now

    -- Calls one after the other, each so long after the one before.
    unfoldable pub acquire_all : ℕ → List ℕ → Bucket → ℕ → Option (Bucket × ℕ)
    unfolding acquire
    acquire_all fuel [] b now = some (b, now)
    acquire_all fuel (gap ∷ gaps) b now = elim (acquire fuel b (now + gap)) [
      | none ↦ none
      | some (b', now') ↦ acquire_all fuel gaps b' now'
    ]
