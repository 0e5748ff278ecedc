-- ===== src/Llm/RateLimit/Window.antt =====
-- How many calls the limiter lets through in a time.
use surveyforge.Base.{ℕ, ◌+◌, ◌-◌, ◌*◌, ◌≤◌, ◌<◌, Option, some, ◌≡◌}
use surveyforge.Llm.RateLimit.{unit, Limiter, Bucket}

module _ (l : Limiter) where
  abbrev Full : Bucket → Type 0
  Full b = b.tokens ≤ l.capacity * unit

  -- From the bucket `b` to the bucket `b'`, `spent` parts were taken, and no more than flowed in.
  abbrev Paid : ℕ → Bucket → Bucket → Type 0
  Paid spent b b' = spent + b'.tokens + l.rpm * b.last ≤ b.tokens + l.rpm * b'.last

  module _ (late : ℕ → ℕ) (positive : 0 < l.capacity) (rate : 0 < l.rpm) where
    abbrev Served : ℕ → Bucket → ℕ → Option (Bucket × ℕ) → Type 0
    Served n b now r =
        (b' : Bucket) × (later : ℕ) × (r ≡ some (b', later))
        × (now ≤ later)
        × (b'.last ≡ later)
        × Full b'
        × Paid (n * unit) b b'

    abbrev debit : Bucket → Bucket
    debit b = record b { tokens = b.tokens - unit }
