-- ===== src/Tools/Http/Retries.antt =====
-- How many requests a lookup makes, and how its last answer is read.
use surveyforge.Base.{
  ◌≡◌, ◌≢◌, refl, sym, subst, ◌⊎◌, inl, inr, ◌&&◌, ℕ, zero, suc, ◌+◌, ◌≤◌, ◌<◌, Bool-cases, eqb,
  leb, ltb, ltb→lt, arith,
}
use surveyforge.Runtime.Errors.{Exc, Result, Result-cases, ok, err, http_status, overflow_error}
use surveyforge.Runtime.Json.{Json}
use surveyforge.Runtime.World.{World, Exec, continue}
use surveyforge.Tools.Http.{
  Response, longest_sleep, sleep, max_retry_attempts, with_retries, no_paper, after_request,
}

-- The requests in order: `n` of them from attempt `k` on, each after the first on an answer 429, and
-- `out` is what the last one gave, or `OverflowError` where the delay for it is too long to sleep.
pub data Retried (delay : Response → ℕ → ℕ) (request : Exec Response)
    : ℕ → ℕ → World → Result Response × World → Type 0 where
  raised :
      (k : ℕ) (w : World) (e : Exc)
      → (request w).0 ≡ err e
      → Retried delay request k 1 w (err e, (request w).1)
  answered :
      (k : ℕ) (w : World) (r : Response)
      → (request w).0 ≡ ok r
      → r.status_code ≢ 429
      → Retried delay request k 1 w (ok r, (request w).1)
  exhausted :
      (w : World) (r : Response)
      → (request w).0 ≡ ok r
      → r.status_code ≡ 429
      → Retried delay request max_retry_attempts 1 w (ok r, (request w).1)
  overslept :
      (k : ℕ) (w : World) (r : Response)
      → (request w).0 ≡ ok r
      → r.status_code ≡ 429
      → k < max_retry_attempts
      → longest_sleep < delay r k
      → Retried delay request k 1 w (err overflow_error, (request w).1)
  again :
      (k n : ℕ) (w : World) (r : Response) (out : Result Response × World)
      → (request w).0 ≡ ok r
      → r.status_code ≡ 429
      → delay r k ≤ longest_sleep
      → Retried delay request (suc k) n (sleep (delay r k) (request w).1) out
      → Retried delay request k (suc n) w out

module _ (delay : Response → ℕ → ℕ) (request : Exec Response) where
  -- One request at least, and one more for each retry that is left at most.
  abbrev pub Bounded : ℕ → ℕ → World → Result Response × World → Type 0
  Bounded left k w out = (n : ℕ) × (1 ≤ n) × (n ≤ suc left) × Retried delay request k n w out

  last_request : (k : ℕ) (w : World) → k ≡ max_retry_attempts → Bounded zero k w (request w)
  last_request k w e = elim (Result-cases (request w).0) [
    | inr (x, h) ↦ rw h (1, omega arith, omega arith, raised k w x h)
    | inl (r, h) ↦ elim (Bool-cases (eqb r.status_code 429)) [
      | inr f ↦ rw h (1, omega arith, omega arith, answered k w r h (λ same. ground arith))
      | inl t ↦ rw h (
        1,
        omega arith,
        omega arith,
        subst (λ j. Retried delay request j 1 w (ok r, (request w).1)) (sym e)
            (exhausted w r h (ground arith)),
      )
    ]
  ]

  one_more :
      (left k : ℕ) (w : World) (r : Response) (out : Result Response × World)
      → (request w).0 ≡ ok r
      → r.status_code ≡ 429
      → delay r k ≤ longest_sleep
      → Bounded left (suc k) (sleep (delay r k) (request w).1) out
      → Bounded (suc left) k w out
  one_more left k w r out h t short (n, low, high, tries) =
      (suc n, omega arith, omega arith, again k n w r out h t short tries)

  with_retries-Bounded :
      (left k : ℕ) (w : World)
      → k + left ≡ max_retry_attempts
      → Bounded left k w (with_retries delay request left k w)
  unfolding with_retries
  with_retries-Bounded zero k w e = last_request k w (omega arith)
  with_retries-Bounded (suc left) k w e = elim (Result-cases (request w).0) [
    | inr (x, h) ↦ rw (h, with_retries) (1, omega arith, omega arith, raised k w x h)
    | inl (r, h) ↦ elim (Bool-cases (eqb r.status_code 429)) [
      | inr f ↦
          rw (h, with_retries)
            (rw (f, continue)
              (1, omega arith, omega arith, answered k w r h (λ same. ground arith)))
      | inl t ↦ elim (Bool-cases (ltb longest_sleep (delay r k))) [
        | inl long ↦
            rw (h, with_retries)
              (rw (t, continue)
                (rw (long, continue)
                  (
                    1,
                    omega arith,
                    omega arith,
                    overslept k w r h (ground arith) (omega arith)
                        (ltb→lt longest_sleep (delay r k) long),
                  )))
        | inr short ↦
            rw (h, with_retries)
              (rw (t, continue)
                (rw (short, continue)
                  (one_more left k w r _ h (ground arith) (ground arith) (
                    with_retries-Bounded left (suc k) (sleep (delay r k) (request w).1)
                      (omega arith)))))
      ]
    ]
  ]

-- A lookup makes one request at least and four at most, each after the first on an answer 429 and
-- after a sleep of the delay for that answer; it ends with an exception, with another answer, with the
-- fourth answer 429, or with `OverflowError` where the delay is longer than a sleep can be.
pub with_retries-Retried :
    (delay : Response → ℕ → ℕ) (request : Exec Response) (w : World)
    → (n : ℕ) × (1 ≤ n)
      × (n ≤ 4)
      × Retried delay request 0 n w (with_retries delay request max_retry_attempts 0 w)
with_retries-Retried delay request w =
    with_retries-Bounded delay request max_retry_attempts 0 w refl

-- How the last answer is read: an exception goes on, 404 is no paper, any other answer that is not a
-- success is `HTTPStatusError`, and a success is read.
abbrev pub Interpreted : (Response → Result Json) → Result Response → Result Json → Type 0
Interpreted read last out =
    ((e : Exc) × (last ≡ err e) × (out ≡ err e))
    ⊎ ((r : Response) × (last ≡ ok r)
        × (((r.status_code ≡ 404) × (out ≡ ok no_paper))
            ⊎ ((200 ≤ r.status_code) × (r.status_code < 300) × (out ≡ read r))
            ⊎ (((r.status_code < 200) ⊎ (300 ≤ r.status_code))
                × (r.status_code ≢ 404)
                × (out ≡ err (http_status r.status_code)))))

pub after_request-Interpreted :
    (read : Response → Result Json) (last : Result Response × World)
    → Interpreted read last.0 (after_request read last).0
unfolding after_request
after_request-Interpreted read (err e, w) = inl (e, refl, refl)
after_request-Interpreted read (ok r, w) = inr (
  r,
  refl,
  elim (Bool-cases (eqb r.status_code 404)) [
    | inl t ↦ rw (t, after_request) (inl (ground arith, refl))
    | inr f ↦ elim (Bool-cases (leb 200 r.status_code && ltb r.status_code 300)) [
      | inl t ↦
          rw (f, after_request)
            (rw (t, after_request) (inr (inl (ground arith, ground arith, refl))))
      | inr g ↦
          rw (f, after_request)
            (rw (g, after_request) (inr (inr (ground arith, (λ same. ground arith), refl))))
    ]
  ],
)
