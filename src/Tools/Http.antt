-- ===== src/Tools/Http.antt =====
-- Requests with retries, as both lookup tools of src/litweave/tools make them. The answers of a server
-- are an argument; so are the reading of a JSON body, of an XML body and of a number.
pub mod Retries
use surveyforge.Base.{
  ℕ, zero, suc, ◌+◌, Bool, true, false, not, ◌&&◌, ◌||◌, String, Option, none, some, List, eqb, leb,
  ltb, if◌then◌else◌,
}
use surveyforge.Runtime.Errors.{Result, ok, err, http_status, overflow_error}
use surveyforge.Runtime.Json.{Json, null, obj, field, end}
use surveyforge.Runtime.World.{World, Exec, ◌>>=◌}

pub record Response : Type 0 where
  pub status_code : ℕ
  pub retry_after : Option String
  pub text : String

-- What a server answers to a request of an address with parameters and headers, by the time in milliseconds, or the exception of the
-- connection; and the time when it has.
abbrev pub Server : Type 0
Server = String → List (String × String) → List (String × String) → ℕ → Result Response × ℕ

-- `client.get`
unfoldable pub send :
    Server → String → List (String × String) → List (String × String) → Exec Response
send server url params headers w =
    let (r, time) = server url params headers w.clock in (r, record w { clock = time })

-- The longest sleep that `time.sleep` takes, which counts nanoseconds in 63 bits.
abbrev pub longest_sleep : ℕ
longest_sleep = 9_223_372_036_854

-- `time.sleep` of no more than that.
abbrev pub sleep : ℕ → World → World
sleep delay w = record w { clock = w.clock + delay }

abbrev pub max_retry_attempts : ℕ
max_retry_attempts = 3

-- `seconds` reads a header as `float` does, in milliseconds, where that gives no negative number; an
-- infinite one is some number above the longest sleep. `default` is the backoff of the attempt.
unfoldable pub delay_of : (String → Option ℕ) → ℕ → Response → ℕ
delay_of seconds default r = elim r.retry_after [
  | none ↦ default
  | some raw ↦ elim (seconds raw) [ none ↦ default | some ms ↦ ms ]
]

-- `DEFAULT_BACKOFF_SECONDS[attempt]`, whose index is below 3.
unfoldable pub default_backoff : ℕ → ℕ
default_backoff zero = 1000
default_backoff (suc zero) = 2000
default_backoff (suc (suc attempt)) = 4000

-- The loop, by the retries that are left, with the number of the attempt from 0.
unfoldable pub with_retries : (Response → ℕ → ℕ) → Exec Response → ℕ → ℕ → Exec Response
with_retries delay request zero attempt = request
with_retries delay request (suc left) attempt = request >>= λ r w. elim (eqb r.status_code 429) [
  | true ↦ elim (ltb longest_sleep (delay r attempt)) [
    | true ↦ (err overflow_error, w)
    | false ↦ with_retries delay request left (suc attempt) (sleep (delay r attempt) w)
  ]
  | false ↦ (ok r, w)
]

abbrev pub no_paper : Json
no_paper = obj (field "paper" null end)

-- `status_code == 404`, `raise_for_status()`, and what is left.
unfoldable pub after_request :
    (Response → Result Json) → Result Response × World → Result Json × World
after_request read (err e, w) = (err e, w)
after_request read (ok r, w) = elim (eqb r.status_code 404) [
  | true ↦ (ok no_paper, w)
  | false ↦ elim (leb 200 r.status_code && ltb r.status_code 300) [
    | true ↦ (read r, w)
    | false ↦ (err (http_status r.status_code), w)
  ]
]
