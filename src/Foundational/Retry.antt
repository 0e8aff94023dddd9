-- ===== src/Foundational/Retry.antt =====
-- src/core/foundational/retry.ts: retrying a call. The answers of the call, of `random` and of `now`
-- are functions of the attempt; `Number`, `Date.parse` and the product with a random fraction are
-- arguments. Delays are natural numbers of milliseconds.
use open_residency.Base.{
  ℕ, zero, suc, ◌+◌, ◌*◌, ◌-◌, ◌==◌, Bool, true, false, ◌&&◌, ◌||◌, not, String, Option, none, some,
  List, [], ◌∷◌, if◌then◌else◌, leb, ltb, trim, truthy,
}
pub mod Ends
pub mod Outcomes
mod Tests

pub record RetryPolicy : Type 0 where
  pub attempts : ℕ
  pub base_delay_ms : ℕ
  pub max_delay_ms : ℕ

abbrev pub default_retry_policy : RetryPolicy
default_retry_policy = record { attempts = 3; base_delay_ms = 200; max_delay_ms = 2000 }

-- `Partial<RetryPolicy>`
pub record ConfiguredPolicy : Type 0 where
  pub attempts : Option ℕ
  pub base_delay_ms : Option ℕ
  pub max_delay_ms : Option ℕ

abbrev configured_or : Option ℕ → ℕ → ℕ
configured_or none n = n
configured_or (some m) n = m

abbrev pub min_of : ℕ → ℕ → ℕ
min_of m n = if leb m n then m else n

unfoldable pub resolve_retry_policy : ConfiguredPolicy → RetryPolicy
resolve_retry_policy c =
    let attempts = configured_or c.attempts default_retry_policy.attempts in
    record {
      attempts = if leb 1 attempts then attempts else 1;
      base_delay_ms = configured_or c.base_delay_ms default_retry_policy.base_delay_ms;
      max_delay_ms = configured_or c.max_delay_ms default_retry_policy.max_delay_ms;
    }

pub record Response : Type 0 where
  pub status : ℕ
  pub retry_after : Option String

-- What a call raises: an error of the HTTP client, with or without a response, or another one.
pub data Failure : Type 0 where
  http_error : Option Response → Failure
  other_error : String → Failure

pub data Answer (T : Type 0) : Type 0 where
  answered : T → Answer T
  failed : Failure → Answer T

unfoldable pub is_retryable : Failure → Bool
is_retryable (other_error e) = false
is_retryable (http_error none) = true
is_retryable (http_error (some r)) = r.status == 429 || (leb 500 r.status && leb r.status 599)

-- How a loop ended, after how many calls, and what it waited before each further call.
pub record Wait : Type 0 where
  pub attempt : ℕ
  pub delay_ms : ℕ
  pub error : Failure

pub data Result (T : Type 0) : Type 0 where
  returned : T → Result T
  thrown : Option Failure → Result T

pub record Run (T : Type 0) : Type 0 where
  pub result : Result T
  pub calls : ℕ
  pub waits : List Wait

-- What the language provides: `/^\d+$/` with `Number`, `Date.parse`, and the floor of the product of
-- a random fraction, the one drawn at an attempt, with a window.
pub record Platform : Type 0 where
  pub digits : String → Option ℕ
  pub parse_date : String → Option ℕ
  pub jitter : ℕ → ℕ → ℕ

abbrev pub power_of_two : ℕ → ℕ
power_of_two zero = 1
power_of_two (suc n) = 2 * power_of_two n

module _ (platform : Platform) where
  open platform use {digits, parse_date, jitter}

  abbrev until : Option ℕ → ℕ → Option ℕ
  until none now = none
  until (some at) now = some (at - now)

  abbrev header_ms : String → Option ℕ → ℕ → Option ℕ
  header_ms header (some n) now = some (n * 1000)
  header_ms header none now = until (parse_date header) now

  abbrev asked_for : Option String → ℕ → Option ℕ
  asked_for none now = none
  asked_for (some raw) now = header_ms (trim raw) (digits (trim raw)) now

  unfoldable pub retry_after_ms : Failure → ℕ → Option ℕ
  retry_after_ms (other_error e) now = none
  retry_after_ms (http_error none) now = none
  retry_after_ms (http_error (some r)) now = asked_for r.retry_after now

  unfoldable pub backoff_ms : ℕ → RetryPolicy → ℕ
  backoff_ms attempt policy =
      jitter attempt
        (min_of policy.max_delay_ms (policy.base_delay_ms * power_of_two (attempt - 1)))

  abbrev pub delay_of : Option ℕ → ℕ → RetryPolicy → ℕ
  delay_of (some asked) attempt policy = min_of asked policy.max_delay_ms
  delay_of none attempt policy = backoff_ms attempt policy

  unfoldable pub delay_ms : Failure → ℕ → ℕ → RetryPolicy → ℕ
  delay_ms e now attempt policy = delay_of (retry_after_ms e now) attempt policy

  module _ {T : Type 0} (call : ℕ → Answer T) (policy : RetryPolicy) (now : ℕ → ℕ) where
    abbrev pub after_wait : Wait → Run T → Run T
    after_wait w r = record r { waits = w ∷ r.waits }

    -- The body of the loop after a call, with the rest of the loop.
    abbrev pub attempted : ℕ → Answer T → Run T → Run T
    attempted attempt (answered t) rest = record {
      result = returned t;
      calls = attempt;
      waits = [];
    }
    attempted attempt (failed e) rest =
        if attempt == policy.attempts || not (is_retryable e)
        then record { result = thrown (some e); calls = attempt; waits = [] }
        else after_wait
            (record {
              attempt = attempt;
              delay_ms = delay_ms e (now attempt) attempt policy;
              error = e;
            })
            rest

    abbrev pub last_error : Answer T → Option Failure
    last_error (answered t) = none
    last_error (failed e) = some e

    -- The loop, with so many rounds left, from an attempt on.
    unfoldable pub loop : ℕ → ℕ → Option Failure → Run T
    loop zero attempt last = record { result = thrown last; calls = attempt - 1; waits = [] }
    loop (suc left) attempt last =
        attempted attempt (call attempt) (loop left (attempt + 1) (last_error (call attempt)))

    unfoldable pub with_retry : Run T
    with_retry = loop policy.attempts 1 none
