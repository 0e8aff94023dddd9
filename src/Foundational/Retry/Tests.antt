-- ===== src/Foundational/Retry/Tests.antt =====
-- A gateway that is unreachable at first.
use open_residency.Base.{ℕ, zero, suc, ◌+◌, ◌≡◌, ◌≤◌, refl, arith, true, false, String, none, some}
use open_residency.Foundational.Retry.{
  ConfiguredPolicy, resolve_retry_policy, Failure, Answer, answered, failed, http_error,
  is_retryable, returned, thrown, Platform, with_retry,
}
use open_residency.Foundational.Retry.Ends.{is_transient, Ends}
use open_residency.Foundational.Retry.Outcomes.{
  with_retry-resolved-Ends, with_retry-answered, with_retry-failed,
}

abbrev whole : Platform
whole = record { digits = λ s. none; parse_date = λ s. none; jitter = λ i w. w }

whole-short : (i w : ℕ) → whole.jitter i w ≤ w
whole-short i w = omega arith

abbrev unconfigured : ConfiguredPolicy
unconfigured = record { attempts = none; base_delay_ms = none; max_delay_ms = none }

abbrev unreachable : Failure
unreachable = http_error none

abbrev not_found : Failure
not_found = http_error (some (record { status = 404; retry_after = none }))

-- The second call is answered.
abbrev second_try : ℕ → Answer String
second_try zero = failed unreachable
second_try (suc zero) = failed unreachable
second_try (suc (suc n)) = answered "found"

-- The second call is refused.
abbrev then_refused : ℕ → Answer String
then_refused zero = failed unreachable
then_refused (suc zero) = failed unreachable
then_refused (suc (suc n)) = failed not_found

abbrev midnight : ℕ → ℕ
midnight i = 0

first_fails : (j : ℕ) → 1 ≤ j → j + 1 ≤ 2 → is_transient (second_try j) ≡ true
unfolding is_retryable
first_fails zero l m = refl
first_fails (suc zero) l m = refl
first_fails (suc (suc j)) l m = ground (arith, m)

first_fails_too : (j : ℕ) → 1 ≤ j → j + 1 ≤ 2 → is_transient (then_refused j) ≡ true
unfolding is_retryable
first_fails_too zero l m = refl
first_fails_too (suc zero) l m = refl
first_fails_too (suc (suc j)) l m = ground (arith, m)

two_of_three : 2 ≤ (resolve_retry_policy unconfigured).attempts
unfolding resolve_retry_policy
two_of_three = omega arith

not_found_stops : is_retryable not_found ≡ false
unfolding is_retryable
not_found_stops = refl

with_retry-resolved-Ends_example :
    Ends whole whole-short second_try
      (resolve_retry_policy unconfigured)
      midnight
      1
      (with_retry whole second_try (resolve_retry_policy unconfigured) midnight)
with_retry-resolved-Ends_example =
    with_retry-resolved-Ends whole whole-short second_try unconfigured midnight

with_retry-answered_example :
    ((with_retry whole second_try (resolve_retry_policy unconfigured) midnight).result
      ≡ returned "found")
    × ((with_retry whole second_try (resolve_retry_policy unconfigured) midnight).calls ≡ 2)
with_retry-answered_example =
    with_retry-answered whole whole-short second_try unconfigured midnight 2 "found" (omega arith)
      two_of_three first_fails refl

with_retry-failed_example :
    ((with_retry whole then_refused (resolve_retry_policy unconfigured) midnight).result
      ≡ thrown (some not_found))
    × ((with_retry whole then_refused (resolve_retry_policy unconfigured) midnight).calls ≡ 2)
with_retry-failed_example =
    with_retry-failed whole whole-short then_refused unconfigured midnight 2 not_found (omega arith)
      two_of_three first_fails_too refl (rw not_found_stops (ground arith))
