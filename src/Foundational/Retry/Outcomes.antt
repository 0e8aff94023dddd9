-- ===== src/Foundational/Retry/Outcomes.antt =====
-- What withRetry answers.
use open_residency.Base.{ℕ, ◌+◌, ◌==◌, ◌≡◌, ◌≤◌, arith, true, ◌||◌, not, some}
use open_residency.Foundational.Retry.{
  RetryPolicy, ConfiguredPolicy, resolve_retry_policy, Failure, Answer, answered, failed,
  is_retryable, returned, thrown, Platform, with_retry,
}
use open_residency.Foundational.Retry.Ends.{
  is_transient, Ends, calls_is, with_retry-Ends, result-answered, result-failed,
}

resolved_attempts : (c : ConfiguredPolicy) → 1 ≤ (resolve_retry_policy c).attempts
unfolding resolve_retry_policy
resolved_attempts c = ground arith

module _ (platform : Platform) (short : (i w : ℕ) → platform.jitter i w ≤ w) {T : Type 0}
    (call : ℕ → Answer T) (configured : ConfiguredPolicy) (now : ℕ → ℕ) where
  abbrev policy : RetryPolicy
  policy = resolve_retry_policy configured

  -- Under any resolved policy and whatever the calls answer: the loop makes at least one call and
  -- at most the attempts of the policy, each call but the last fails transiently, the last one
  -- explains the result, and it waits once before each further call, never longer than the policy
  -- allows. The product of a random fraction with a window is taken to be at most the window.
  pub with_retry-resolved-Ends :
      Ends platform short call policy now 1 (with_retry platform call policy now)
  with_retry-resolved-Ends =
      with_retry-Ends platform short call policy now (resolved_attempts configured)

  -- Under any resolved policy: if a call within the attempts is answered and every call before it
  -- fails transiently, that answer is returned, after exactly so many calls. The product of a
  -- random fraction with a window is taken to be at most the window.
  pub with_retry-answered :
      (i : ℕ) (t : T)
      → 1 ≤ i
      → i ≤ policy.attempts
      → ((j : ℕ) → 1 ≤ j → j + 1 ≤ i → is_transient (call j) ≡ true)
      → call i ≡ answered t
      → ((with_retry platform call policy now).result ≡ returned t)
        × ((with_retry platform call policy now).calls ≡ i)
  with_retry-answered i t l m before a =
      let h = with_retry-resolved-Ends in
      let c =
        calls_is platform short call policy now (with_retry platform call policy now) i h l m before
          (rw a (ground arith)) in
      (
        result-answered platform short call policy now (with_retry platform call policy now) i t c
            h.final a,
        c,
      )

  -- Under any resolved policy: if a call within the attempts fails, every call before it failed
  -- transiently, and either the failure is not to be retried or the attempts are used up, that
  -- failure is thrown, after exactly so many calls. The product of a random fraction with a window
  -- is taken to be at most the window.
  pub with_retry-failed :
      (i : ℕ) (e : Failure)
      → 1 ≤ i
      → i ≤ policy.attempts
      → ((j : ℕ) → 1 ≤ j → j + 1 ≤ i → is_transient (call j) ≡ true)
      → call i ≡ failed e
      → (i == policy.attempts || not (is_retryable e)) ≡ true
      → ((with_retry platform call policy now).result ≡ thrown (some e))
        × ((with_retry platform call policy now).calls ≡ i)
  with_retry-failed i e l m before a stop =
      let h = with_retry-resolved-Ends in
      let c =
        calls_is platform short call policy now (with_retry platform call policy now) i h l m before
          (rw a stop) in
      (
        result-failed platform short call policy now (with_retry platform call policy now) i e c
            h.final a,
        c,
      )
