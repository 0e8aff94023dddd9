-- ===== src/Foundational/Retry/Ends.antt =====
-- How the loop ends.
use open_residency.Base.{
  ℕ, zero, suc, ◌+◌, ◌-◌, ◌*◌, ◌==◌, ◌≡◌, ◌≤◌, inl, inr, refl, ap, ◌∙◌, subst, arith, Bool, true,
  false, ◌||◌, not, Option, none, some, Bool-cases, All, length,
}
use open_residency.Foundational.Retry.{
  RetryPolicy, min_of, power_of_two, delay_of, Failure, Answer, answered, failed, is_retryable,
  Wait, Result, returned, thrown, Run, Platform, retry_after_ms, backoff_ms, delay_ms, attempted,
  last_error, loop, with_retry,
}

-- A failure after which the call is made again.
abbrev pub is_transient : {T : Type 0} → Answer T → Bool
is_transient (answered t) = false
is_transient (failed e) = is_retryable e

-- What the last call answered, by the result.
abbrev pub EndsWith : {T : Type 0} → ℕ → Answer T → ℕ → Result T → Type 0
EndsWith attempts answer k (returned t) = answer ≡ answered t
EndsWith attempts answer k (thrown none) = ⊥
EndsWith attempts answer k (thrown (some e)) =
    (answer ≡ failed e) × ((k == attempts || not (is_retryable e)) ≡ true)

module _ (platform : Platform) (short : (i w : ℕ) → platform.jitter i w ≤ w) {T : Type 0}
    (call : ℕ → Answer T) (policy : RetryPolicy) (now : ℕ → ℕ) where
  -- A run of the loop from an attempt on: it made every call up to the last one, each of the earlier
  -- ones failed transiently, the last one explains the result, and it waited before each call but the
  -- first, never longer than the policy allows.
  pub record Ends (from : ℕ) (r : Run T) : Type 0 where
    pub least : from ≤ r.calls
    pub most : r.calls ≤ policy.attempts
    pub earlier : (i : ℕ) → from ≤ i → i + 1 ≤ r.calls → is_transient (call i) ≡ true
    pub final : EndsWith policy.attempts (call r.calls) r.calls r.result
    pub waited : length r.waits + from ≡ r.calls
    pub allowed : All (λ (w : Wait). w.delay_ms ≤ policy.max_delay_ms) r.waits

  delay-allowed :
      (e : Failure) (attempt : ℕ)
      → delay_ms platform e (now attempt) attempt policy ≤ policy.max_delay_ms
  unfolding delay_ms backoff_ms
  delay-allowed e attempt = limited (retry_after_ms platform e (now attempt))
    where
      least_of : (m n : ℕ) → min_of m n ≤ m
      least_of m n = ground arith

      other_of : (m n : ℕ) → min_of m n ≤ n
      other_of m n = ground arith

      limited : (o : Option ℕ) → delay_of platform o attempt policy ≤ policy.max_delay_ms
      limited (some asked) = other_of asked policy.max_delay_ms
      limited none =
          let window =
            min_of policy.max_delay_ms (policy.base_delay_ms * power_of_two (attempt - 1)) in
          unfold backoff_ms in
          omega (
            arith,
            short attempt window,
            least_of policy.max_delay_ms (policy.base_delay_ms * power_of_two (attempt - 1)),
          )

  attempted-Ends :
      (attempt : ℕ) (a : Answer T) (rest : Run T)
      → attempt ≤ policy.attempts
      → call attempt ≡ a
      → (((attempt == policy.attempts) ≡ false) → Ends (attempt + 1) rest)
      → Ends attempt (attempted platform call policy now attempt a rest)
  attempted-Ends attempt (answered t) rest m e f = record {
    least = omega arith;
    most = m;
    earlier = λ i l u. absurd (between i l u);
    final = e;
    waited = omega arith;
    allowed = tt;
  }
    where
      between : (i : ℕ) → attempt ≤ i → i + 1 ≤ attempt → ⊥
      between i l u = omega arith
  attempted-Ends attempt (failed x) rest m e f =
      elim (Bool-cases (attempt == policy.attempts || not (is_retryable x))) [
        | inl t ↦ rw t (record {
          least = omega arith;
          most = m;
          earlier = λ i l u. absurd (between i l u);
          final = (e, t);
          waited = omega arith;
          allowed = tt;
        })
        | inr n ↦
            let r = f (ground (arith, n)) in
            rw n (record {
              least = omega (arith, r.least);
              most = r.most;
              earlier = λ i l u. before_last i l u (transient n) (r.earlier i);
              final = r.final;
              waited = omega (arith, r.waited);
              allowed = (delay-allowed x attempt, r.allowed);
            })
      ]
    where
      between : (i : ℕ) → attempt ≤ i → i + 1 ≤ attempt → ⊥
      between i l u = omega arith

      transient :
          (attempt == policy.attempts || not (is_retryable x)) ≡ false
          → is_transient (call attempt) ≡ true
      transient n = ap is_transient e ∙ ground (arith, n)

      before_last :
          (i : ℕ)
          → attempt ≤ i
          → i + 1 ≤ rest.calls
          → is_transient (call attempt) ≡ true
          → (attempt + 1 ≤ i → i + 1 ≤ rest.calls → is_transient (call i) ≡ true)
          → is_transient (call i) ≡ true
      before_last i l u t g = elim (Bool-cases (attempt == i)) [
        | inl q ↦ subst (λ (k : ℕ). is_transient (call k) ≡ true) (ground (arith, q)) t
        | inr q ↦ g (ground (arith, q, l)) u
      ]

  loop-Ends :
      (left attempt : ℕ) (last : Option Failure)
      → 1 ≤ left
      → left + attempt ≡ policy.attempts + 1
      → Ends attempt (loop platform call policy now left attempt last)
  unfolding loop
  loop-Ends zero attempt last l s = absurd (none_left l)
    where
      none_left : 1 ≤ 0 → ⊥
      none_left l = omega arith
  loop-Ends (suc left) attempt last l s =
      attempted-Ends attempt (call attempt)
        (loop platform call policy now left (attempt + 1)
          (last_error platform call policy now (call attempt)))
        (omega (arith, s)) refl
        (λ n.
          loop-Ends left (attempt + 1) (last_error platform call policy now (call attempt))
            (more left s n) (omega (arith, s)))
    where
      more :
          (left : ℕ)
          → suc left + attempt ≡ policy.attempts + 1
          → (attempt == policy.attempts) ≡ false
          → 1 ≤ left
      more left s n = ground (arith, s, n)

  last-stops :
      (r : Run T)
      → Ends 1 r
      → (r.calls == policy.attempts || not (is_transient (call r.calls))) ≡ true
  last-stops r h = of_result r.result h.final
    where
      of_result :
          (x : Result T)
          → EndsWith policy.attempts (call r.calls) r.calls x
          → (r.calls == policy.attempts || not (is_transient (call r.calls))) ≡ true
      of_result (returned t) e = rw e (ground arith)
      of_result (thrown (some x)) (e, t) = rw e t
      of_result (thrown none) e = absurd e

  pub calls_is :
      (r : Run T) (i : ℕ)
      → Ends 1 r
      → 1 ≤ i
      → i ≤ policy.attempts
      → ((j : ℕ) → 1 ≤ j → j + 1 ≤ i → is_transient (call j) ≡ true)
      → (i == policy.attempts || not (is_transient (call i))) ≡ true
      → r.calls ≡ i
  calls_is r i h l m before stop =
      ground
        (arith, h.least, h.most, h.earlier i l, before r.calls h.least, last-stops r h, stop, m)

  pub with_retry-Ends : 1 ≤ policy.attempts → Ends 1 (with_retry platform call policy now)
  unfolding with_retry
  with_retry-Ends l = loop-Ends policy.attempts 1 none l (omega arith)

  pub result-answered :
      (r : Run T) (i : ℕ) (t : T)
      → r.calls ≡ i
      → EndsWith policy.attempts (call r.calls) r.calls r.result
      → call i ≡ answered t
      → r.result ≡ returned t
  result-answered r i t c e a =
      of_result r.result (subst (λ (k : ℕ). EndsWith policy.attempts (call k) k r.result) c e) a
    where
      of_result :
          (x : Result T)
          → EndsWith policy.attempts (call i) i x
          → call i ≡ answered t
          → x ≡ returned t
      of_result (returned u) e a = ground (arith, e, a)
      of_result (thrown (some x)) (e, s) a = cc
      of_result (thrown none) e a = absurd e

  pub result-failed :
      (r : Run T) (i : ℕ) (x : Failure)
      → r.calls ≡ i
      → EndsWith policy.attempts (call r.calls) r.calls r.result
      → call i ≡ failed x
      → r.result ≡ thrown (some x)
  result-failed r i x c e a =
      of_result r.result (subst (λ (k : ℕ). EndsWith policy.attempts (call k) k r.result) c e) a
    where
      of_result :
          (y : Result T)
          → EndsWith policy.attempts (call i) i y
          → call i ≡ failed x
          → y ≡ thrown (some x)
      of_result (returned u) e a = cc
      of_result (thrown (some y)) (e, s) a = ground (arith, e, a)
      of_result (thrown none) e a = absurd e
