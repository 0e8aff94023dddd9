-- ===== src/Sso/Otp/Runs.antt =====
-- Any sequence of requests for codes and guesses, on a clock that does not run backwards.
use open_residency.Base.{
  ℕ, ◌-◌, ◌*◌, ◌≡◌, ◌≤◌, refl, true, String, Option, none, some, List, [], ◌∷◌, arith, eq_iff,
}
use open_residency.Base.Dict
use open_residency.Sso.Otp.{
  OtpChallengeRecord, OtpStore, OtpLimits, Platform, at_least, window_start, is_open_for,
  is_recent_for, find_active, issue, check_found, verify,
}
use open_residency.Sso.Otp.Totals.{
  total, counted, failures-recent_for, IsKeyed, find_active-IsFound,
}
use open_residency.Sso.Otp.Window.{guesses, check-keeps, issue-keeps, issue-IsKeyed, check-IsKeyed}

pub data Call : Type 0 where
  issues : String → String → String → Call
  verifies : String → String → Call

-- A smaller weight everywhere gives a smaller sum.
total_mono {ℓ} :
    {V : Type ℓ} (w u : V → ℕ) (m : Dict.Dict V) → ((v : V) → w v ≤ u v) → total w m ≤ total u m
unfolding total
total_mono w u [] h = omega arith
total_mono w u ((k, v) ∷ m) h = omega (arith, h v, total_mono w u m h)

open_resident :
    (c : OtpChallengeRecord) (resident_id : String)
    → is_open_for resident_id c ≡ true
    → c.resident_id ≡ resident_id
unfolding is_open_for
open_resident c resident_id t = ground (arith, eq_iff c.resident_id resident_id)

module _ (platform : Platform) (limits : OtpLimits) where
  unfoldable pub step : ℕ → Call → OtpStore → OtpStore
  step now (issues resident_id id code) s = (issue platform limits resident_id id code now s).1
  step now (verifies resident_id code) s = (verify platform limits resident_id code now s).1

  unfoldable pub run : OtpStore → List (ℕ × Call) → OtpStore
  run s [] = s
  run s ((now, call) ∷ calls) = run (step now call s) calls

  -- The instant of the last call.
  abbrev pub end : ℕ → List (ℕ × Call) → ℕ
  end t [] = t
  end t ((now, call) ∷ calls) = end now calls

  abbrev pub IsFreshCall : OtpStore → Call → Type 0
  IsFreshCall s (issues resident_id id code) = Dict.get s id ≡ none
  IsFreshCall s (verifies _ _) = Unit

  -- The clock does not run backwards, and a new challenge draws an identifier not in the store.
  abbrev pub IsTimed : ℕ → OtpStore → List (ℕ × Call) → Type 0
  IsTimed t s [] = Unit
  IsTimed t s ((now, call) ∷ calls) =
      (t ≤ now) × IsFreshCall s call × IsTimed now (step now call s) calls

  -- Keyed, and within the bound of the window at an instant, for every resident.
  pub record IsBounded (t : ℕ) (s : OtpStore) : Type 0 where
    pub keyed : IsKeyed s
    pub bounded :
        (other : String)
        → total (counted other (window_start platform limits t)) s ≤ limits.max_attempts_per_window

  check_found-IsBounded :
      (s : OtpStore) (resident_id code : String) (now : ℕ) (o : Option OtpChallengeRecord)
      → find_active s resident_id ≡ o
      → IsBounded now s
      → IsBounded now (check_found platform limits resident_id code now s o).1
  check_found-IsBounded s resident_id code now none e h = h
  check_found-IsBounded s resident_id code now (some c) e h =
      let f = find_active-IsFound s resident_id c h.keyed e in
      record {
        keyed = check-IsKeyed platform limits s resident_id code now c h.keyed;
        bounded = λ other.
            check-keeps platform limits s resident_id other code now c h.keyed f.stored
              (open_resident c resident_id f.is_open) (h.bounded other);
      }

  step-IsBounded :
      (s : OtpStore) (now : ℕ) (call : Call)
      → IsFreshCall s call
      → IsBounded now s
      → IsBounded now (step now call s)
  unfolding step
  step-IsBounded s now (issues resident_id id code) f h = record {
    keyed = issue-IsKeyed platform limits s resident_id id code now h.keyed;
    bounded = λ other.
        issue-keeps platform limits s resident_id other id code now f h.keyed (h.bounded other);
  }
  step-IsBounded s now (verifies resident_id code) f h =
      unfold verify in
      check_found-IsBounded s resident_id code now (find_active s resident_id) refl h

  module _
      (iso_order : (x : String) (t t' : ℕ)
        → t ≤ t'
        → at_least x (platform.to_iso t') ≡ true
        → at_least x (platform.to_iso t) ≡ true) where
    later-IsBounded : (s : OtpStore) (t t' : ℕ) → t ≤ t' → IsBounded t s → IsBounded t' s
    unfolding counted is_recent_for window_start
    later-IsBounded s t t' l h = record {
      keyed = h.keyed;
      bounded = λ other.
          omega (arith, total_mono (later other) (earlier other) s (fewer other), h.bounded other);
    }
      where
        earlier : String → OtpChallengeRecord → ℕ
        earlier other = counted other (window_start platform limits t)

        later : String → OtpChallengeRecord → ℕ
        later other = counted other (window_start platform limits t')

        fewer : (other : String) (c : OtpChallengeRecord) → later other c ≤ earlier other c
        fewer other c = ground (
          arith,
          iso_order c.created_at (t - limits.window_seconds * 1000)
              (t' - limits.window_seconds * 1000) (omega arith),
        )

    run-IsBounded :
        (t : ℕ) (s : OtpStore) (calls : List (ℕ × Call))
        → IsBounded t s
        → IsTimed t s calls
        → IsBounded (end t calls) (run s calls)
    unfolding run
    run-IsBounded t s [] h o = h
    run-IsBounded t s ((now, call) ∷ calls) h (l, f, o) =
        run-IsBounded now (step now call s) calls
          (step-IsBounded s now call f (later-IsBounded s t now l h)) o

    -- Whatever sequence of requests for codes and of guesses is made, on a clock that does not run
    -- backwards and with fresh identifiers, from a store within the bound: at the last call and at
    -- any later instant, the wrong guesses against a resident that the window counts, over all
    -- challenges together, are at most the limit of the window. Texts of instants are taken to sort
    -- in the order of time.
    pub run-guesses :
        (t : ℕ) (s : OtpStore) (calls : List (ℕ × Call)) (resident_id : String) (now : ℕ)
        → IsBounded t s
        → IsTimed t s calls
        → end t calls ≤ now
        → guesses platform limits (run s calls) resident_id now ≤ limits.max_attempts_per_window
    run-guesses t s calls resident_id now h o l =
        let b = later-IsBounded (run s calls) (end t calls) now l (run-IsBounded t s calls h o) in
        omega (
          arith,
          failures-recent_for (run s calls) resident_id (window_start platform limits now),
          b.bounded resident_id,
        )
