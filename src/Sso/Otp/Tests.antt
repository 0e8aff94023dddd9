-- ===== src/Sso/Otp/Tests.antt =====
-- A resident asks for a code, guesses wrong once and then right.
use open_residency.Base.{
  ℕ, ◌≡◌, ◌≢◌, ◌≤◌, refl, String, some, List, [], ◌∷◌, true, if◌then◌else◌, str_eq, arith, eq_iff,
  ◌↔◌,
}
use open_residency.Base.Dict
use open_residency.Sso.Otp.{
  OtpChallengeRecord, OtpStore, Platform, ok, default_otp_limits, at_least, find_active, newest,
  is_open_for, recent_for, is_recent_for, failures, same_bytes, hashes_equal, window_start,
  new_challenge, save, check, verify,
}
use open_residency.Sso.Otp.Totals.{IsKeyed, total}
use open_residency.Sso.Otp.Window.{guesses}
use open_residency.Sso.Otp.Runs.{Call, issues, verifies, run, IsTimed, IsBounded, run-guesses}
use open_residency.Sso.Otp.Once.{IsAccepted, verify-once}

abbrev platform : Platform
platform = record {
  to_iso = λ t. "2026-01-01T00:00:00Z";
  time_of = λ s. 1000000;
  sha256 = λ code. code;
  from_hex = λ s. if str_eq s "123456" then 1 ∷ 2 ∷ [] else [];
  send = λ resident_id code. some "sms";
}

abbrev calls : List (ℕ × Call)
calls =
    (10, issues "NI-1" "o1" "123456")
    ∷ (20, verifies "NI-1" "000000")
    ∷ (30, verifies "NI-1" "123456")
    ∷ []

abbrev sent_one : OtpStore
sent_one =
    (
      "o1",
      record (new_challenge platform default_otp_limits "NI-1" "o1" "123456" 10) {
        channel = "sms";
      },
    )
    ∷ []

abbrev used_one : OtpStore
used_one =
    (
      "o1",
      record (new_challenge platform default_otp_limits "NI-1" "o1" "123456" 10) {
        channel = "sms";
        consumed = true;
      },
    )
    ∷ []

empty-IsKeyed : IsKeyed []
unfolding Dict.get
empty-IsKeyed = record { distinct = tt; own = λ k c e. cc }

sent-IsKeyed : IsKeyed sent_one
unfolding Dict.get new_challenge
sent-IsKeyed = record { distinct = (refl, tt); own = λ k c e. ground (arith, str_eq_lem k) }
  where
    str_eq_lem : (k : String) → (str_eq "o1" k ≡ true) ↔ ("o1" ≡ k)
    str_eq_lem k = eq_iff "o1" k

empty-IsBounded : IsBounded platform default_otp_limits 0 []
unfolding total
empty-IsBounded = record { keyed = empty-IsKeyed; bounded = λ other. omega arith }

is_timed : IsTimed platform default_otp_limits 0 [] calls
unfolding Dict.get
is_timed = (omega arith, refl, (omega arith, tt, (omega arith, tt, tt)))

run-guesses_example :
    guesses platform default_otp_limits (run platform default_otp_limits [] calls) "NI-1" 40
    ≤ default_otp_limits.max_attempts_per_window
run-guesses_example =
    run-guesses platform default_otp_limits (λ x t t' l e. e) 0 [] calls "NI-1" 40 empty-IsBounded
      is_timed (omega arith)

accepts : verify platform default_otp_limits "NI-1" "123456" 30 sent_one ≡ (ok "NI-1", used_one)
unfolding verify check find_active newest is_open_for recent_for is_recent_for failures same_bytes
    hashes_equal window_start new_challenge save at_least Dict.get Dict.put
accepts = refl

verify-once_example :
    (c : OtpChallengeRecord) × IsAccepted platform default_otp_limits sent_one used_one "NI-1"
      "123456" "NI-1" 30 c
    × ((t : ℕ) (later : List (ℕ × Call)) (other : String) (d : OtpChallengeRecord)
        → IsTimed platform default_otp_limits t used_one later
        → find_active (run platform default_otp_limits used_one later) other ≡ some d
        → d.id ≢ c.id)
verify-once_example =
    verify-once platform default_otp_limits sent_one used_one "NI-1" "123456" "NI-1" 30 sent-IsKeyed
      accepts
