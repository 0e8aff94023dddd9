-- ===== src/Sso/Otp.antt =====
-- src/core/sso/otp.ts: one-time codes, over the in-memory store. Instants are milliseconds from the
-- earliest date of the language; `Date.now()`, the random code and identifier are arguments, and the
-- hash, the hexadecimal bytes and the sender are parameters.
pub mod Totals
pub mod Window
pub mod Runs
pub mod Once
mod Tests
use Prim.Native.String.{compare}
use text.Mathlib.Text.{is_le}
use open_residency.Base.{
  ℕ, ◌+◌, ◌-◌, ◌*◌, Bool, true, false, ◌&&◌, not, String, Option, none, some, List, [], ◌∷◌,
  if◌then◌else◌, leb, ltb, ◌==◌, str_eq, filter, length,
}
use open_residency.Base.Dict
use open_residency.Base.Dict.{Dict}

pub record OtpChallengeRecord : Type 0 where
  pub id : String
  pub resident_id : String
  pub code_hash : String
  pub channel : String
  pub expires_at : String
  pub consumed : Bool
  pub failed_attempts : ℕ
  pub created_at : String

abbrev pub OtpStore : Type 0
OtpStore = Dict OtpChallengeRecord

-- `save` and `update` of the in-memory store are the same write.
unfoldable pub save : OtpStore → OtpChallengeRecord → OtpStore
save s c = Dict.put s c.id c

-- `a >= b` on texts
unfoldable pub at_least : String → String → Bool
at_least a b = is_le (compare b a)

-- The first challenge of those sorted newest first; of two with one creation time, the later entry.
unfoldable pub newest :
    Option OtpChallengeRecord → List OtpChallengeRecord → Option OtpChallengeRecord
newest best [] = best
newest none (c ∷ cs) = newest (some c) cs
newest (some best) (c ∷ cs) =
    newest (if at_least c.created_at best.created_at then some c else some best) cs

unfoldable pub is_open_for : String → OtpChallengeRecord → Bool
is_open_for resident_id c = str_eq c.resident_id resident_id && not c.consumed

unfoldable pub find_active : OtpStore → String → Option OtpChallengeRecord
find_active s resident_id = newest none (filter (is_open_for resident_id) (Dict.values s))

unfoldable pub is_recent_for : String → String → OtpChallengeRecord → Bool
is_recent_for resident_id since c = str_eq c.resident_id resident_id && at_least c.created_at since

unfoldable pub recent_for : OtpStore → String → String → List OtpChallengeRecord
recent_for s resident_id since = filter (is_recent_for resident_id since) (Dict.values s)

pub record OtpLimits : Type 0 where
  pub ttl_seconds : ℕ
  pub max_attempts_per_challenge : ℕ
  pub window_seconds : ℕ
  pub max_attempts_per_window : ℕ
  pub max_challenges_per_window : ℕ

abbrev pub default_otp_limits : OtpLimits
default_otp_limits = record {
  ttl_seconds = 5 * 60;
  max_attempts_per_challenge = 5;
  window_seconds = 60 * 60;
  max_attempts_per_window = 10;
  max_challenges_per_window = 5;
}

-- `recent.reduce((n, c) => n + c.failedAttempts, 0)`
unfoldable pub failures : List OtpChallengeRecord → ℕ
failures [] = 0
failures (c ∷ cs) = c.failed_attempts + failures cs

pub data OtpVerifyResult : Type 0 where
  ok : String → OtpVerifyResult
  no_challenge expired locked wrong_code : OtpVerifyResult

-- `throttled` is OtpThrottledError, `undelivered` an error of the sender.
pub data IssueResult : Type 0 where
  sent : String → IssueResult
  throttled undelivered : IssueResult

pub record Platform : Type 0 where
  pub to_iso : ℕ → String
  pub time_of : String → ℕ
  pub sha256 : String → String
  pub from_hex : String → List ℕ
  pub send : String → String → Option String

-- Two buffers of equal length and bytes.
unfoldable pub same_bytes : List ℕ → List ℕ → Bool
same_bytes [] [] = true
same_bytes (a ∷ xs) (b ∷ ys) = a == b && same_bytes xs ys
same_bytes _ _ = false

module _ (platform : Platform) (limits : OtpLimits) where
  open platform use {to_iso, time_of, sha256, from_hex, send}

  unfoldable pub hashes_equal : String → String → Bool
  hashes_equal a b = same_bytes (from_hex a) (from_hex b)

  unfoldable pub window_start : ℕ → String
  window_start now = to_iso (now - limits.window_seconds * 1000)

  unfoldable pub new_challenge : String → String → String → ℕ → OtpChallengeRecord
  new_challenge resident_id id code now = record {
    id = id;
    resident_id = resident_id;
    code_hash = sha256 code;
    channel = "pending";
    expires_at = to_iso (now + limits.ttl_seconds * 1000);
    consumed = false;
    failed_attempts = 0;
    created_at = to_iso now;
  }

  -- What follows the saving of a challenge: its delivery, and the channel that is then recorded.
  unfoldable pub deliver : OtpStore → OtpChallengeRecord → Option String → IssueResult × OtpStore
  deliver s challenge none = (undelivered, s)
  deliver s challenge (some channel) =
      (sent channel, save s (record challenge { channel = channel }))

  unfoldable pub issue : String → String → String → ℕ → OtpStore → IssueResult × OtpStore
  issue resident_id id code now s =
      if leb limits.max_challenges_per_window (length (recent_for s resident_id (window_start now)))
      then (throttled, s)
      else deliver (save s (new_challenge resident_id id code now))
          (new_challenge resident_id id code now) (send resident_id code)

  unfoldable pub check :
      String → String → ℕ → OtpStore → OtpChallengeRecord → OtpVerifyResult × OtpStore
  check resident_id code now s challenge =
      if challenge.consumed
      then (no_challenge, s)
      else if ltb (time_of challenge.expires_at) now
      then (expired, s)
      else if leb limits.max_attempts_per_challenge challenge.failed_attempts
      then (locked, s)
      else if leb limits.max_attempts_per_window
          (failures (recent_for s resident_id (window_start now)))
      then (locked, s)
      else if not (hashes_equal (sha256 code) challenge.code_hash)
      then (
        wrong_code,
        save s (record challenge { failed_attempts = challenge.failed_attempts + 1 }),
      )
      else (ok resident_id, save s (record challenge { consumed = true }))

  abbrev check_found :
      String → String → ℕ → OtpStore → Option OtpChallengeRecord → OtpVerifyResult × OtpStore
  check_found resident_id code now s none = (no_challenge, s)
  check_found resident_id code now s (some challenge) = check resident_id code now s challenge

  unfoldable pub verify : String → String → ℕ → OtpStore → OtpVerifyResult × OtpStore
  verify resident_id code now s = check_found resident_id code now s (find_active s resident_id)
