-- ===== src/Sso/Otp/Window.antt =====
-- The bound on wrong guesses follows the resident over the window, whatever is asked for.
use open_residency.Base.{
  ℕ, ◌+◌, ◌≡◌, ◌≤◌, refl, ap, ◌∙◌, true, String, Option, none, some, arith, eq_iff, Bool-cases, inl,
  inr, leb, length,
}
use open_residency.Base.Dict
use open_residency.Base.Dict.{Dict, Distinct, Distinct-put, get-put, str_eq_refl}
use open_residency.Sso.Otp.{
  OtpChallengeRecord, OtpStore, OtpLimits, Platform, save, is_recent_for, recent_for, failures,
  window_start, new_challenge, deliver, issue, check,
}
use open_residency.Sso.Otp.Totals.{
  total, total-put, total_missing, counted, failures-recent_for, IsKeyed,
}

-- Writing a challenge under its own identifier keeps the store keyed.
pub save-IsKeyed : (s : OtpStore) (c : OtpChallengeRecord) → IsKeyed s → IsKeyed (save s c)
unfolding save
save-IsKeyed s c h = record {
  distinct = Distinct-put s c.id c h.distinct;
  own = λ k q g. keyed_own k q (h.own k q) g;
}
  where
    keyed_own :
        (k : String) (q : OtpChallengeRecord)
        → (Dict.get s k ≡ some q → q.id ≡ k)
        → Dict.get (Dict.put s c.id c) k ≡ some q
        → q.id ≡ k
    keyed_own k q own g = ground (arith, get-put s c.id k c, eq_iff c.id k)

-- A write that adds `n` wrong guesses to a challenge that is there.
pub total-save :
    (s : OtpStore) (resident_id since : String) (c u : OtpChallengeRecord)
    → IsKeyed s
    → Dict.get s c.id ≡ some c
    → u.id ≡ c.id
    → total (counted resident_id since) (save s u) + counted resident_id since c
      ≡ total (counted resident_id since) s + counted resident_id since u
unfolding save
total-save s resident_id since c u h g i =
    total-put (counted resident_id since) s u.id c u h.distinct (ap (Dict.get s) i ∙ g)

pub save_stored : (s : OtpStore) (c : OtpChallengeRecord) → Dict.get (save s c) c.id ≡ some c
unfolding save
save_stored s c = ground (arith, get-put s c.id c.id c, str_eq_refl c.id)

module _ (platform : Platform) (limits : OtpLimits) where
  -- The wrong guesses of a resident that the window of an instant counts.
  abbrev pub guesses : OtpStore → String → ℕ → ℕ
  guesses s resident_id now = failures (recent_for s resident_id (window_start platform limits now))

  pub check-keeps :
      (s : OtpStore) (resident_id other code : String) (now : ℕ) (c : OtpChallengeRecord)
      → IsKeyed s
      → Dict.get s c.id ≡ some c
      → c.resident_id ≡ resident_id
      → total (counted other (window_start platform limits now)) s ≤ limits.max_attempts_per_window
      → total
          (counted other (window_start platform limits now))
          (check platform limits resident_id code now s c).1
        ≤ limits.max_attempts_per_window
  unfolding check counted is_recent_for
  check-keeps s resident_id other code now c h g r b = ground (
    arith,
    eq_iff c.resident_id other,
    failures-recent_for s resident_id (window_start platform limits now),
    total-save s other (window_start platform limits now) c
        (record c { failed_attempts = c.failed_attempts + 1 }) h g refl,
    total-save s other (window_start platform limits now) c (record c { consumed = true }) h g refl,
  )

  -- A challenge that was just made counts no guesses, with its channel recorded or not.
  new_total :
      (s : OtpStore) (other resident_id id code : String) (now : ℕ)
      → Dict.get s id ≡ none
      → total
          (counted other (window_start platform limits now))
          (save s (new_challenge platform limits resident_id id code now))
        ≡ total (counted other (window_start platform limits now)) s
  unfolding save new_challenge counted
  new_total s other resident_id id code now f = ground (
    arith,
    total_missing (counted other (window_start platform limits now)) s id
        (new_challenge platform limits resident_id id code now) f,
  )

  delivered_total :
      (s : OtpStore) (other resident_id id code : String) (now : ℕ) (channel : Option String)
      → IsKeyed s
      → total
          (counted other (window_start platform limits now))
          (deliver platform limits
            (save s (new_challenge platform limits resident_id id code now))
            (new_challenge platform limits resident_id id code now)
            channel).1
        ≡ total
            (counted other (window_start platform limits now))
            (save s (new_challenge platform limits resident_id id code now))
  unfolding deliver new_challenge counted
  delivered_total s other resident_id id code now none h = refl
  delivered_total s other resident_id id code now (some channel) h =
      let c = new_challenge platform limits resident_id id code now in
      ground (
        arith,
        total-save (save s c) other (window_start platform limits now) c
            (record c { channel = channel }) (save-IsKeyed s c h) (save_stored s c) refl,
      )

  pub issue-keeps :
      (s : OtpStore) (resident_id other id code : String) (now : ℕ)
      → Dict.get s id ≡ none
      → IsKeyed s
      → total (counted other (window_start platform limits now)) s ≤ limits.max_attempts_per_window
      → total
          (counted other (window_start platform limits now))
          (issue platform limits resident_id id code now s).1
        ≤ limits.max_attempts_per_window
  unfolding issue
  issue-keeps s resident_id other id code now f h b =
      elim (Bool-cases (
        leb limits.max_challenges_per_window
          (length (recent_for s resident_id (window_start platform limits now))))) [
            | inl t ↦ rw t b
            | inr n ↦ rw n (
                rw
                  (
                    delivered_total s other resident_id id code now (platform.send resident_id code)
                        h,
                    new_total s other resident_id id code now f,
                  )
                  b)
          ]

  deliver-IsKeyed :
      (s : OtpStore) (c : OtpChallengeRecord) (channel : Option String)
      → IsKeyed s
      → IsKeyed (deliver platform limits s c channel).1
  unfolding deliver
  deliver-IsKeyed s c none h = h
  deliver-IsKeyed s c (some channel) h = save-IsKeyed s (record c { channel = channel }) h

  pub issue-IsKeyed :
      (s : OtpStore) (resident_id id code : String) (now : ℕ)
      → IsKeyed s
      → IsKeyed (issue platform limits resident_id id code now s).1
  unfolding issue
  issue-IsKeyed s resident_id id code now h =
      let c = new_challenge platform limits resident_id id code now in
      ground
        (arith, deliver-IsKeyed (save s c) c (platform.send resident_id code) (save-IsKeyed s c h))

  pub check-IsKeyed :
      (s : OtpStore) (resident_id code : String) (now : ℕ) (c : OtpChallengeRecord)
      → IsKeyed s
      → IsKeyed (check platform limits resident_id code now s c).1
  unfolding check
  check-IsKeyed s resident_id code now c h = ground (
    arith,
    save-IsKeyed s (record c { failed_attempts = c.failed_attempts + 1 }) h,
    save-IsKeyed s (record c { consumed = true }) h,
  )
