-- ===== src/Sso/Otp/Once.antt =====
-- A code is accepted at most once: its challenge is consumed, and stays so.
use open_residency.Base.{
  ℕ, ◌+◌, ◌≡◌, ◌≢◌, ◌≤◌, ◌<◌, refl, sym, ap, ◌∙◌, true, false, String, Option, none, some, List, [],
  ◌∷◌, arith, eq_iff, subst,
}
use open_residency.Base.Dict
use open_residency.Base.Dict.{get-put, str_eq_refl}
use open_residency.Sso.Otp.{
  OtpChallengeRecord, OtpStore, OtpLimits, ok, Platform, save, is_open_for, find_active, issue,
  deliver, new_challenge, check, check_found, verify, hashes_equal,
}
use open_residency.Sso.Otp.Totals.{IsKeyed, find_active-IsFound}
use open_residency.Sso.Otp.Window.{save-IsKeyed, save_stored, issue-IsKeyed, check-IsKeyed}
use open_residency.Sso.Otp.Runs.{Call, issues, verifies, step, run, IsTimed, IsFreshCall}

get-save :
    (s : OtpStore) (u : OtpChallengeRecord) (k : String) (c : OtpChallengeRecord)
    → Dict.get s k ≡ some c
    → u.id ≢ k
    → Dict.get (save s u) k ≡ some c
unfolding save
get-save s u k c g n = ground (arith, get-put s u.id k u, eq_iff u.id k)

is_not_consumed :
    (c : OtpChallengeRecord) (resident_id : String)
    → is_open_for resident_id c ≡ true
    → c.consumed ≡ false
unfolding is_open_for
is_not_consumed c resident_id t = ground arith

some_injective : {a b : OtpChallengeRecord} → some a ≡ some b → a ≡ b
some_injective e = cc

true_not_false : (true ≡ false) → ⊥
true_not_false e = cc

-- An open challenge stands elsewhere than a consumed one.
open_elsewhere :
    (s : OtpStore) (k : String) (c d : OtpChallengeRecord)
    → Dict.get s k ≡ some c
    → c.consumed ≡ true
    → Dict.get s d.id ≡ some d
    → d.consumed ≡ false
    → d.id ≢ k
open_elsewhere s k c d g t f n e = true_not_false (
    sym t
    ∙ ap (λ (x : OtpChallengeRecord). x.consumed)
        (some_injective (sym g ∙ ap (Dict.get s) (sym e) ∙ f))
    ∙ n)

module _ (platform : Platform) (limits : OtpLimits) where
  kept_by_deliver :
      (s : OtpStore) (u : OtpChallengeRecord) (channel : Option String) (k : String)
      (c : OtpChallengeRecord)
      → Dict.get s k ≡ some c
      → u.id ≢ k
      → Dict.get (deliver platform limits s u channel).1 k ≡ some c
  unfolding deliver
  kept_by_deliver s u none k c g n = g
  kept_by_deliver s u (some channel) k c g n = get-save s (record u { channel = channel }) k c g n

  kept_by_check :
      (s : OtpStore) (resident_id code : String) (now : ℕ) (d : OtpChallengeRecord) (k : String)
      (c : OtpChallengeRecord)
      → Dict.get s k ≡ some c
      → d.id ≢ k
      → Dict.get (check platform limits resident_id code now s d).1 k ≡ some c
  unfolding check
  kept_by_check s resident_id code now d k c g n = ground (
    arith,
    get-save s (record d { failed_attempts = d.failed_attempts + 1 }) k c g n,
    get-save s (record d { consumed = true }) k c g n,
  )

  kept_by_issue :
      (s : OtpStore) (resident_id id code : String) (now : ℕ) (k : String) (c : OtpChallengeRecord)
      → Dict.get s id ≡ none
      → Dict.get s k ≡ some c
      → Dict.get (issue platform limits resident_id id code now s).1 k ≡ some c
  unfolding issue new_challenge
  kept_by_issue s resident_id id code now k c f g =
      let u = new_challenge platform limits resident_id id code now in
      let n : u.id ≢ k = elsewhere f g in
      ground (
        arith,
        kept_by_deliver (save s u) u (platform.send resident_id code) k c (get-save s u k c g n) n,
      )
    where
      elsewhere : Dict.get s id ≡ none → Dict.get s k ≡ some c → id ≢ k
      elsewhere f g e = cc

  kept_by_found :
      (s : OtpStore) (resident_id code : String) (now : ℕ) (k : String) (c : OtpChallengeRecord)
      (o : Option OtpChallengeRecord)
      → find_active s resident_id ≡ o
      → IsKeyed s
      → Dict.get s k ≡ some c
      → c.consumed ≡ true
      → Dict.get (check_found platform limits resident_id code now s o).1 k ≡ some c
  kept_by_found s resident_id code now k c none e h g t = g
  kept_by_found s resident_id code now k c (some d) e h g t =
      let f = find_active-IsFound s resident_id d h e in
      kept_by_check s resident_id code now d k c g
        (open_elsewhere s k c d g t f.stored (is_not_consumed d resident_id f.is_open))

  kept_by_step :
      (s : OtpStore) (now : ℕ) (call : Call) (k : String) (c : OtpChallengeRecord)
      → IsFreshCall platform limits s call
      → IsKeyed s
      → Dict.get s k ≡ some c
      → c.consumed ≡ true
      → Dict.get (step platform limits now call s) k ≡ some c
  unfolding step
  kept_by_step s now (issues resident_id id code) k c f h g t =
      kept_by_issue s resident_id id code now k c f g
  kept_by_step s now (verifies resident_id code) k c f h g t =
      unfold verify in
      kept_by_found s resident_id code now k c (find_active s resident_id) refl h g t

  found-IsKeyed :
      (s : OtpStore) (resident_id code : String) (now : ℕ) (o : Option OtpChallengeRecord)
      → IsKeyed s
      → IsKeyed (check_found platform limits resident_id code now s o).1
  found-IsKeyed s resident_id code now none h = h
  found-IsKeyed s resident_id code now (some d) h =
      check-IsKeyed platform limits s resident_id code now d h

  step-IsKeyed :
      (s : OtpStore) (now : ℕ) (call : Call) → IsKeyed s → IsKeyed (step platform limits now call s)
  unfolding step
  step-IsKeyed s now (issues resident_id id code) h =
      issue-IsKeyed platform limits s resident_id id code now h
  step-IsKeyed s now (verifies resident_id code) h =
      unfold verify in found-IsKeyed s resident_id code now (find_active s resident_id) h

  never_found :
      (t : ℕ) (s : OtpStore) (calls : List (ℕ × Call)) (c d : OtpChallengeRecord) (other : String)
      → IsKeyed s
      → Dict.get s c.id ≡ some c
      → c.consumed ≡ true
      → IsTimed platform limits t s calls
      → find_active (run platform limits s calls) other ≡ some d
      → d.id ≢ c.id
  unfolding run
  never_found t s [] c d other h g u o e =
      let f = find_active-IsFound s other d h e in
      open_elsewhere s c.id c d g u f.stored (is_not_consumed d other f.is_open)
  never_found t s ((now, call) ∷ calls) c d other h g u (_, f, o) e =
      never_found now (step platform limits now call s) calls c d other (step-IsKeyed s now call h)
        (kept_by_step s now call c.id c f h g u) u o e

  -- The challenge that a guess was accepted for.
  pub record IsAccepted (s s' : OtpStore) (resident_id code r : String) (now : ℕ)
      (c : OtpChallengeRecord) : Type 0 where
    pub found : find_active s resident_id ≡ some c
    pub answered : r ≡ resident_id
    pub in_time : now ≤ platform.time_of c.expires_at
    pub unlocked : c.failed_attempts < limits.max_attempts_per_challenge
    pub right : hashes_equal platform limits (platform.sha256 code) c.code_hash ≡ true
    pub consumes : s' ≡ save s (record c { consumed = true })

  accepted :
      (s s' : OtpStore) (resident_id code r : String) (now : ℕ) (o : Option OtpChallengeRecord)
      → find_active s resident_id ≡ o
      → check_found platform limits resident_id code now s o ≡ (ok r, s')
      → (c : OtpChallengeRecord) × IsAccepted s s' resident_id code r now c
  unfolding check
  accepted s s' resident_id code r now none e v = cc
  accepted s s' resident_id code r now (some c) e v = (
    c,
    record {
      found = e;
      answered = ground arith;
      in_time = ground arith;
      unlocked = ground arith;
      right = ground arith;
      consumes = ground arith;
    },
  )

  -- A guess that is accepted was the right code for the challenge found for the resident, in time
  -- and within the limit of that challenge; and whatever calls follow, with fresh identifiers, that
  -- challenge is never found again, for any resident.
  pub verify-once :
      (s s' : OtpStore) (resident_id code r : String) (now : ℕ)
      → IsKeyed s
      → verify platform limits resident_id code now s ≡ (ok r, s')
      → (c : OtpChallengeRecord) × IsAccepted s s' resident_id code r now c
        × ((t : ℕ) (calls : List (ℕ × Call)) (other : String) (d : OtpChallengeRecord)
            → IsTimed platform limits t s' calls
            → find_active (run platform limits s' calls) other ≡ some d
            → d.id ≢ c.id)
  unfolding verify
  verify-once s s' resident_id code r now h v =
      let (c, a) = accepted s s' resident_id code r now (find_active s resident_id) refl v in
      let u : OtpChallengeRecord = record c { consumed = true } in
      (
        c,
        a,
        λ t calls other d.
            never_found t s' calls u d other (subst IsKeyed (sym a.consumes) (save-IsKeyed s u h))
              (subst (λ (x : OtpStore). Dict.get x c.id ≡ some u) (sym a.consumes)
                (save_stored s u))
              refl,
      )
