-- ===== src/Sso/Otp/Totals.antt =====
-- The wrong guesses that a window counts, as a sum over the store.
use open_residency.Base.{
  ℕ, ◌+◌, ◌≡◌, ◌⊎◌, refl, ap, ◌∙◌, Bool, true, String, Option, none, some, [], ◌∷◌, if◌then◌else◌,
  arith, eq_iff, filter, Bool-cases, inl, inr,
}
use open_residency.Base.Dict
use open_residency.Base.Dict.{Dict, Distinct, find-values-some, str_eq_refl}
use open_residency.Sso.Otp.{
  OtpChallengeRecord, OtpStore, newest, is_open_for, find_active, is_recent_for, recent_for,
  failures, at_least,
}

-- The sum of a weight over the entries.
unfoldable pub total {ℓ} : {V : Type ℓ} → (V → ℕ) → Dict V → ℕ
total w [] = 0
total w ((k, v) ∷ m) = w v + total w m

abbrev weight_at {ℓ} : {V : Type ℓ} → (V → ℕ) → Option V → ℕ
weight_at w none = 0
weight_at w (some v) = w v

pub total_missing {ℓ} :
    {V : Type ℓ} (w : V → ℕ) (m : Dict V) (k : String) (v : V)
    → Dict.get m k ≡ none
    → total w (Dict.put m k v) ≡ total w m + w v
unfolding total Dict.get Dict.put
total_missing w [] k v g = ground arith
total_missing w ((j, u) ∷ m) k v g = ground (arith, total_missing w m k v)

-- A write to a key that is there exchanges the old weight for the new one.
pub total-put {ℓ} :
    {V : Type ℓ} (w : V → ℕ) (m : Dict V) (k : String) (u v : V)
    → Distinct m
    → Dict.get m k ≡ some u
    → total w (Dict.put m k v) + w u ≡ total w m + w v
unfolding total Dict.get Dict.put
total-put w [] k u v d g = cc
total-put w ((j, x) ∷ m) k u v d g = ground (arith, total-put w m k u v d.1)

-- The guesses that one challenge adds to the sum of a window.
unfoldable pub counted : String → String → OtpChallengeRecord → ℕ
counted resident_id since c = if is_recent_for resident_id since c then c.failed_attempts else 0

pub failures-recent_for :
    (s : OtpStore) (resident_id since : String)
    → failures (recent_for s resident_id since) ≡ total (counted resident_id since) s
unfolding failures recent_for total counted
failures-recent_for [] resident_id since = refl
failures-recent_for ((k, c) ∷ s) resident_id since =
    elim (Bool-cases (is_recent_for resident_id since c)) [
      | inl t ↦ rw t (ap (λ n. c.failed_attempts + n) (failures-recent_for s resident_id since))
      | inr f ↦ rw f (omega (arith, failures-recent_for s resident_id since))
    ]

-- What stands under some key and passes the test.
abbrev Stored : OtpStore → (OtpChallengeRecord → Bool) → OtpChallengeRecord → Type 0
Stored s p c = (k : String) × (Dict.get s k ≡ some c) × (p c ≡ true)

newest_found :
    (p : OtpChallengeRecord → Bool) (s : OtpStore) (best : Option OtpChallengeRecord)
    (c : OtpChallengeRecord)
    → Distinct s
    → newest best (filter p (Dict.values s)) ≡ some c
    → (best ≡ some c) ⊎ Stored s p c
unfolding newest Dict.get
newest_found p [] best c d e = inl e
newest_found p ((j, x) ∷ s) best c d e = elim (Bool-cases (p x)) [
  | inr f ↦ later (newest_found p s best c d.1 (rw f at e))
  | inl t ↦ with_head (λ b f. newest_found p s b c d.1 f) t best (rw t at e)
]
  where
    later :
        {b : Option OtpChallengeRecord}
        → (b ≡ some c) ⊎ Stored s p c
        → (b ≡ some c) ⊎ Stored ((j, x) ∷ s) p c
    later (inl b) = inl b
    later (inr (k, g, h)) = inr (k, ground (arith, eq_iff j k, d), h)

    of_head : p x ≡ true → (some x ≡ some c) ⊎ Stored s p c → Stored ((j, x) ∷ s) p c
    of_head t (inl b) = (j, ground (arith, str_eq_refl j), ground arith)
    of_head t (inr (k, g, h)) = (k, ground (arith, eq_iff j k, d), h)

    with_head :
        ((b : Option OtpChallengeRecord)
          → newest b (filter p (Dict.values s)) ≡ some c
          → (b ≡ some c) ⊎ Stored s p c)
        → p x ≡ true
        → (best : Option OtpChallengeRecord) → newest best (x ∷ filter p (Dict.values s)) ≡ some c
        → (best ≡ some c) ⊎ Stored ((j, x) ∷ s) p c
    with_head rest t none e = inr (of_head t (rest (some x) e))
    with_head rest t (some b) e = elim (Bool-cases (at_least x.created_at b.created_at)) [
      | inl l ↦ inr (of_head t (rest (some x) (rw (l, newest) at e)))
      | inr n ↦ later (rest (some b) (rw (n, newest) at e))
    ]

-- A challenge that is found stands under its own identifier, and is open for the resident.
pub record IsFound (s : OtpStore) (resident_id : String) (c : OtpChallengeRecord) : Type 0 where
  pub stored : Dict.get s c.id ≡ some c
  pub is_open : is_open_for resident_id c ≡ true

-- Each challenge stands once, under its own identifier.
pub record IsKeyed (s : OtpStore) : Type 0 where
  pub distinct : Distinct s
  pub own : (k : String) (c : OtpChallengeRecord) → Dict.get s k ≡ some c → c.id ≡ k

pub find_active-IsFound :
    (s : OtpStore) (resident_id : String) (c : OtpChallengeRecord)
    → IsKeyed s
    → find_active s resident_id ≡ some c
    → IsFound s resident_id c
unfolding find_active
find_active-IsFound s resident_id c h e =
    of (newest_found (is_open_for resident_id) s none c h.distinct e)
  where
    of : (none ≡ some c) ⊎ Stored s (is_open_for resident_id) c → IsFound s resident_id c
    of (inl n) = cc
    of (inr (k, g, t)) = record { stored = ap (Dict.get s) (h.own k c g) ∙ g; is_open = t }
