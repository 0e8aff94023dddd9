-- ===== src/Proofing/Residence/Judged.antt =====
-- When residence counts as proved, and the reason that is given when it does not.
use open_residency.Base.{
  ℕ, ◌+◌, ◌*◌, ◌≤◌, ◌≡◌, ◌↔◌, refl, ◌⊎◌, inl, inr, Bool, true, false, ◌&&◌, String, Option, none,
  some, List, [], ◌∷◌, arith, Bool-cases, Option-cases, truthy,
}
use open_residency.Proofing.Residence.Types.{
  rank, ResidenceEvidence, ResidenceAddress, ResidencePolicy, DeclaredResidence, ResidenceOutcome,
}
use open_residency.Proofing.Residence.Evaluate.{
  Platform, mode_of, mode_admitted, floor, from_evidence, better, strongest, judge, best_of,
  evaluate_residence, duration_reason, since_of, meets_target, is_true, then_option, ms_per_day,
  younger,
}

module _ (platform : Platform) (policy : ResidencePolicy) (claimed_unit now_iso : String)
    (claimed_address : Option ResidenceAddress) (declared : Option DeclaredResidence) where
  abbrev best : List ResidenceEvidence → ResidenceOutcome
  best = best_of platform policy claimed_unit now_iso claimed_address declared

  abbrev outcome : List ResidenceEvidence → ResidenceOutcome
  outcome = evaluate_residence platform policy claimed_unit now_iso claimed_address declared

  abbrev duration : ResidenceOutcome → Option String
  duration b =
      duration_reason platform policy claimed_unit now_iso claimed_address declared
        (since_of declared b)

  -- What a policy that requires residence asks for.
  pub record IsProved (evs : List ResidenceEvidence) : Type 0 where
    pub admitted : mode_admitted policy (mode_of declared) ≡ true
    pub target : rank policy.target_level ≤ rank (outcome evs).level
    pub long_enough : duration (best evs) ≡ none

  strongest_no_reason :
      (b : ResidenceOutcome) (evs : List ResidenceEvidence)
      → b.reason ≡ none
      → (strongest platform policy claimed_unit now_iso claimed_address declared b evs).reason
        ≡ none
  unfolding strongest better from_evidence
  strongest_no_reason b [] h = h
  strongest_no_reason b (ev ∷ evs) h =
      strongest_no_reason
        (better platform policy claimed_unit now_iso claimed_address declared b ev) evs
        (ground arith)

  best_no_reason : (evs : List ResidenceEvidence) → (best evs).reason ≡ none
  unfolding best_of
  best_no_reason evs = strongest_no_reason floor _ refl

  -- Residence counts as proved exactly when the policy does not require it, or the way of residing
  -- is admitted, the level reaches the target and the duration rule gives no reason against; a
  -- reason is recorded exactly when it does not count as proved.
  pub evaluate_residence-satisfied_iff :
      (evs : List ResidenceEvidence)
      → (((outcome evs).satisfied ≡ true) ↔ (policy.required ≡ true → IsProved evs))
        × (((outcome evs).reason ≡ none) ↔ ((outcome evs).satisfied ≡ true))
  unfolding evaluate_residence judge meets_target
  evaluate_residence-satisfied_iff evs = (
    (
      λ s r. record { admitted = ground arith; target = ground arith; long_enough = ground arith },
      λ p. elim (Bool-cases policy.required) [ inl r ↦ ground (arith, p r) | inr n ↦ ground arith ],
    ),
    (λ n. ground arith, λ s. ground (arith, best_no_reason evs)),
  )

  -- The start of residence is one that the duration rule accepts: at least `days` days before now, or
  -- one of the two dates cannot be read.
  abbrev pub Accepted : String → ℕ → Type 0
  Accepted s days =
      (platform.date_parse s ≡ none)
      ⊎ (platform.date_parse now_iso ≡ none)
      ⊎ ((since : ℕ) × (now : ℕ) × (platform.date_parse s ≡ some since)
          × (platform.date_parse now_iso ≡ some now)
          × (since + days * ms_per_day ≤ now))

  abbrev pub intends : Bool
  intends =
      is_true (then_option declared (λ d. d.intent_to_reside))
      && is_true policy.intent_to_reside_suffices

  not_younger :
      (s : String) (days : ℕ)
      → truthy s ≡ true
      → younger platform (some s) now_iso days ≡ false
      → Accepted s days
  unfolding younger
  not_younger s days t h = elim (Option-cases (platform.date_parse s)) [
    | inl e ↦ inl e
    | inr (since, e) ↦ elim (Option-cases (platform.date_parse now_iso)) [
      | inl n ↦ inr (inl n)
      | inr (now, n) ↦ inr (inr (since, now, e, n, ground arith))
    ]
  ]

  duration_needs :
      (s : String) (days : ℕ)
      → policy.minimum_duration_days ≡ some days
      → duration_reason platform policy claimed_unit now_iso claimed_address declared (some s)
        ≡ none
      → (intends ≡ true) ⊎ ((truthy s ≡ true) × (younger platform (some s) now_iso days ≡ false))
  unfolding duration_reason
  duration_needs s days m h = ground arith

  -- The duration rule of a policy with a minimum gives no reason exactly when a declared intention
  -- suffices, or a start of residence is given that is early enough, or that cannot be read, or
  -- while the present instant cannot be read.
  pub duration_reason-none_iff :
      (since : Option String) (days : ℕ)
      → policy.minimum_duration_days ≡ some days
      → (duration_reason platform policy claimed_unit now_iso claimed_address declared since ≡ none)
        ↔ ((intends ≡ true)
            ⊎ ((s : String) × (since ≡ some s) × (truthy s ≡ true) × Accepted s days))
  unfolding duration_reason younger
  duration_reason-none_iff none days m = (λ h. ground arith, λ h. ground arith)
  duration_reason-none_iff (some s) days m = (
    λ h. elim (duration_needs s days m h) [
      | inl i ↦ inl i
      | inr (t, y) ↦ inr (s, refl, t, not_younger s days t y)
    ],
    λ h. ground arith,
  )
