-- ===== src/Residency/DecisionMode/Automated.antt =====
-- What a policy permits, against the decisions that it can lead to.
use open_residency.Base.{
  ◌≡◌, ◌⊎◌, ◌↔◌, refl, Bool, true, false, ◌||◌, not, List, [], ◌∷◌, any, inl, inr, arith,
  Bool-cases,
}
use open_residency.Residency.Store.{BindingMethod, no_binding}
use open_residency.Proofing.Residence.Types.{ResidenceEvidenceMethod}
use open_residency.Residency.DecisionMode.{
  DecisionPolicy, automated, binding_attended, residence_attended, decision_mode_for,
  permits_automated_decisions,
}

-- Membership in a list.
pub data Among {ℓ} {A : Type ℓ} (x : A) : List A → Type ℓ where
  here : (xs : List A) → Among x (x ∷ xs)
  there : (y : A) (xs : List A) → Among x xs → Among x (y ∷ xs)

any_some {ℓ} :
    {A : Type ℓ} (p : A → Bool) (xs : List A)
    → any p xs ≡ true
    → (x : A) × Among x xs × (p x ≡ true)
any_some p [] h = cc
any_some p (x ∷ xs) h = elim (Bool-cases (p x)) [
  | inl t ↦ (x, here xs, t)
  | inr f ↦ let (y, m, t) = any_some p xs (rw f at h) in (y, there x xs m, t)
]

any_of {ℓ} :
    {A : Type ℓ} (p : A → Bool) (xs : List A) (x : A) → Among x xs → p x ≡ true → any p xs ≡ true
any_of p [] x m h = elim m [ ]
any_of p (x ∷ xs) _ (here _) h = ground arith
any_of p (y ∷ xs) x (there _ _ m) h = ground (arith, any_of p xs x m h)

-- A binding that an applicant can have under a policy: an accepted one, or any where none is needed.
abbrev pub CanBind : DecisionPolicy → BindingMethod → Type 0
CanBind policy b = (policy.binding_required ≡ false) ⊎ Among b policy.accepted_binding_methods

automated_by :
    (b : BindingMethod) (r : ResidenceEvidenceMethod)
    → not (binding_attended b) ≡ true
    → not (residence_attended r) ≡ true
    → decision_mode_for b r ≡ automated
unfolding decision_mode_for
automated_by b r p q = ground arith

binding_choice :
    (policy : DecisionPolicy)
    → (not policy.binding_required
        || any (λ m. not (binding_attended m)) policy.accepted_binding_methods)
      ≡ true
    → (b : BindingMethod) × CanBind policy b × (not (binding_attended b) ≡ true)
unfolding binding_attended
binding_choice policy h = elim (Bool-cases policy.binding_required) [
  | inr n ↦ (no_binding, inl n, refl)
  | inl t ↦
      let (b, m, p) =
        any_some (λ m. not (binding_attended m)) policy.accepted_binding_methods (rw t at h) in
      (b, inr m, p)
]

choice_binding :
    (policy : DecisionPolicy) (b : BindingMethod)
    → CanBind policy b
    → not (binding_attended b) ≡ true
    → (not policy.binding_required
        || any (λ m. not (binding_attended m)) policy.accepted_binding_methods)
      ≡ true
choice_binding policy b (inl n) p = ground arith
choice_binding policy b (inr m) p =
    ground (arith, any_of (λ m. not (binding_attended m)) policy.accepted_binding_methods b m p)

by_software :
    (b : BindingMethod) (r : ResidenceEvidenceMethod)
    → decision_mode_for b r ≡ automated
    → (not (binding_attended b) ≡ true) × (not (residence_attended r) ≡ true)
unfolding decision_mode_for
by_software b r h = ground arith

permitted_parts :
    (policy : DecisionPolicy)
    → permits_automated_decisions policy ≡ true
    → ((not policy.binding_required
          || any (λ m. not (binding_attended m)) policy.accepted_binding_methods)
        ≡ true)
      × (any (λ m. not (residence_attended m)) policy.accepted_residence_methods ≡ true)
unfolding permits_automated_decisions
permitted_parts policy h = ground arith

-- A policy permits automated decisions exactly when some binding that an applicant can have under it
-- and some accepted evidence of residence together make a decision that no person took.
pub permits_automated_decisions_iff :
    (policy : DecisionPolicy)
    → (permits_automated_decisions policy ≡ true) ↔ (
        (b : BindingMethod) × (r : ResidenceEvidenceMethod) × CanBind policy b
        × Among r policy.accepted_residence_methods
        × (decision_mode_for b r ≡ automated))
unfolding permits_automated_decisions
permits_automated_decisions_iff policy = (
  λ h.
      let (p, q) = permitted_parts policy h in
      let (b, m, x) = binding_choice policy p in
      let (r, n, y) =
        any_some (λ m. not (residence_attended m)) policy.accepted_residence_methods q in
      (b, r, m, n, automated_by b r x y),
  λ (b, r, m, n, d).
      let (x, y) = by_software b r d in
      ground (
        arith,
        choice_binding policy b m x,
        any_of (λ m. not (residence_attended m)) policy.accepted_residence_methods r n y,
      ),
)
