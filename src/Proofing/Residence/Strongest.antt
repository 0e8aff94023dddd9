-- ===== src/Proofing/Residence/Strongest.antt =====
-- The loop over the evidence of `evaluateResidence` in residence.ts: where its outcome comes from.
use open_residency.Base.{
  ◌≤◌, ◌≡◌, ◌∙◌, refl, ◌⊎◌, inl, inr, Bool, true, false, String, Option, List, [], ◌∷◌, arith,
}
use open_residency.Proofing.Residence.Types.{
  ResidenceAssuranceLevel, ral0, rank, ResidenceEvidence, ResidenceAddress, self_declared,
  ResidencePolicy, DeclaredResidence, ResidenceOutcome,
}
use open_residency.Proofing.Residence.Evaluate.{
  Platform, mode_of, mode_admitted, admissible, grade, floor, from_evidence, better, strongest,
  judge, best_of, evaluate_residence,
}

-- The pieces of a list at which `p` holds.
pub data Among {ℓ} {A : Type ℓ} (p : A → Bool) (a : A) : List A → Type ℓ where
  here : {xs : List A} → p a ≡ true → Among p a (a ∷ xs)
  there : {x : A} {xs : List A} → Among p a xs → Among p a (x ∷ xs)

module _ (platform : Platform) (policy : ResidencePolicy) (claimed_unit now_iso : String)
    (claimed_address : Option ResidenceAddress) (declared : Option DeclaredResidence) where
  abbrev counts : ResidenceEvidence → Bool
  counts = admissible platform policy claimed_unit now_iso claimed_address declared

  abbrev graded : ResidenceEvidence → ResidenceAssuranceLevel
  graded = grade platform policy claimed_unit now_iso claimed_address declared

  abbrev loop : ResidenceOutcome → List ResidenceEvidence → ResidenceOutcome
  loop = strongest platform policy claimed_unit now_iso claimed_address declared

  abbrev round : ResidenceOutcome → ResidenceEvidence → ResidenceOutcome
  round = better platform policy claimed_unit now_iso claimed_address declared

  abbrev taken : ResidenceEvidence → ResidenceOutcome
  taken = from_evidence platform policy claimed_unit now_iso claimed_address declared

  round_grows :
      (b : ResidenceOutcome) (ev : ResidenceEvidence) → rank b.level ≤ rank (round b ev).level
  unfolding better from_evidence
  round_grows b ev = ground arith

  round_covers :
      (b : ResidenceOutcome) (ev : ResidenceEvidence)
      → counts ev ≡ true
      → rank (graded ev) ≤ rank (round b ev).level
  unfolding better from_evidence
  round_covers b ev h = ground arith

  round_choice :
      (b : ResidenceOutcome) (ev : ResidenceEvidence)
      → (round b ev ≡ b) ⊎ ((counts ev ≡ true) × (round b ev ≡ taken ev))
  unfolding better
  round_choice b ev = ground arith

  loop_grows :
      (b : ResidenceOutcome) (evs : List ResidenceEvidence) → rank b.level ≤ rank (loop b evs).level
  unfolding strongest
  loop_grows b [] = omega arith
  loop_grows b (ev ∷ evs) = omega (arith, round_grows b ev, loop_grows (round b ev) evs)

  loop_covers :
      {ev : ResidenceEvidence} (b : ResidenceOutcome) {evs : List ResidenceEvidence}
      → Among counts ev evs
      → rank (graded ev) ≤ rank (loop b evs).level
  unfolding strongest
  loop_covers b (here {xs} c) = omega (arith, round_covers b _ c, loop_grows (round b _) xs)
  loop_covers b (there {x} m) = loop_covers (round b x) m

  abbrev Chosen : ResidenceOutcome → List ResidenceEvidence → ResidenceOutcome → Type 0
  Chosen b evs r = (r ≡ b) ⊎ ((ev : ResidenceEvidence) × Among counts ev evs × (r ≡ taken ev))

  loop-Chosen : (b : ResidenceOutcome) (evs : List ResidenceEvidence) → Chosen b evs (loop b evs)
  unfolding strongest
  loop-Chosen b [] = inl refl
  loop-Chosen b (ev ∷ evs) = later (round_choice b ev) (loop-Chosen (round b ev) evs)
    where
      later :
          (round b ev ≡ b) ⊎ ((counts ev ≡ true) × (round b ev ≡ taken ev))
          → Chosen (round b ev) evs (loop (round b ev) evs)
          → Chosen b (ev ∷ evs) (loop (round b ev) evs)
      later c (inr (e, m, h)) = inr (e, there m, h)
      later (inl k) (inl h) = inl (h ∙ k)
      later (inr (c, k)) (inl h) = inr (ev, here c, h ∙ k)

  abbrev result : List ResidenceEvidence → ResidenceOutcome
  result = evaluate_residence platform policy claimed_unit now_iso claimed_address declared

  level-result :
      (evs : List ResidenceEvidence)
      → mode_admitted policy (mode_of declared) ≡ true
      → ((result evs).level ≡ (loop floor evs).level)
        × ((result evs).method ≡ (loop floor evs).method)
        × ((result evs).unit ≡ (loop floor evs).unit)
        × ((result evs).address ≡ (loop floor evs).address)
        × ((result evs).as_of ≡ (loop floor evs).as_of)
        × ((result evs).attester_type ≡ (loop floor evs).attester_type)
  unfolding evaluate_residence judge best_of
  level-result evs h = rw h (refl, refl, refl, refl, refl, refl)

  -- The outcome is that of one piece of the evidence: its level is the piece's grade, and method,
  -- unit, address, date and attester are the piece's own.
  pub record IsFrom (evs : List ResidenceEvidence) (r : ResidenceOutcome) (ev : ResidenceEvidence)
      : Type 0 where
    pub listed : Among counts ev evs
    pub level : r.level ≡ graded ev
    pub method : r.method ≡ ev.method
    pub unit : r.unit ≡ ev.admin_unit
    pub address : r.address ≡ ev.address
    pub as_of : r.as_of ≡ ev.as_of
    pub attester_type : r.attester_type ≡ ev.attester_type

  result_chosen :
      (evs : List ResidenceEvidence)
      → mode_admitted policy (mode_of declared) ≡ true
      → (((result evs).level ≡ ral0) × ((result evs).method ≡ self_declared))
        ⊎ ((ev : ResidenceEvidence) × IsFrom evs (result evs) ev)
  result_chosen evs h = elim (loop-Chosen floor evs) [
    | inl e ↦ inl (cc (e, (level-result evs h).0), cc (e, (level-result evs h).1))
    | inr (ev, m, e) ↦ inr (
      ev,
      unfold from_evidence in
          record {
            listed = m;
            level = cc (e, (level-result evs h).0);
            method = cc (e, (level-result evs h).1);
            unit = cc (e, (level-result evs h).2);
            address = cc (e, (level-result evs h).3);
            as_of = cc (e, (level-result evs h).4);
            attester_type = cc (e, (level-result evs h).5);
          },
    )
  ]

  not_admitted :
      (evs : List ResidenceEvidence)
      → mode_admitted policy (mode_of declared) ≡ false
      → (result evs).level ≡ ral0
  unfolding evaluate_residence judge best_of strongest
  not_admitted evs h = rw h refl

  -- Where the way of residing is admitted, the level reached is the strongest grade of any
  -- evidence that counts, and the outcome is that of one such piece or the self-declared floor;
  -- where it is not admitted, the level is the floor.
  pub evaluate_residence-strongest :
      (evs : List ResidenceEvidence)
      → (mode_admitted policy (mode_of declared) ≡ true
          → ((ev : ResidenceEvidence)
              → Among counts ev evs
              → rank (graded ev) ≤ rank (result evs).level)
            × ((((result evs).level ≡ ral0) × ((result evs).method ≡ self_declared))
                ⊎ ((ev : ResidenceEvidence) × IsFrom evs (result evs) ev)))
        × (mode_admitted policy (mode_of declared) ≡ false → (result evs).level ≡ ral0)
  evaluate_residence-strongest evs = (
    λ h. (λ ev m. rw (level-result evs h).0 (loop_covers floor m), result_chosen evs h),
    λ h. not_admitted evs h,
  )
