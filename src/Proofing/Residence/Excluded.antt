-- ===== src/Proofing/Residence/Excluded.antt =====
-- Evidence that the loop of `evaluateResidence` in residence.ts passes over.
use open_residency.Base.{
  ◌≡◌, ap, refl, inl, inr, true, false, String, Option, none, some, List, [], ◌∷◌, ◌++◌, arith,
  Bool-cases, any, str_eq,
}
use open_residency.Proofing.Residence.Types.{
  ResidenceEvidence, ResidenceAddress, self_declared, authority_attestation, same_method,
  ResidencePolicy, DeclaredResidence, ResidenceOutcome,
}
use open_residency.Proofing.Residence.Evaluate.{
  Platform, mode_of, is_dwelling, is_address, mode_admitted, attester_accepted, addresses_match,
  norm, admissible, floor, better, strongest, judge, best_of, evaluate_residence,
}

module _ (platform : Platform) (policy : ResidencePolicy) (claimed_unit now_iso : String)
    (claimed_address : Option ResidenceAddress) (declared : Option DeclaredResidence) where
  -- The reasons for which a piece of evidence does not count: it is a self-declaration; its method is
  -- not one that the policy accepts; the policy asks for the claimed unit, and the evidence is of no
  -- unit or of another; the resident has a dwelling, the policy anchors at an address, and the
  -- addresses do not match; the resident has no dwelling, and it is not an attestation; or it is an
  -- attestation of someone whom the policy does not accept.
  pub data IsExcluded (ev : ResidenceEvidence) : Type 0 where
    declared_by_self : ev.method ≡ self_declared → IsExcluded ev
    not_accepted : any (same_method ev.method) policy.accepted_methods ≡ false → IsExcluded ev
    no_unit : policy.unit_match_required ≡ true → ev.admin_unit ≡ none → IsExcluded ev
    other_unit :
        (u : String)
        → policy.unit_match_required ≡ true
        → ev.admin_unit ≡ some u
        → str_eq (norm platform u) (norm platform claimed_unit) ≡ false
        → IsExcluded ev
    other_address :
        is_dwelling (mode_of declared) ≡ true
        → is_address policy.anchor ≡ true
        → addresses_match platform ev.address claimed_address ≡ false
        → IsExcluded ev
    not_attested :
        is_dwelling (mode_of declared) ≡ false
        → same_method ev.method authority_attestation ≡ false
        → IsExcluded ev
    other_attester :
        ev.method ≡ authority_attestation
        → attester_accepted policy (mode_of declared) ev.attester_type ≡ false
        → IsExcluded ev

  excluded_lem :
      (ev : ResidenceEvidence)
      → IsExcluded ev
      → admissible platform policy claimed_unit now_iso claimed_address declared ev ≡ false
  unfolding admissible
  excluded_lem ev (declared_by_self e) = rw e refl
  excluded_lem ev (not_accepted e) = ground (arith, e)
  excluded_lem ev (no_unit r e) = rw (r, e) (ground arith)
  excluded_lem ev (other_unit u r e n) = rw (r, e, n) (ground arith)
  excluded_lem ev (other_address d a n) = rw (d, a, n) (ground arith)
  excluded_lem ev (not_attested d n) = rw (d, n) (ground arith)
  excluded_lem ev (other_attester m n) = rw (m, n) (ground arith)

  abbrev loop : ResidenceOutcome → List ResidenceEvidence → ResidenceOutcome
  loop = strongest platform policy claimed_unit now_iso claimed_address declared

  skips :
      (b : ResidenceOutcome) (ev : ResidenceEvidence)
      → admissible platform policy claimed_unit now_iso claimed_address declared ev ≡ false
      → better platform policy claimed_unit now_iso claimed_address declared b ev ≡ b
  unfolding better
  skips b ev n = rw n refl

  loop-excluded :
      (b : ResidenceOutcome) (before after : List ResidenceEvidence) (ev : ResidenceEvidence)
      → admissible platform policy claimed_unit now_iso claimed_address declared ev ≡ false
      → loop b (before ++ ev ∷ after) ≡ loop b (before ++ after)
  unfolding strongest
  loop-excluded b [] after ev n = ap (λ (x : ResidenceOutcome). loop x after) (skips b ev n)
  loop-excluded b (x ∷ before) after ev n =
      loop-excluded (better platform policy claimed_unit now_iso claimed_address declared b x)
        before after ev n

  -- A piece of evidence that is a self-declaration, is of a method that is not accepted, is of no
  -- unit or not of the claimed one where the policy asks for it, has another address where an
  -- address anchors a dwelling, is no attestation where there is no dwelling, or is an attestation
  -- of someone whom the policy does not accept: wherever it stands among the evidence, leaving it
  -- out gives the same outcome.
  pub evaluate_residence-excluded :
      (before after : List ResidenceEvidence) (ev : ResidenceEvidence)
      → IsExcluded ev
      → evaluate_residence platform policy claimed_unit now_iso claimed_address declared
          (before ++ ev ∷ after)
        ≡ evaluate_residence platform policy claimed_unit now_iso claimed_address declared
            (before ++ after)
  unfolding evaluate_residence best_of
  evaluate_residence-excluded before after ev x =
      elim (Bool-cases (mode_admitted policy (mode_of declared))) [
        | inl h ↦ rw h (
            ap (judge platform policy claimed_unit now_iso claimed_address declared)
              (loop-excluded floor before after ev (excluded_lem ev x)))
        | inr h ↦ rw h refl
      ]
