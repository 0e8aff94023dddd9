-- ===== src/Residency/DecisionMode/Tests.antt =====
-- A jurisdiction that asks for a face match and accepts a document for residence.
use open_residency.Base.{◌≡◌, ◌↔◌, refl, true, [], ◌∷◌}
use open_residency.Residency.Store.{BindingMethod, face_match, attended_comparison}
use open_residency.Proofing.Residence.Types.{
  ResidenceEvidenceMethod, document, authority_attestation,
}
use open_residency.Residency.DecisionMode.{
  DecisionPolicy, automated, decision_mode_for, permits_automated_decisions, binding_attended,
  residence_attended,
}
use open_residency.Residency.DecisionMode.Automated.{
  Among, CanBind, permits_automated_decisions_iff,
}

abbrev policy : DecisionPolicy
policy = record {
  binding_required = true;
  accepted_binding_methods = attended_comparison ∷ face_match ∷ [];
  accepted_residence_methods = document ∷ authority_attestation ∷ [];
}

permits : permits_automated_decisions policy ≡ true
unfolding permits_automated_decisions binding_attended residence_attended
permits = refl

permits_automated_decisions_iff_example : (permits_automated_decisions policy ≡ true) ↔ (
    (b : BindingMethod) × (r : ResidenceEvidenceMethod) × CanBind policy b
    × Among r policy.accepted_residence_methods
    × (decision_mode_for b r ≡ automated))
permits_automated_decisions_iff_example = permits_automated_decisions_iff policy
