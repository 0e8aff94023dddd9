-- ===== src/Residency/DecisionMode.antt =====
-- src/core/residency/decision-mode.ts, with bindingSatisfies and strongestBinding of
-- src/core/proofing/binding.ts: was a decision taken by a person or by the software alone?
pub mod Automated
mod Tests
use open_residency.Base.{
  ℕ, Bool, true, false, ◌&&◌, ◌||◌, not, String, Option, none, some, List, [], ◌∷◌, any,
  if◌then◌else◌, ltb, ◌==◌, ◌&◌,
}
use open_residency.Residency.Store.{
  BindingMethod, ApplicantBinding, authoritative_authentication, face_match, fingerprint_match,
  attended_comparison, no_binding,
}
use open_residency.Proofing.Residence.Types.{
  ResidenceEvidenceMethod, same_method, authority_attestation,
}

pub data DecisionMode : Type 0 where
  attended automated : DecisionMode

abbrev pub binding_index : BindingMethod → ℕ
binding_index no_binding = 0
binding_index attended_comparison = 1
binding_index face_match = 2
binding_index fingerprint_match = 3
binding_index authoritative_authentication = 4

abbrev pub same_binding : BindingMethod → BindingMethod → Bool
same_binding a b = binding_index a == binding_index b

abbrev pub attended_binding : List BindingMethod
attended_binding = attended_comparison ∷ []

abbrev pub attended_residence : List ResidenceEvidenceMethod
attended_residence = authority_attestation ∷ []

unfoldable pub binding_attended : BindingMethod → Bool
binding_attended m = any (same_binding m) attended_binding

unfoldable pub residence_attended : ResidenceEvidenceMethod → Bool
residence_attended m = any (same_method m) attended_residence

unfoldable pub decision_mode_for : BindingMethod → ResidenceEvidenceMethod → DecisionMode
decision_mode_for binding residence =
    if binding_attended binding || residence_attended residence then attended else automated

pub record DecisionPolicy : Type 0 where
  pub binding_required : Bool
  pub accepted_binding_methods : List BindingMethod
  pub accepted_residence_methods : List ResidenceEvidenceMethod

unfoldable pub permits_automated_decisions : DecisionPolicy → Bool
permits_automated_decisions policy =
    (not policy.binding_required
      || any (λ m. not (binding_attended m)) policy.accepted_binding_methods)
    && any (λ m. not (residence_attended m)) policy.accepted_residence_methods

abbrev pub automated_decider : String → String
automated_decider policy_version = "automated:" & policy_version

abbrev pub binding_rank : BindingMethod → ℕ
binding_rank no_binding = 0
binding_rank attended_comparison = 1
binding_rank face_match = 2
binding_rank fingerprint_match = 2
binding_rank authoritative_authentication = 3

abbrev pub unbound : ApplicantBinding
unbound = record { method = no_binding; ref = none; verified_at = none; score = none }

abbrev or_unbound : Option ApplicantBinding → ApplicantBinding
or_unbound none = unbound
or_unbound (some b) = b

unfoldable pub strongest_binding :
    Option ApplicantBinding → Option ApplicantBinding → ApplicantBinding
strongest_binding a b =
    let x = or_unbound a in
    let y = or_unbound b in if ltb (binding_rank x.method) (binding_rank y.method) then y else x

unfoldable pub binding_satisfies : ApplicantBinding → List BindingMethod → Bool
binding_satisfies binding accepted =
    not (same_binding binding.method no_binding) && any (same_binding binding.method) accepted
