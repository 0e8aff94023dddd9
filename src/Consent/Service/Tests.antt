-- ===== src/Consent/Service/Tests.antt =====
-- A resident who grants a bank two consents, the second with wider scopes, and withdraws it.
use open_residency.Base.{◌≡◌, ◌↔◌, refl, String, some, none, List, [], ◌∷◌, trim}
use open_residency.Base.Dict
use open_residency.Consent.LegalBasis.{
  LegalBasis, consent, consent_legal_basis_id, resolve, get_basis, in_force,
}
use open_residency.Consent.Service.Types.{
  ConsentRecord, signed_form, find_active, is_active_for, stored_active, is_expired, save, update,
  same_scopes, sort, join,
}
use open_residency.Consent.Service.Grant.{
  GrantInput, ConsentPolicy, Platform, grant, grant_over, write_new, new_record, refusal, covers,
  controller_of, reference_of, categories_of, may_process, permission,
}
use open_residency.Consent.Service.Invariant.{Inv}
use open_residency.Consent.Service.Invariant.Grants.{GrantedOutcome, grant-Granted}
use open_residency.Consent.Service.Invariant.Runs.{
  Act, grants, reads, revokes, run, IsFresh, run-Inv, step,
}
use open_residency.Consent.Service.Processing.{IsLawful, IsPermitted, may_process-permitted_iff}

abbrev platform : Platform
platform = record { date_parse = λ s. some 0; to_iso = λ t. "2026-01-01"; sign = λ r. "receipt" }

abbrev basis : LegalBasis
basis = record {
  id = consent_legal_basis_id;
  kind = consent;
  name = "Consent of the data subject";
  instrument = "NDPA 2023 s.25(1)(a)";
  jurisdiction = "NG";
  controller = "Niger State";
  version = "1.0";
  effective_from = "1970-01-01";
  effective_to = none;
  deactivated_at = none;
  deactivation_reason = none;
  deactivated_by = none;
}

abbrev policy : ConsentPolicy
policy = record {
  controller = "Niger State";
  processor = none;
  legal_bases = (consent_legal_basis_id, basis) ∷ [];
  default_legal_basis_reference = none;
}

abbrev input : List String → GrantInput
input scopes = record {
  subject_ref = "tok:1";
  resident_id = "NI-1";
  relying_party = "bank";
  relying_party_name = none;
  purpose = "account opening";
  scopes = scopes;
  validity_days = none;
  grant_id = none;
  data_categories = "residency" ∷ [];
  evidence = record {
    method = signed_form;
    at = "2026-01-01";
    reference = "form 7";
    captured_by = none;
  };
  legal_basis_reference = none;
  controller = none;
  processor = none;
}

abbrev acts : List Act
acts =
    grants (input ("address" ∷ [])) "c1" "r1" 10
    ∷ grants (input ("address" ∷ "name" ∷ [])) "c2" "r2" 20
    ∷ reads "NI-1" "bank" 30
    ∷ revokes "c2" none "2026-02-01"
    ∷ []

empty-Inv : Inv []
unfolding Dict.get
empty-Inv = record { distinct = tt; own = λ k r e. cc; one = λ k j r q e f. cc }

is_fresh : IsFresh platform policy [] acts
unfolding step grant grant_over write_new new_record refusal covers controller_of reference_of
    categories_of Dict.get Dict.put find_active stored_active is_active_for is_expired save update
    same_scopes sort join trim resolve in_force get_basis
is_fresh = (refl, (refl, (tt, (tt, tt))))

run-Inv_example : Inv (run platform policy [] acts)
run-Inv_example = run-Inv platform policy [] acts empty-Inv is_fresh

abbrev first : List Act
first = grants (input ("address" ∷ "name" ∷ [])) "c1" "r1" 10 ∷ []

first-IsFresh : IsFresh platform policy [] first
unfolding Dict.get
first-IsFresh = (refl, tt)

after_first-Inv : Inv (run platform policy [] first)
after_first-Inv = run-Inv platform policy [] first empty-Inv first-IsFresh

second_unused : Dict.get (run platform policy [] first) "c2" ≡ none
unfolding run step grant grant_over write_new new_record refusal covers controller_of reference_of
    categories_of Dict.get Dict.put find_active stored_active is_active_for is_expired save update
    same_scopes sort join trim resolve in_force get_basis
second_unused = refl

grant-Granted_example :
    GrantedOutcome platform policy
      (input ("name" ∷ "address" ∷ []))
      "c2"
      "r2"
      20
      (grant platform policy
        (run platform policy [] first)
        (input ("name" ∷ "address" ∷ []))
        "c2"
        "r2"
        20).0
      (grant platform policy
        (run platform policy [] first)
        (input ("name" ∷ "address" ∷ []))
        "c2"
        "r2"
        20).1
grant-Granted_example =
    grant-Granted platform policy (input ("name" ∷ "address" ∷ [])) "c2" "r2" 20
      (run platform policy [] first) after_first-Inv second_unused

abbrev granted : ConsentRecord
granted = new_record platform policy (input ("address" ∷ [])) none "c1" "r1" 10

may_process-permitted_iff_example :
    IsPermitted platform policy granted 20
    ↔ ((b : LegalBasis) × IsLawful platform policy granted 20 b)
may_process-permitted_iff_example = may_process-permitted_iff platform policy granted 20

is_permitted : IsPermitted platform policy granted 20
unfolding may_process permission new_record resolve in_force Dict.get controller_of reference_of
    categories_of trim is_expired
is_permitted = refl
