-- ===== src/Consent/LegalBasis/Tests.antt =====
-- A register with the default basis.
use open_residency.Base.{ℕ, ◌≡◌, refl, String, Option, some, none, [], ◌∷◌, trim}
use open_residency.Base.Dict
use open_residency.Consent.LegalBasis.{
  LegalBasis, Registry, consent, consent_legal_basis_id, resolve, deactivate, in_force, deactivated,
}
use open_residency.Consent.LegalBasis.Force.{
  registers, deactivates, run, IsDeactivated, run-deactivate,
}

abbrev basis : LegalBasis
basis = record {
  id = consent_legal_basis_id;
  kind = consent;
  name = "Consent of the data subject";
  instrument = "NDPA 2023 s.25(1)(a)";
  jurisdiction = "NG";
  controller = "Niger State";
  version = "1.0";
  effective_from = "1970-01-01";
  effective_to = none;
  deactivated_at = none;
  deactivation_reason = none;
  deactivated_by = none;
}

abbrev closed : LegalBasis
closed = record basis {
  deactivated_at = some "2026-02-01";
  deactivation_reason = some "repealed";
  deactivated_by = some "Registrar";
}

abbrev bases : Registry
bases = (consent_legal_basis_id, basis) ∷ []

abbrev bases_after : Registry
bases_after = (consent_legal_basis_id, closed) ∷ []

abbrev parse : String → Option ℕ
parse s = some 0

holds_before : resolve parse bases consent_legal_basis_id 5 ≡ some basis
unfolding resolve in_force Dict.get
holds_before = refl

run-deactivate_example :
    ((t : ℕ)
      → resolve parse
          (run parse bases_after (
            registers basis
            ∷ deactivates consent_legal_basis_id "again" "Registrar" none "2026-03-01"
            ∷ []))
          consent_legal_basis_id
          t
        ≡ none)
    × IsDeactivated parse
        (run parse bases_after (
          registers basis
          ∷ deactivates consent_legal_basis_id "again" "Registrar" none "2026-03-01"
          ∷ []))
        consent_legal_basis_id
        " repealed"
        "Registrar"
        closed
unfolding deactivate deactivated trim Dict.get Dict.put
run-deactivate_example =
    run-deactivate parse bases bases_after consent_legal_basis_id " repealed" "Registrar"
      "2026-02-01" none closed
      (registers basis
        ∷ deactivates consent_legal_basis_id "again" "Registrar" none "2026-03-01"
        ∷ [])
      refl refl
