-- ===== src/Residency/Store/Tests.antt =====
-- A store with one resident, whose foundational reference changes, and who is then erased.
use open_residency.Base.{
  ◌≡◌, refl, sym, String, some, none, [], ◌∷◌, str_eq, eq_iff, false, inl, inr, Bool-cases, ap,
}
use open_residency.Base.Dict
use open_residency.Residency.Store.{ResidentRecord, Store, no_binding, save, erased_record, erase}
use open_residency.Residency.Store.Records.{IsConsistent, save-IsConsistent}
use open_residency.Residency.Store.Erasure.{IsErased, erase-IsErased}
use open_residency.Proofing.Residence.Types.{ral1, document}

abbrev resident : ResidentRecord
resident = record {
  id = "u1";
  resident_id = "NI-1";
  subject_ref = "tok:1";
  country_code = "NG";
  subnational_unit = "NI";
  provider_code = "nimc";
  assurance_level = "high";
  binding = record { method = no_binding; ref = none; verified_at = none; score = none };
  residence = record {
    assurance_level = ral1;
    method = document;
    unit = some "NI";
    address =
        some (record { lines = "12 Ahmadu Bello Way" ∷ []; postal_code = none; admin_unit = none });
    as_of = none;
    since = none;
    mode = none;
    attester_type = none;
    intent_declared = none;
  };
  provisional = false;
  relationship = none;
  credential_status = none;
  erased_at = none;
  credential_id = none;
  status_list_index = 0;
  created_at = "2026-01-01";
  person = record {
    full_name = some "Amina Bello";
    given_name = none;
    family_name = none;
    date_of_birth = some "1990-01-01";
    gender = none;
  };
}

abbrev rekeyed_resident : ResidentRecord
rekeyed_resident = record resident { subject_ref = "tok:2" }

abbrev store : Store
store = record {
  residents = ("tok:1", resident) ∷ [];
  by_resident_id = ("NI-1", resident) ∷ [];
  counters = [];
  status_lists = [];
}

alone :
    (j k : String) (r : ResidentRecord)
    → Dict.get ((j, resident) ∷ []) k ≡ some r
    → (j ≡ k) × (resident ≡ r)
unfolding Dict.get
alone j k r e = elim (Bool-cases (str_eq j k)) [
  | inl t ↦ ((eq_iff j k).0 t, some_path (rw t at e))
  | inr f ↦ absurd (not_some (rw f at e))
]
  where
    some_path : some resident ≡ some r → resident ≡ r
    some_path p = cc

    not_some : none ≡ some r → ⊥
    not_some p = cc

store-IsConsistent : IsConsistent store
unfolding Dict.get
store-IsConsistent = record {
  by_id = λ k r e. let (a, b) = alone "NI-1" k r e in rw⁻¹ b (a, refl);
  by_ref = λ k r e. let (a, b) = alone "tok:1" k r e in rw⁻¹ b (a, refl);
}

save-IsConsistent_example : IsConsistent (save store rekeyed_resident)
save-IsConsistent_example =
    save-IsConsistent store rekeyed_resident store-IsConsistent
      (λ q e. ap (λ (x : ResidentRecord). x.resident_id) (sym (alone "tok:1" "tok:2" q e).1))

erase-IsErased_example :
    ((erase store "NI-1" "erased:1" "2026-05-01").0
      ≡ some (erased_record resident "erased:1" "2026-05-01"))
    × IsErased
        (erase store "NI-1" "erased:1" "2026-05-01").1
        "NI-1"
        "erased:1"
        "tok:1"
        (erased_record resident "erased:1" "2026-05-01")
unfolding Dict.get erased_record
erase-IsErased_example =
    erase-IsErased store "NI-1" "erased:1" "2026-05-01" resident store-IsConsistent refl
      (λ q e. ap (λ (x : ResidentRecord). x.resident_id) (sym (alone "tok:1" "erased:1" q e).1))
