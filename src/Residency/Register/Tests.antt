-- ===== src/Residency/Register/Tests.antt =====
-- Runs of the register on a store with one resident.
use open_residency.Base.{
  ap, ◌↔◌, truthy, ◌≡◌, refl, sym, ◌∙◌, String, some, none, List, [], ◌∷◌, false, trim, eq_iff,
  arith,
}
use open_residency.Base.Dict
use open_residency.Credentials.Status.{
  CredentialStatusRecord, CredentialTransitionRequest, StatusPurpose, active, suspended, revocation,
  suspension, new_credential_status, apply_credential_transition, can_transition_credential,
  is_terminal_credential_status, recorded, publish,
}
use open_residency.Credentials.Status.Published.{bits_of}
use open_residency.Residency.Register.Published.{bit_for}
use open_residency.Credentials.StatusList.{
  new, set_bit, is_revoked, byte_with, byte_has, default_size_bits,
}
use open_residency.Credentials.StatusList.Laws.{new-IsValid}
use open_residency.Proofing.Residence.Types.{ral1, document}
use open_residency.Residency.Store.{
  ResidentRecord, Store, rekeyed, no_binding, no_person, find_by_resident_id, save,
  load_status_list, save_status_list,
}
use open_residency.Residency.Store.Lists.{list_at, bit, ListsValid}
use open_residency.Residency.Register.{
  thrown, transition_credential, apply_to_record, publish_all, publish_change, settle_credential,
}
use open_residency.Residency.Register.InStep.{stated, InStep}
use open_residency.Residency.Register.History.{
  Call, credential, run, run-shows_status, transition_credential-InStep,
}

abbrev resident : ResidentRecord
resident = record {
  id = "u1";
  resident_id = "NI-1";
  subject_ref = "tok:1";
  country_code = "NG";
  subnational_unit = "NI";
  provider_code = "nimc";
  assurance_level = "high";
  binding = record { method = no_binding; ref = none; verified_at = none; score = none };
  residence = record {
    assurance_level = ral1;
    method = document;
    unit = none;
    address = none;
    as_of = none;
    since = none;
    mode = none;
    attester_type = none;
    intent_declared = none;
  };
  provisional = false;
  relationship = none;
  credential_status = some (new_credential_status "2026-01-01");
  erased_at = none;
  credential_id = some "urn:1";
  status_list_index = 3;
  created_at = "2026-01-01";
  person = no_person;
}

-- The lists have not been asked for yet.
abbrev store : Store
store = record {
  residents = ("tok:1", resident) ∷ [];
  by_resident_id = ("NI-1", resident) ∷ [];
  counters = [];
  status_lists = [];
}

abbrev suspend : CredentialTransitionRequest
suspend = record {
  to = suspended;
  reason = none;
  authority = some "op:1";
  appeal_path = none;
  superseded_by = none;
  at = none;
}

store_found :
    (k : String) (r : ResidentRecord)
    → Dict.get store.by_resident_id k ≡ some r
    → (k ≡ "NI-1") × (r ≡ resident)
unfolding Dict.get
store_found k r e = ground (arith, eq_iff "NI-1" k)

store-ListsValid : ListsValid store
unfolding list_at Dict.get
store-ListsValid = record { at = λ c p. new-IsValid default_size_bits }

all_clear : (p : StatusPurpose) → bit store "NG" p 3 ≡ some false
unfolding bit list_at Dict.get is_revoked byte_has new
all_clear p = refl

shown_clear :
    (r : ResidentRecord)
    → r ≡ resident
    → (c : CredentialStatusRecord) × (stated store "NG" r ≡ some c)
      × ((p : StatusPurpose)
          → bit store "NG" p r.status_list_index ≡ some (bit_for p (bits_of c.status)))
unfolding stated new_credential_status bits_of
shown_clear r e = rw e (new_credential_status "2026-01-01", refl, by_purpose)
  where
    by_purpose : (p : StatusPurpose) → bit store "NG" p 3 ≡ some (bit_for p (bits_of active))
    by_purpose revocation = all_clear revocation
    by_purpose suspension = all_clear suspension

store-InStep : InStep "NG" store
store-InStep = record {
  valid = store-ListsValid;
  own = λ k r e.
      let (a, b) = store_found k r e in ap (λ (x : ResidentRecord). x.resident_id) b ∙ sym a;
  once = λ k j r q e f _. (store_found k r e).0 ∙ sym (store_found j q f).0;
  shown = λ k r e. shown_clear r (store_found k r e).1;
}

transition_credential-InStep_example :
    InStep "NG" (transition_credential "t" "NG" "NI-1" suspend store).1
    × (((transition_credential "t" "NG" "NI-1" suspend store).0 ≡ thrown) ↔ (truthy "NI-1" ≡ false))
transition_credential-InStep_example =
    transition_credential-InStep "t" "NG" "NI-1" suspend store store-InStep

abbrev calls : List (String × Call)
calls = ("t", credential "NI-1" suspend) ∷ ("t", credential "NI-2" suspend) ∷ []

abbrev suspended_record : CredentialStatusRecord
suspended_record = record {
  status = suspended;
  reason = none;
  authority = some "op:1";
  at = some "t";
  appeal_path = none;
  superseded_by = none;
}

found_suspended :
    find_by_resident_id (run "NG" store calls) "NI-1"
    ≡ some (record resident { credential_status = some suspended_record })
unfolding run transition_credential apply_to_record settle_credential publish_all publish_change
    find_by_resident_id save load_status_list save_status_list Dict.get Dict.put
    apply_credential_transition can_transition_credential is_terminal_credential_status recorded
    publish new_credential_status set_bit is_revoked byte_with byte_has new trim rekeyed
found_suspended = refl

run-shows_status_example :
    (c : CredentialStatusRecord) × (stated
        (run "NG" store calls)
        "NG"
        (record resident { credential_status = some suspended_record })
      ≡ some c)
    × (bit (run "NG" store calls) "NG" revocation 3 ≡ some (bits_of c.status).revocation_bit)
    × (bit (run "NG" store calls) "NG" suspension 3 ≡ some (bits_of c.status).suspension_bit)
run-shows_status_example =
    run-shows_status "NG" store calls "NI-1"
      (record resident { credential_status = some suspended_record }) store-InStep found_suspended
