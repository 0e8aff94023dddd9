-- ===== src/Residency/Register.antt =====
-- src/core/residency/residency-service.ts: the operations on a registered residency. Each takes the
-- store and returns it; an exception is `thrown`, and what was written before it stays written.
pub mod Published
pub mod InStep
pub mod History
mod Tests
use open_residency.Base.{
  ℕ, Bool, true, false, ◌&&◌, not, String, Option, none, some, List, [], ◌∷◌, if◌then◌else◌, truthy,
}
use open_residency.Residency.Lifecycle.{
  RelationshipStatus, RelationshipAttributes, TransitionRequest, TransitionOutcome,
  apply_transition, relationship_of,
}
use open_residency.Residency.Lifecycle
use open_residency.Credentials.Status
use open_residency.Credentials.Status.{
  CredentialStatus, CredentialStatusRecord, CredentialTransitionRequest,
  CredentialTransitionOutcome, Change, StatusPurpose, revocation, suspension,
  apply_credential_transition, backfilled_credential_status, new_credential_status, revoked,
}
use open_residency.Credentials.StatusList.{StatusList, set_bit, is_revoked}
use open_residency.Residency.Store.{
  ResidentRecord, Store, find_by_resident_id, save, load_status_list, save_status_list,
}

pub data Result {ℓ} (A : Type ℓ) : Type ℓ where
  ok : A → Result A
  refused : String → Result A
  thrown : Result A

pub record RelationshipMove : Type 0 where
  pub record_after : ResidentRecord
  pub from : RelationshipStatus
  pub to : RelationshipStatus

-- The end of `transitionRelationship`, on the outcome.
unfoldable pub settle_relationship :
    Store
    → ResidentRecord
    → RelationshipStatus
    → TransitionOutcome
    → Result RelationshipMove × Store
settle_relationship s r from (Lifecycle.refused reason) = (refused reason, s)
settle_relationship s r from (Lifecycle.ok attributes) =
    let updated = record r { relationship = some attributes } in
    (ok (record { record_after = updated; from = from; to = attributes.status }), save s updated)

unfoldable pub transition_relationship :
    String → String → TransitionRequest → Store → Result RelationshipMove × Store
unfolding settle_relationship
transition_relationship now resident_id req s =
    if not (truthy resident_id) then (thrown, s) else elim (find_by_resident_id s resident_id) [
      | none ↦ (refused "UNKNOWN_RESIDENT", s)
      | some r ↦
          settle_relationship s r (relationship_of r.relationship r.created_at).status
            (apply_transition now (relationship_of r.relationship r.created_at) req)
    ]

-- `ok none` is the answer `null`.
unfoldable pub relationship_for : String → Store → Result (Option RelationshipAttributes)
relationship_for resident_id s =
    if not (truthy resident_id) then thrown else elim (find_by_resident_id s resident_id) [
      | none ↦ ok none
      | some r ↦ ok (some (relationship_of r.relationship r.created_at))
    ]

-- One round of the publishing loop; `false` means that `list.set` threw.
unfoldable pub publish_change : String → ℕ → Change → Store → Bool × Store
publish_change country i change s =
    let (l, loaded) = load_status_list s country change.purpose in
    elim (set_bit l i change.set) [
      | none ↦ (false, loaded)
      | some l' ↦ (true, save_status_list loaded country l' change.purpose)
    ]

unfoldable pub publish_all : String → ℕ → List Change → Store → Bool × Store
publish_all country i [] s = (true, s)
publish_all country i (c ∷ cs) s =
    let (done, s') = publish_change country i c s in
    let rest = publish_all country i cs s' in if done then rest else (false, s')

pub record CredentialMove : Type 0 where
  pub record_after : ResidentRecord
  pub from : CredentialStatus
  pub to : CredentialStatus

-- `record.credentialStatus ?? backfilledCredentialStatus(…)`; `none` means that `isRevoked` threw.
abbrev pub current_status :
    Option CredentialStatusRecord → Option Bool → String → Option CredentialStatusRecord
current_status (some c) revoked_bit created_at = some c
current_status none none created_at = none
current_status none (some b) created_at = some (backfilled_credential_status b created_at)

unfoldable pub settle_credential :
    String
    → Store
    → ResidentRecord
    → CredentialStatus
    → CredentialTransitionOutcome
    → Result CredentialMove × Store
settle_credential country s r from (Status.refused reason) = (refused reason, s)
settle_credential country s r from (Status.ok next changes) =
    let updated = record r { credential_status = some next } in
    let (published, s') = publish_all country r.status_list_index changes s in
    if published
    then (ok (record { record_after = updated; from = from; to = next.status }), save s' updated)
    else (thrown, s')

unfoldable pub apply_to_record :
    String
    → String
    → CredentialTransitionRequest
    → Store
    → ResidentRecord
    → Option CredentialStatusRecord
    → Result CredentialMove × Store
unfolding settle_credential
apply_to_record now country req s r none = (thrown, s)
apply_to_record now country req s r (some current) =
    settle_credential country s r current.status (apply_credential_transition now current req)

unfoldable pub transition_credential :
    String → String → String → CredentialTransitionRequest → Store → Result CredentialMove × Store
unfolding apply_to_record
transition_credential now country resident_id req s =
    if not (truthy resident_id) then (thrown, s) else elim (find_by_resident_id s resident_id) [
      | none ↦ (refused "UNKNOWN_RESIDENT", s)
      | some r ↦
          let (revocation_list, loaded) = load_status_list s country revocation in
          apply_to_record now country req loaded r (
            current_status r.credential_status (is_revoked revocation_list r.status_list_index)
              r.created_at)
    ]

-- The part of a country's configuration that revocation reads.
pub record CredentialConfig : Type 0 where
  pub country_code : String
  pub issuer_name : String
  pub default_revocation_reason : Option String
  pub appeal_path : Option String

abbrev pub appeal_path_undeclared : String
appeal_path_undeclared =
    "No appeal path published by this deployment. Set credential.appealPath in the country config."

unfoldable pub revocation_request : CredentialConfig → CredentialTransitionRequest
revocation_request cfg = record {
  to = revoked;
  reason = some (Status.or_else cfg.default_revocation_reason "Revoked by the issuing authority");
  authority = some cfg.issuer_name;
  appeal_path = some (Status.or_else cfg.appeal_path appeal_path_undeclared);
  superseded_by = none;
  at = none;
}

abbrev pub is_ok {ℓ} : {A : Type ℓ} → Result A → Bool
is_ok (ok a) = true
is_ok _ = false

unfoldable pub revoke : String → CredentialConfig → String → Store → Bool × Store
unfolding revocation_request
revoke now cfg resident_id s =
    let (result, s') =
      transition_credential now cfg.country_code resident_id (revocation_request cfg) s in
    (is_ok result, s')
