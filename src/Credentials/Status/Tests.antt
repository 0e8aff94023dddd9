-- ===== src/Credentials/Status/Tests.antt =====
-- Runs of credential-lifecycle.ts on concrete requests.
use open_residency.Base.{◌≡◌, ◌↔◌, refl, some, none, truthy, true, trim}
use open_residency.Credentials.Status.{
  CredentialStatusRecord, CredentialTransitionRequest, revoked, ok, refused,
  apply_credential_transition, can_transition_credential, is_terminal_credential_status, recorded,
  publish, or_else, new_credential_status,
}
use open_residency.Credentials.Status.Decisions.{
  Permitted, IsAccountable, apply_credential_transition-ok_iff, revocation_preserves,
}
use open_residency.Credentials.Status.Published.{change_all, bits_of, publish-bits_of}

abbrev fresh : CredentialStatusRecord
fresh = new_credential_status "2026-01-01"

abbrev revocation_request : CredentialTransitionRequest
revocation_request = record {
  to = revoked;
  reason = some "lost";
  authority = some "op:1 ";
  appeal_path = some "office 3";
  superseded_by = none;
  at = none;
}

revoked_record :
    apply_credential_transition "t" fresh revocation_request
    ≡ ok (recorded "t" revocation_request) (publish revoked)
unfolding apply_credential_transition can_transition_credential is_terminal_credential_status
    new_credential_status trim
revoked_record = refl

without_appeal_refused :
    apply_credential_transition "t" fresh (record revocation_request { appeal_path = some " " })
    ≡ refused "APPEAL_PATH_REQUIRED_FOR_REVOCATION"
unfolding apply_credential_transition can_transition_credential is_terminal_credential_status
    new_credential_status trim
without_appeal_refused = refl

apply_credential_transition-ok_iff_example :
    (apply_credential_transition "t" fresh revocation_request
      ≡ ok (recorded "t" revocation_request) (publish revoked))
    ↔ (Permitted fresh.status revoked
        × IsAccountable revocation_request
        × (recorded "t" revocation_request ≡ recorded (or_else none "t") revocation_request)
        × (publish revoked ≡ publish revoked))
apply_credential_transition-ok_iff_example =
    apply_credential_transition-ok_iff "t" fresh (recorded "t" revocation_request)
      revocation_request (publish revoked)

abbrev written : CredentialStatusRecord
written = recorded "t" revocation_request

revocation_preserves_example :
    (written.reason ≡ some "lost")
    × (truthy "lost" ≡ true)
    × (written.authority ≡ some "op:1")
    × (truthy "op:1" ≡ true)
    × (written.appeal_path ≡ some "office 3")
    × (truthy "office 3" ≡ true)
    × (written.at ≡ some "t")
unfolding recorded trim
revocation_preserves_example =
    revocation_preserves "t" fresh written revocation_request (publish revoked) revoked_record refl

publish-bits_of_example :
    change_all (publish revoked) (bits_of fresh.status) ≡ bits_of written.status
publish-bits_of_example =
    publish-bits_of "t" fresh written revocation_request (publish revoked) revoked_record
