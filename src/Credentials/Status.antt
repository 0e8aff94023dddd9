-- ===== src/Credentials/Status.antt =====
-- src/core/credentials/credential-lifecycle.ts: the status machine of a credential, and the
-- status-list bits that each transition publishes.
pub mod Decisions
pub mod Published
mod Tests
use open_residency.Base.{
  ℕ, Bool, true, false, ◌&&◌, not, String, Option, none, some, List, [], ◌∷◌, if◌then◌else◌, ◌==◌,
  any, given, trimmed, ◌&◌,
}

pub data CredentialStatus : Type 0 where
  issued active suspended revoked expired replaced : CredentialStatus

abbrev pub index : CredentialStatus → ℕ
index issued = 0
index active = 1
index suspended = 2
index revoked = 3
index expired = 4
index replaced = 5

abbrev pub same : CredentialStatus → CredentialStatus → Bool
same a b = index a == index b

abbrev pub word : CredentialStatus → String
word issued = "ISSUED"
word active = "ACTIVE"
word suspended = "SUSPENDED"
word revoked = "REVOKED"
word expired = "EXPIRED"
word replaced = "REPLACED"

abbrev pub includes : List CredentialStatus → CredentialStatus → Bool
includes xs s = any (same s) xs

abbrev pub terminal : List CredentialStatus
terminal = revoked ∷ expired ∷ replaced ∷ []

abbrev pub transitions : CredentialStatus → List CredentialStatus
transitions issued = active ∷ revoked ∷ expired ∷ replaced ∷ []
transitions active = suspended ∷ revoked ∷ expired ∷ replaced ∷ []
transitions suspended = active ∷ revoked ∷ expired ∷ replaced ∷ []
transitions revoked = []
transitions expired = []
transitions replaced = []

unfoldable pub is_terminal_credential_status : CredentialStatus → Bool
is_terminal_credential_status status = includes terminal status

unfoldable pub can_transition_credential : CredentialStatus → CredentialStatus → Bool
can_transition_credential from to = includes (transitions from) to

pub data StatusPurpose : Type 0 where
  revocation suspension : StatusPurpose

pub record CredentialStatusRecord : Type 0 where
  pub status : CredentialStatus
  pub reason : Option String
  pub authority : Option String
  pub at : Option String
  pub appeal_path : Option String
  pub superseded_by : Option String

pub record CredentialTransitionRequest : Type 0 where
  pub to : CredentialStatus
  pub reason : Option String
  pub authority : Option String
  pub appeal_path : Option String
  pub superseded_by : Option String
  pub at : Option String

-- A bit of a status list that must be set or cleared.
pub record Change : Type 0 where
  pub purpose : StatusPurpose
  pub set : Bool

pub data CredentialTransitionOutcome : Type 0 where
  ok : CredentialStatusRecord → List Change → CredentialTransitionOutcome
  refused : String → CredentialTransitionOutcome

-- `if (o?.trim()) record.field = o.trim()`
abbrev pub kept : Option String → Option String
kept o = if given o then some (trimmed o) else none

abbrev pub or_else : Option String → String → String
or_else none d = d
or_else (some s) d = s

-- The `switch` that fills `publish`.
unfoldable pub publish : CredentialStatus → List Change
publish suspended = record { purpose = suspension; set = true } ∷ []
publish active = record { purpose = suspension; set = false } ∷ []
publish issued = []
publish _ =
    record { purpose = revocation; set = true } ∷ record { purpose = suspension; set = false } ∷ []

-- The record that an accepted request writes.
unfoldable pub recorded : String → CredentialTransitionRequest → CredentialStatusRecord
recorded at req = record {
  status = req.to;
  reason = kept req.reason;
  authority = kept req.authority;
  at = some at;
  appeal_path = kept req.appeal_path;
  superseded_by = kept req.superseded_by;
}

unfoldable pub apply_credential_transition :
    String → CredentialStatusRecord → CredentialTransitionRequest → CredentialTransitionOutcome
apply_credential_transition now current req =
    if not (can_transition_credential current.status req.to)
    then refused (
        if is_terminal_credential_status current.status
        then "CREDENTIAL_ALREADY_" & word current.status
        else "CREDENTIAL_TRANSITION_NOT_PERMITTED_" & word current.status & "_TO_" & word req.to)
    else if is_terminal_credential_status req.to && not (given req.reason)
    then refused ("REASON_REQUIRED_FOR_" & word req.to)
    else if is_terminal_credential_status req.to && not (given req.authority)
    then refused ("AUTHORITY_REQUIRED_FOR_" & word req.to)
    else if same req.to revoked && not (given req.appeal_path)
    then refused "APPEAL_PATH_REQUIRED_FOR_REVOCATION"
    else if same req.to replaced && not (given req.superseded_by)
    then refused "SUPERSEDED_BY_REQUIRED_FOR_REPLACEMENT"
    else if same req.to suspended && not (given req.authority)
    then refused "AUTHORITY_REQUIRED_FOR_SUSPENDED"
    else ok (recorded (or_else req.at now) req) (publish req.to)

unfoldable pub new_credential_status : String → CredentialStatusRecord
new_credential_status at = record {
  status = active;
  reason = none;
  authority = none;
  at = some at;
  appeal_path = none;
  superseded_by = none;
}

unfoldable pub backfilled_credential_status : Bool → String → CredentialStatusRecord
unfolding new_credential_status
backfilled_credential_status revoked_bit at =
    if not revoked_bit then new_credential_status at else record {
      status = revoked;
      reason = some "Revoked before the credential lifecycle recorded reasons; not recoverable";
      authority = some "migration:pre-lifecycle-record";
      at = some at;
      appeal_path = none;
      superseded_by = none;
    }
