-- ===== src/Residency/Lifecycle.antt =====
-- src/core/residency/lifecycle.ts: the residency relationship's status machine and attributes.
-- `new Date().toISOString()` is the argument `now`.
pub mod Diagram
pub mod Shape
pub mod Privacy
mod Tests
use open_residency.Base.{
  ℕ, Bool, false, ◌&&◌, not, String, Option, none, some, List, [], ◌∷◌, if◌then◌else◌, ◌==◌, any,
  given, trimmed, truthy, trim, ◌&◌,
}

pub data RelationshipStatus : Type 0 where
  active suspended ended revoked expired : RelationshipStatus

pub data RelationshipType : Type 0 where
  general_residency former_residency : RelationshipType

abbrev pub index : RelationshipStatus → ℕ
index active = 0
index suspended = 1
index ended = 2
index revoked = 3
index expired = 4

-- `a === b` on statuses, and the word of a status in a refusal's text
abbrev pub same : RelationshipStatus → RelationshipStatus → Bool
same a b = index a == index b

abbrev pub word : RelationshipStatus → String
word active = "ACTIVE"
word suspended = "SUSPENDED"
word ended = "ENDED"
word revoked = "REVOKED"
word expired = "EXPIRED"

abbrev pub includes : List RelationshipStatus → RelationshipStatus → Bool
includes xs s = any (same s) xs

abbrev pub terminal : List RelationshipStatus
terminal = ended ∷ revoked ∷ expired ∷ []

abbrev pub transitions : RelationshipStatus → List RelationshipStatus
transitions active = suspended ∷ ended ∷ revoked ∷ expired ∷ []
transitions suspended = active ∷ ended ∷ revoked ∷ expired ∷ []
transitions ended = []
transitions revoked = []
transitions expired = []

unfoldable pub is_terminal : RelationshipStatus → Bool
is_terminal status = includes terminal status

unfoldable pub can_transition : RelationshipStatus → RelationshipStatus → Bool
can_transition from to = includes (transitions from) to

unfoldable pub holds_now : RelationshipStatus → Bool
holds_now status = same status active

pub record RelationshipAttributes : Type 0 where
  pub type : RelationshipType
  pub purpose : String
  pub status : RelationshipStatus
  pub valid_from : String
  pub valid_to : Option String
  pub policy_version : String
  pub evidence_refs : List String
  pub assurance_profile_id : Option String
  pub issuer : String
  pub decided_by : String
  pub submitted_by : Option String
  pub decided_at : String
  pub ended_at : Option String
  pub ended_reason : Option String
  pub ended_by : Option String

pub record TransitionRequest : Type 0 where
  pub to : RelationshipStatus
  pub by : String
  pub reason : Option String
  pub at : Option String

pub data TransitionOutcome : Type 0 where
  ok : RelationshipAttributes → TransitionOutcome
  refused : String → TransitionOutcome

-- `a ?? b`
abbrev pub or_else : Option String → String → String
or_else none d = d
or_else (some s) d = s

-- The attributes that an accepted request writes: `next` in the source.
unfoldable pub moved : String → RelationshipAttributes → TransitionRequest → RelationshipAttributes
moved at current req =
    let next = record current { status = req.to; decided_by = req.by; decided_at = at } in
    if is_terminal req.to
    then record next {
      ended_at = some at;
      ended_reason = some (trimmed req.reason);
      ended_by = some req.by;
      type = former_residency;
      valid_to = some at;
    }
    else next

unfoldable pub apply_transition :
    String → RelationshipAttributes → TransitionRequest → TransitionOutcome
apply_transition now current req =
    if not (can_transition current.status req.to)
    then refused (
        if is_terminal current.status
        then "RELATIONSHIP_ALREADY_" & word current.status
        else "TRANSITION_NOT_PERMITTED_" & word current.status & "_TO_" & word req.to)
    else if is_terminal req.to && not (given req.reason)
    then refused ("REASON_REQUIRED_FOR_" & word req.to)
    else if not (truthy (trim req.by))
    then refused "DECIDING_ACTOR_REQUIRED"
    else if same req.to active && is_terminal current.status
    then refused "CANNOT_REACTIVATE_TERMINAL_RELATIONSHIP"
    else ok (moved (or_else req.at now) current req)

pub record NewRelationship : Type 0 where
  pub purpose : String
  pub policy_version : String
  pub evidence_refs : List String
  pub assurance_profile_id : Option String
  pub issuer : String
  pub decided_by : String
  pub submitted_by : Option String
  pub at : String

-- `if (s) attrs.field = s`: an empty string leaves the field absent.
abbrev pub if_truthy : Option String → Option String
if_truthy none = none
if_truthy (some s) = if truthy s then some s else none

unfoldable pub new_relationship : NewRelationship → RelationshipAttributes
new_relationship input = record {
  type = general_residency;
  purpose = input.purpose;
  status = active;
  valid_from = input.at;
  valid_to = none;
  policy_version = input.policy_version;
  evidence_refs = input.evidence_refs;
  assurance_profile_id = if_truthy input.assurance_profile_id;
  issuer = input.issuer;
  decided_by = input.decided_by;
  submitted_by = if_truthy input.submitted_by;
  decided_at = input.at;
  ended_at = none;
  ended_reason = none;
  ended_by = none;
}

abbrev pub backfilled_provenance : String
backfilled_provenance = "migration:pre-lifecycle-record"

-- The two arguments are the fields `relationship` and `createdAt` of a record.
unfoldable pub relationship_of : Option RelationshipAttributes → String → RelationshipAttributes
relationship_of (some attributes) created_at = attributes
relationship_of none created_at = record {
  type = general_residency;
  purpose = "";
  status = active;
  valid_from = created_at;
  valid_to = none;
  policy_version = backfilled_provenance;
  evidence_refs = [];
  assurance_profile_id = none;
  issuer = "";
  decided_by = backfilled_provenance;
  submitted_by = none;
  decided_at = created_at;
  ended_at = none;
  ended_reason = none;
  ended_by = none;
}

-- A refused request leaves the attributes as they were.
abbrev pub after : RelationshipAttributes → TransitionOutcome → RelationshipAttributes
after current (ok next) = next
after current (refused reason) = current

-- A history of requests, each with the time at which it is made.
unfoldable pub run :
    RelationshipAttributes → List (String × TransitionRequest) → RelationshipAttributes
run c [] = c
run c ((now, req) ∷ rest) = run (after c (apply_transition now c req)) rest
