-- ===== src/Identity/Links/Types.antt =====
-- The records of identity-link.ts.
use open_residency.Base.{ℕ, String, Option, List, Bool, ◌==◌}
use open_residency.Base.Dict.{Dict}

pub data IdentityLinkStatus : Type 0 where
  active disputed unlinked : IdentityLinkStatus

abbrev pub status_index : IdentityLinkStatus → ℕ
status_index active = 0
status_index disputed = 1
status_index unlinked = 2

abbrev pub same_status : IdentityLinkStatus → IdentityLinkStatus → Bool
same_status a b = status_index a == status_index b

pub data IdentityLinkOperation : Type 0 where
  link dispute dispute_resolved unlink relink merge split : IdentityLinkOperation

pub record Dispute : Type 0 where
  pub raised_at : String
  pub raised_by : String
  pub reason : String
  pub resolved_at : Option String
  pub resolved_by : Option String
  pub resolution : Option String

pub record Closing : Type 0 where
  pub at : String
  pub by : String
  pub reason : String
  pub operation : IdentityLinkOperation

pub record IdentityLink : Type 0 where
  pub id : String
  pub person_ref : String
  pub identifier_type : String
  pub identifier_ref : String
  pub status : IdentityLinkStatus
  pub foundational : Bool
  pub evidence_refs : List String
  pub linked_at : String
  pub linked_by : String
  pub dispute_record : Option Dispute
  pub unlinked_record : Option Closing
  pub supersedes : Option String
  pub superseded_by : Option String
  pub merge_id : Option String

-- An event before the store numbers it.
pub record NewEvent : Type 0 where
  pub id : String
  pub link_id : String
  pub person_ref : String
  pub operation : IdentityLinkOperation
  pub at : String
  pub by : String
  pub reason : Option String
  pub evidence_refs : Option (List String)
  pub from_person_ref : Option String
  pub to_person_ref : Option String
  pub merge_id : Option String

pub record IdentityLinkEvent : Type 0 where
  pub event : NewEvent
  pub seq : ℕ

pub record Moved : Type 0 where
  pub from : String
  pub to : String

pub record Split : Type 0 where
  pub at : String
  pub by : String
  pub reason : String
  pub restored : List Moved

pub record MergeRecord : Type 0 where
  pub id : String
  pub survivor_ref : String
  pub duplicate_ref : String
  pub at : String
  pub by : String
  pub reason : String
  pub moved : List Moved
  pub split_record : Option Split

-- The three collections of the in-memory store, and how many identifiers were drawn.
pub record Registry : Type 0 where
  pub links : Dict IdentityLink
  pub events : List IdentityLinkEvent
  pub merges : Dict MergeRecord
  pub drawn : ℕ

pub data Outcome {ℓ} (A : Type ℓ) : Type ℓ where
  ok : A → Outcome A
  refused : String → Outcome A

-- What the language provides: fresh identifiers and lower case.
pub record Platform : Type 0 where
  pub new_id : ℕ → String
  pub lower : String → String
