-- ===== src/Identity/Links/Changes.antt =====
-- The changes that the operations of identity-link.ts share: closing, continuing and rewriting a link.
use open_residency.Base.{
  ◌+◌, Bool, true, not, String, Option, none, some, List, map, if◌then◌else◌, ◌&◌, any, filter,
  truthy, trim,
}
use open_residency.Identity.Links.Types.{
  IdentityLink, IdentityLinkStatus, active, disputed, unlinked, same_status, IdentityLinkOperation,
  Dispute, Closing, NewEvent, Registry, Outcome, ok, refused, Platform,
}
use open_residency.Identity.Links.Types
use open_residency.Identity.Links.Store.{save_link, append_event}

-- A decision on one link: who, why, and when if not now.
pub record Decision : Type 0 where
  pub by : String
  pub reason : String
  pub at : Option String

-- `req.at ?? now()`
abbrev pub at_or : Option String → String → String
at_or none now = now
at_or (some at) now = at

abbrev pub some_evidence : List String → Bool
some_evidence evidence = any (λ e. truthy (trim e)) evidence

abbrev pub trimmed_all : List String → List String
trimmed_all evidence = filter truthy (map trim evidence)

-- An event of one link, with the fields that only some operations fill left out.
unfoldable pub event_of :
    String → IdentityLink → IdentityLinkOperation → String → String → Option String → NewEvent
event_of id l operation at by reason = record {
  id = id;
  link_id = l.id;
  person_ref = l.person_ref;
  operation = operation;
  at = at;
  by = by;
  reason = reason;
  evidence_refs = none;
  from_person_ref = none;
  to_person_ref = none;
  merge_id = none;
}

-- A dispute that is open at the moment of closing is closed by it.
abbrev pub operation_word : IdentityLinkOperation → String
operation_word Types.link = "LINK"
operation_word Types.dispute = "DISPUTE"
operation_word Types.dispute_resolved = "DISPUTE_RESOLVED"
operation_word Types.unlink = "UNLINK"
operation_word Types.relink = "RELINK"
operation_word Types.merge = "MERGE"
operation_word Types.split = "SPLIT"

abbrev is_open : Option String → Bool
is_open none = true
is_open (some at) = not (truthy at)

abbrev pub closed_dispute : Option Dispute → Closing → Option Dispute
closed_dispute none c = none
closed_dispute (some d) c =
    if is_open d.resolved_at
    then some (record d {
      resolved_at = some c.at;
      resolved_by = some c.by;
      resolution = some (operation_word c.operation & ": " & c.reason);
    })
    else some d

abbrev or_kept : Option String → Option String → Option String
or_kept none kept = kept
or_kept (some s) kept = some s

-- The record that `close` writes.
unfoldable pub closed : IdentityLink → Closing → Option String → IdentityLink
closed l c superseded_by = record l {
  status = unlinked;
  unlinked_record = some c;
  superseded_by = or_kept superseded_by l.superseded_by;
  dispute_record = closed_dispute l.dispute_record c;
}

-- `newId()`: the next identifier, and the store with one more drawn.
abbrev pub drawing : Registry → Registry
drawing s = record s { drawn = s.drawn + 1 }

-- Saving a link that was just made, and its event; each drew one identifier.
unfoldable pub write_link : Registry → IdentityLink → NewEvent → Registry
write_link s l e = drawing (append_event (drawing (save_link s l)) e)

unfoldable pub move : Registry → IdentityLink → IdentityLink → NewEvent → Registry
move s from to e = write_link (save_link s from) to e

-- The old link is closed, or only pointed at the new one if it was closed before.
abbrev pub source_of : IdentityLink → Closing → String → IdentityLink
source_of l c to =
    if same_status l.status unlinked
    then record l { superseded_by = some to }
    else closed l c (some to)

-- The guards that dispute, resolveDispute and unlink share, before the link is looked up.
abbrev pub attributed : Decision → Option String
attributed req =
    if not (truthy (trim req.by))
    then some "DECIDING_ACTOR_REQUIRED"
    else if not (truthy (trim req.reason))
    then some "REASON_REQUIRED"
    else none

abbrev pub attributed_then :
    Registry → Option String → Outcome IdentityLink × Registry → Outcome IdentityLink × Registry
attributed_then s (some reason) rest = (refused reason, s)
attributed_then s none rest = rest

unfoldable pub closing_of : String → Decision → IdentityLinkOperation → Closing
closing_of now req operation = record {
  at = at_or req.at now;
  by = trim req.by;
  reason = trim req.reason;
  operation = operation;
}

module _ (platform : Platform) where
  open platform use {new_id}

  -- The end of the operations that rewrite one link.
  unfoldable pub rewrite :
      String
      → Registry
      → IdentityLink
      → IdentityLinkOperation
      → Decision
      → Outcome IdentityLink × Registry
  rewrite now s l operation req = (
    ok l,
    drawing (
        append_event (save_link s l) (
          event_of (new_id s.drawn) l operation (at_or req.at now) (trim req.by)
            (some (trim req.reason)))),
  )

  -- A link that continues another one, on another person.
  unfoldable pub continuing :
      Registry
      → IdentityLink
      → String
      → List String
      → String
      → String
      → Option String
      → IdentityLink
  continuing s l person_ref evidence at by merge_id = record {
    id = new_id s.drawn;
    person_ref = person_ref;
    identifier_type = l.identifier_type;
    identifier_ref = l.identifier_ref;
    status = active;
    foundational = l.foundational;
    evidence_refs = evidence;
    linked_at = at;
    linked_by = by;
    dispute_record = none;
    unlinked_record = none;
    supersedes = some l.id;
    superseded_by = none;
    merge_id = merge_id;
  }

  -- The event of a link that moved from one person to another.
  unfoldable pub move_event :
      Registry → IdentityLink → IdentityLinkOperation → String → String → String → String → NewEvent
  move_event s to operation at by reason from_person_ref =
      record (event_of (new_id (s.drawn + 1)) to operation at by (some reason)) {
        from_person_ref = some from_person_ref;
        to_person_ref = some to.person_ref;
      }
