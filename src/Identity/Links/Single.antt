-- ===== src/Identity/Links/Single.antt =====
-- The operations on one link: link, dispute, resolveDispute and unlink.
use open_residency.Base.{
  ◌+◌, Bool, true, false, ◌||◌, not, String, Option, none, some, List, if◌then◌else◌, str_eq,
  truthy, trim,
}
use open_residency.Identity.Links.Types.{
  IdentityLink, IdentityLinkStatus, active, disputed, unlinked, same_status, IdentityLinkOperation,
  Dispute, Closing, NewEvent, Registry, Outcome, ok, refused, Platform,
}
use open_residency.Identity.Links.Types
use open_residency.Identity.Links.Store.{find_link, find_current_by_identifier}
use open_residency.Identity.Links.Changes.{
  Decision, at_or, some_evidence, trimmed_all, event_of, closed, write_link, attributed,
  attributed_then, closing_of, rewrite,
}

pub record LinkRequest : Type 0 where
  pub person_ref : String
  pub identifier_type : String
  pub identifier_ref : String
  pub by : String
  pub evidence_refs : List String
  pub foundational : Bool
  pub reason : Option String
  pub at : Option String

pub record Linked : Type 0 where
  pub link : IdentityLink
  pub created : Bool

module _ (platform : Platform) (now : String) where
  open platform use {new_id, lower}

  unfoldable pub new_link : Registry → LinkRequest → IdentityLink
  new_link s req = record {
    id = new_id s.drawn;
    person_ref = req.person_ref;
    identifier_type = lower (trim req.identifier_type);
    identifier_ref = req.identifier_ref;
    status = active;
    foundational = req.foundational;
    evidence_refs = trimmed_all req.evidence_refs;
    linked_at = at_or req.at now;
    linked_by = trim req.by;
    dispute_record = none;
    unlinked_record = none;
    supersedes = none;
    superseded_by = none;
    merge_id = none;
  }

  unfoldable pub link_over :
      Registry → LinkRequest → Option IdentityLink → Outcome Linked × Registry
  link_over s req (some current) =
      if str_eq current.person_ref req.person_ref
      then (ok (record { link = current; created = false }), s)
      else (refused "IDENTIFIER_LINKED_TO_ANOTHER_PERSON", s)
  link_over s req none =
      let l = new_link s req in
      (
        ok (record { link = l; created = true }),
        write_link s l
            (record (event_of (new_id (s.drawn + 1)) l Types.link (at_or req.at now) (trim req.by)
              req.reason) { evidence_refs = some l.evidence_refs }),
      )

  unfoldable pub link : LinkRequest → Registry → Outcome Linked × Registry
  link req s =
      if not (truthy (trim req.by))
      then (refused "DECIDING_ACTOR_REQUIRED", s)
      else if not (truthy (trim req.identifier_type)) || not (truthy (trim req.identifier_ref))
      then (refused "IDENTIFIER_REQUIRED", s)
      else if not (some_evidence req.evidence_refs)
      then (refused "EVIDENCE_REQUIRED", s)
      else link_over s req (find_current_by_identifier s req.identifier_ref)

  unfoldable pub disputing : IdentityLink → Decision → IdentityLink
  disputing l req = record l {
    status = disputed;
    dispute_record = some (record {
      raised_at = at_or req.at now;
      raised_by = trim req.by;
      reason = trim req.reason;
      resolved_at = none;
      resolved_by = none;
      resolution = none;
    });
  }

  unfoldable pub dispute_found :
      Registry → Decision → Option IdentityLink → Outcome IdentityLink × Registry
  dispute_found s req none = (refused "UNKNOWN_LINK", s)
  dispute_found s req (some l) =
      if same_status l.status unlinked
      then (refused "LINK_NOT_CURRENT", s)
      else if same_status l.status disputed
      then (refused "ALREADY_DISPUTED", s)
      else rewrite platform now s (disputing l req) Types.dispute req

  unfoldable pub dispute : String → Decision → Registry → Outcome IdentityLink × Registry
  dispute link_id req s =
      attributed_then s (attributed req) (dispute_found s req (find_link s link_id))

  abbrev resolved : Dispute → Decision → Dispute
  resolved d req = record d {
    resolved_at = some (at_or req.at now);
    resolved_by = some (trim req.by);
    resolution = some (trim req.reason);
  }

  abbrev pub resolve_with :
      Registry → Decision → IdentityLink → Option Dispute → Outcome IdentityLink × Registry
  resolve_with s req l none = (refused "LINK_NOT_DISPUTED", s)
  resolve_with s req l (some d) =
      if not (same_status l.status disputed)
      then (refused "LINK_NOT_DISPUTED", s)
      else rewrite platform now s
          (record l { status = active; dispute_record = some (resolved d req) })
          Types.dispute_resolved req

  unfoldable pub resolve_found :
      Registry → Decision → Option IdentityLink → Outcome IdentityLink × Registry
  resolve_found s req none = (refused "UNKNOWN_LINK", s)
  resolve_found s req (some l) = resolve_with s req l l.dispute_record

  -- The resolution of the dispute is the decision's reason.
  unfoldable pub resolve_dispute : String → Decision → Registry → Outcome IdentityLink × Registry
  resolve_dispute link_id req s =
      attributed_then s (attributed req) (resolve_found s req (find_link s link_id))

  unfoldable pub unlink_found :
      Registry → Decision → Option IdentityLink → Outcome IdentityLink × Registry
  unlink_found s req none = (refused "UNKNOWN_LINK", s)
  unlink_found s req (some l) =
      if same_status l.status unlinked
      then (refused "ALREADY_UNLINKED", s)
      else rewrite platform now s (closed l (closing_of now req Types.unlink) none) Types.unlink req

  unfoldable pub unlink : String → Decision → Registry → Outcome IdentityLink × Registry
  unlink link_id req s =
      attributed_then s (attributed req) (unlink_found s req (find_link s link_id))
