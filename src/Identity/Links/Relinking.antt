-- ===== src/Identity/Links/Relinking.antt =====
-- The operation that moves one link: relink.
use open_residency.Base.{
  Bool, false, not, String, Option, none, some, List, if◌then◌else◌, str_eq, truthy, trim,
}
use open_residency.Identity.Links.Types.{
  IdentityLink, IdentityLinkStatus, active, disputed, unlinked, same_status, IdentityLinkOperation,
  Dispute, Closing, NewEvent, Registry, Outcome, ok, refused, Platform,
}
use open_residency.Identity.Links.Types
use open_residency.Identity.Links.Store.{find_link, find_current_by_identifier}
use open_residency.Identity.Links.Changes.{
  at_or, some_evidence, trimmed_all, move, source_of, continuing, move_event,
}

pub record RelinkRequest : Type 0 where
  pub to_person_ref : String
  pub by : String
  pub reason : String
  pub evidence_refs : List String
  pub at : Option String

pub record Relinked : Type 0 where
  pub from : IdentityLink
  pub to : IdentityLink

-- Did the identifier move on since the link was closed?
abbrev pub moved_on : IdentityLink → Option IdentityLink → Bool
moved_on l none = false
moved_on l (some current) = not (str_eq current.id l.id)

module _ (platform : Platform) (now : String) where
  unfoldable pub relink_write :
      Registry → RelinkRequest → IdentityLink → Outcome Relinked × Registry
  relink_write s req l =
      let at = at_or req.at now in
      let to =
        continuing platform s l req.to_person_ref (trimmed_all req.evidence_refs) at (trim req.by)
          none in
      let from =
        source_of l
          (record { at = at; by = trim req.by; reason = trim req.reason; operation = Types.relink })
          to.id in
      (
        ok (record { from = from; to = to }),
        move s from to
            (record (move_event platform s to Types.relink at (trim req.by) (trim req.reason)
              l.person_ref) { evidence_refs = some to.evidence_refs }),
      )

  unfoldable pub relink_found :
      Registry → RelinkRequest → Option IdentityLink → Outcome Relinked × Registry
  relink_found s req none = (refused "UNKNOWN_LINK", s)
  relink_found s req (some l) =
      if moved_on l (find_current_by_identifier s l.identifier_ref)
      then (refused "IDENTIFIER_LINKED_TO_ANOTHER_PERSON", s)
      else if str_eq l.person_ref req.to_person_ref
      then (refused "ALREADY_LINKED_TO_THAT_PERSON", s)
      else relink_write s req l

  unfoldable pub relink : String → RelinkRequest → Registry → Outcome Relinked × Registry
  relink link_id req s =
      if not (truthy (trim req.by))
      then (refused "DECIDING_ACTOR_REQUIRED", s)
      else if not (truthy (trim req.reason))
      then (refused "REASON_REQUIRED", s)
      else if not (some_evidence req.evidence_refs)
      then (refused "EVIDENCE_REQUIRED", s)
      else if not (truthy (trim req.to_person_ref))
      then (refused "TARGET_PERSON_REQUIRED", s)
      else relink_found s req (find_link s link_id)
