-- ===== src/Identity/Links/Merging.antt =====
-- The operations that move every link of a person: merge, and split, which reverses one.
use open_residency.Base.{
  not, String, Option, none, some, List, [], ◌∷◌, if◌then◌else◌, str_eq, ◌&◌, any, filter, truthy,
  trim, is_some,
}
use open_residency.Identity.Links.Types
use open_residency.Identity.Links.Types.{
  IdentityLink, unlinked, disputed, same_status, Closing, Moved, Split, MergeRecord, Registry,
  Outcome, ok, refused, Platform,
}
use open_residency.Identity.Links.Store.{
  find_link, find_merge, save_merge, list_by_person, is_current,
}
use open_residency.Identity.Links.Changes.{
  Decision, closed, closing_of, continuing, move_event, move, drawing,
}

pub record MergeRequest : Type 0 where
  pub survivor_ref : String
  pub duplicate_ref : String
  pub by : String
  pub reason : String
  pub at : Option String

abbrev pub evidence_of : Option IdentityLink → List String
evidence_of none = []
evidence_of (some l) = l.evidence_refs

abbrev pub find_superseded : Registry → Option String → Option IdentityLink
find_superseded s none = none
find_superseded s (some id) = find_link s id

abbrev pub decision_of : MergeRequest → Decision
decision_of req = record { by = req.by; reason = req.reason; at = req.at }

abbrev pub current_or_none : Option IdentityLink → Option IdentityLink
current_or_none none = none
current_or_none (some l) = if same_status l.status unlinked then none else some l

abbrev pub cons_both : Option IdentityLink → Option (List IdentityLink) → Option (List IdentityLink)
cons_both none ls = none
cons_both (some l) none = none
cons_both (some l) (some ls) = some (l ∷ ls)

-- The links that the merge created; `none` if one of them was closed since.
unfoldable pub survivor_links : Registry → List Moved → Option (List IdentityLink)
survivor_links s [] = some []
survivor_links s (m ∷ ms) = cons_both (current_or_none (find_link s m.to)) (survivor_links s ms)

module _ (platform : Platform) (now : String) where
  open platform use {new_id}

  -- One round of the loop of `merge`, and of `split`: the link is closed and continued on another
  -- person.
  unfoldable pub carry_over :
      Registry
      → IdentityLink
      → Closing
      → String
      → String
      → List String
      → Option String
      → Option String
      → Registry
  carry_over s l c from_ref person_ref evidence merge_id event_merge_id =
      let to = continuing platform s l person_ref evidence c.at c.by merge_id in
      move s (closed l c (some to.id)) to
        (record (move_event platform s to c.operation c.at c.by c.reason from_ref) {
          merge_id = event_merge_id;
        })

  unfoldable pub merge_all :
      Registry → List IdentityLink → Closing → String → String → String → List Moved × Registry
  merge_all s [] c duplicate_ref survivor_ref merge_id = ([], s)
  merge_all s (l ∷ ls) c duplicate_ref survivor_ref merge_id =
      let s' =
        carry_over s l c duplicate_ref survivor_ref (("merge:" & merge_id) ∷ l.evidence_refs)
          (some merge_id) (some merge_id) in
      let (moved, s'') = merge_all s' ls c duplicate_ref survivor_ref merge_id in
      (record { from = l.id; to = new_id s.drawn } ∷ moved, s'')

  unfoldable pub merge_write :
      Registry → MergeRequest → List IdentityLink → Outcome MergeRecord × Registry
  merge_write s req links =
      let c = closing_of now (decision_of req) Types.merge in
      let (moved, s') =
        merge_all (drawing s) links c req.duplicate_ref req.survivor_ref (new_id s.drawn) in
      let m : MergeRecord = record {
        id = new_id s.drawn;
        survivor_ref = req.survivor_ref;
        duplicate_ref = req.duplicate_ref;
        at = c.at;
        by = c.by;
        reason = c.reason;
        moved = moved;
        split_record = none;
      } in
      (ok m, save_merge s' m)

  unfoldable pub merge_found :
      Registry → MergeRequest → List IdentityLink → Outcome MergeRecord × Registry
  merge_found s req [] = (refused "NOTHING_TO_MERGE", s)
  merge_found s req (l ∷ ls) =
      if any (λ q. same_status q.status disputed) (l ∷ ls)
      then (refused "DISPUTED_LINKS_MUST_BE_RESOLVED", s)
      else merge_write s req (l ∷ ls)

  unfoldable pub merge : MergeRequest → Registry → Outcome MergeRecord × Registry
  merge req s =
      if not (truthy (trim req.by))
      then (refused "DECIDING_ACTOR_REQUIRED", s)
      else if not (truthy (trim req.reason))
      then (refused "REASON_REQUIRED", s)
      else if str_eq req.survivor_ref req.duplicate_ref
      then (refused "CANNOT_MERGE_PERSON_WITH_SELF", s)
      else merge_found s req (filter is_current (list_by_person s req.duplicate_ref))

  unfoldable pub restore_all :
      Registry → List IdentityLink → Closing → String → String → String → List Moved × Registry
  restore_all s [] c survivor_ref duplicate_ref merge_id = ([], s)
  restore_all s (l ∷ ls) c survivor_ref duplicate_ref merge_id =
      let evidence = ("split:" & merge_id) ∷ evidence_of (find_superseded s l.supersedes) in
      let s' = carry_over s l c survivor_ref duplicate_ref evidence none (some merge_id) in
      let (restored, s'') = restore_all s' ls c survivor_ref duplicate_ref merge_id in
      (record { from = l.id; to = new_id s.drawn } ∷ restored, s'')

  unfoldable pub split_write :
      Registry → MergeRecord → Decision → List IdentityLink → Outcome MergeRecord × Registry
  split_write s m req links =
      let c = closing_of now req Types.split in
      let (restored, s') = restore_all s links c m.survivor_ref m.duplicate_ref m.id in
      let m' : MergeRecord = record m {
        split_record =
            some (record { at = c.at; by = c.by; reason = c.reason; restored = restored });
      } in
      (ok m', save_merge s' m')

  abbrev pub split_links :
      Registry
      → MergeRecord
      → Decision
      → Option (List IdentityLink)
      → Outcome MergeRecord × Registry
  split_links s m req none = (refused "LINK_MOVED_SINCE_MERGE", s)
  split_links s m req (some links) = split_write s m req links

  unfoldable pub split_found :
      Registry → Decision → Option MergeRecord → Outcome MergeRecord × Registry
  split_found s req none = (refused "UNKNOWN_MERGE", s)
  split_found s req (some m) =
      if is_some m.split_record
      then (refused "ALREADY_SPLIT", s)
      else split_links s m req (survivor_links s m.moved)

  unfoldable pub split : String → Decision → Registry → Outcome MergeRecord × Registry
  split merge_id req s =
      if not (truthy (trim req.by))
      then (refused "DECIDING_ACTOR_REQUIRED", s)
      else if not (truthy (trim req.reason))
      then (refused "REASON_REQUIRED", s)
      else split_found s req (find_merge s merge_id)
