-- ===== src/Identity/Links/Reads.antt =====
-- What the registry answers without changing: resolvePerson, restrictions, linksFor, history,
-- historyFor and merged.
use open_residency.Base.{
  Bool, true, false, String, Option, none, some, List, [], ◌∷◌, ◌++◌, map, if◌then◌else◌, ltb,
  filter, length, truthy,
}
use open_residency.Identity.Links.Types
use open_residency.Identity.Links.Types.{
  IdentityLink, IdentityLinkOperation, IdentityLinkEvent, MergeRecord, Registry, disputed,
  same_status,
}
use open_residency.Identity.Links.Store.{
  find_link, find_current_by_identifier, list_by_person, list_events, find_merge,
}

abbrev pub person_of : Option IdentityLink → Option String
person_of none = none
person_of (some l) = some l.person_ref

unfoldable pub resolve_person : Registry → String → Option String
resolve_person s identifier_ref = person_of (find_current_by_identifier s identifier_ref)

unfoldable pub disputed_links : Registry → String → List IdentityLink
disputed_links s person_ref =
    filter (λ l. same_status l.status disputed) (list_by_person s person_ref)

pub record Restrictions : Type 0 where
  pub restricted : Bool
  pub disputed_link_ids : List String

unfoldable pub restrictions : Registry → String → Restrictions
restrictions s person_ref =
    let ls = disputed_links s person_ref in
    record {
      restricted = ltb 0 (length ls);
      disputed_link_ids = map (λ (l : IdentityLink). l.id) ls;
    }

abbrev is_closing : IdentityLinkOperation → Bool
is_closing Types.relink = true
is_closing Types.merge = true
is_closing Types.split = true
is_closing _ = false

-- The sort by `seq`; no two events of a store have the same number.
unfoldable pub place_event : IdentityLinkEvent → List IdentityLinkEvent → List IdentityLinkEvent
place_event e [] = e ∷ []
place_event e (q ∷ qs) =
    let rest = place_event e qs in if ltb e.seq q.seq then e ∷ q ∷ qs else q ∷ rest

unfoldable pub in_order : List IdentityLinkEvent → List IdentityLinkEvent → List IdentityLinkEvent
in_order sorted [] = sorted
in_order sorted (e ∷ es) = in_order (place_event e sorted) es

abbrev successor_of : Option IdentityLink → Option String
successor_of none = none
successor_of (some l) = l.superseded_by

abbrev history_with : Registry → List IdentityLinkEvent → Option String → List IdentityLinkEvent
history_with s own none = own
history_with s own (some successor) =
    if truthy successor
    then in_order []
        (own ++ filter (λ e. is_closing e.event.operation) (list_events s (some successor) none))
    else own

unfoldable pub history : Registry → String → List IdentityLinkEvent
history s link_id =
    history_with s (list_events s (some link_id) none) (successor_of (find_link s link_id))

unfoldable pub history_for : Registry → String → List IdentityLinkEvent
history_for s person_ref = list_events s none (some person_ref)

unfoldable pub merged : Registry → String → Option MergeRecord
merged s merge_id = find_merge s merge_id
