-- ===== src/Identity/Links/Store.antt =====
-- The in-memory store of identity-link.ts.
use Prim.Native.String.{compare}
use text.Mathlib.Text.{is_le}
use open_residency.Base.{
  ◌+◌, Bool, true, false, ◌&&◌, ◌||◌, not, String, Option, none, some, List, [], ◌∷◌, ◌++◌,
  if◌then◌else◌, str_eq, find, filter, length,
}
use open_residency.Base.Dict
use open_residency.Identity.Links.Types.{
  IdentityLink, NewEvent, IdentityLinkEvent, MergeRecord, Registry, unlinked, same_status,
}

unfoldable pub save_link : Registry → IdentityLink → Registry
save_link s l = record s { links = Dict.put s.links l.id l }

unfoldable pub find_link : Registry → String → Option IdentityLink
find_link s id = Dict.get s.links id

abbrev pub is_current : IdentityLink → Bool
is_current l = not (same_status l.status unlinked)

-- The test of `findCurrentByIdentifier`.
unfoldable pub is_current_for : String → IdentityLink → Bool
is_current_for identifier_ref l = str_eq l.identifier_ref identifier_ref && is_current l

unfoldable pub find_current_by_identifier : Registry → String → Option IdentityLink
find_current_by_identifier s identifier_ref =
    find (is_current_for identifier_ref) (Dict.values s.links)

-- One insertion of the sort by `linkedAt`: before the first entry that was linked later.
unfoldable pub place : IdentityLink → List IdentityLink → List IdentityLink
place l [] = l ∷ []
place l (q ∷ qs) =
    let rest = place l qs in
    if is_le (compare q.linked_at l.linked_at) then q ∷ rest else l ∷ q ∷ qs

unfoldable pub oldest_first : List IdentityLink → List IdentityLink → List IdentityLink
oldest_first sorted [] = sorted
oldest_first sorted (l ∷ ls) = oldest_first (place l sorted) ls

unfoldable pub list_by_person : Registry → String → List IdentityLink
list_by_person s person_ref =
    oldest_first [] (filter (λ l. str_eq l.person_ref person_ref) (Dict.values s.links))

unfoldable pub append_event : Registry → NewEvent → Registry
append_event s e = record s {
  events = s.events ++ record { event = e; seq = length s.events + 1 } ∷ [];
}

abbrev is_filter : Option String → String → Bool
is_filter none x = true
is_filter (some f) x = str_eq x f

abbrev is_text : Option String → String → Bool
is_text none x = false
is_text (some s) x = str_eq s x

abbrev concerns : Option String → NewEvent → Bool
concerns none e = true
concerns (some p) e =
    str_eq e.person_ref p || is_text e.from_person_ref p || is_text e.to_person_ref p

unfoldable pub list_events : Registry → Option String → Option String → List IdentityLinkEvent
list_events s link_id person_ref =
    filter (λ e. is_filter link_id e.event.link_id && concerns person_ref e.event) s.events

unfoldable pub save_merge : Registry → MergeRecord → Registry
save_merge s m = record s { merges = Dict.put s.merges m.id m }

unfoldable pub find_merge : Registry → String → Option MergeRecord
find_merge s id = Dict.get s.merges id
