-- ===== src/Consent/Service/Types.antt =====
-- The records of consent.ts, its store and the reading operations.
use Prim.Native.String.{compare}
use text.Mathlib.Text.{is_le}
use open_residency.Base.{
  ℕ, Bool, false, ◌&&◌, not, String, Option, none, some, List, [], ◌∷◌, map, if◌then◌else◌, leb,
  ◌==◌, truthy, trim, str_eq, ◌&◌, find, filter, ltb,
}
use open_residency.Base.Dict
use open_residency.Base.Dict.{Dict}

pub data ConsentStatus : Type 0 where
  active revoked expired replaced : ConsentStatus

abbrev pub status_index : ConsentStatus → ℕ
status_index active = 0
status_index revoked = 1
status_index expired = 2
status_index replaced = 3

abbrev pub same_status : ConsentStatus → ConsentStatus → Bool
same_status a b = status_index a == status_index b

pub data EvidenceMethod : Type 0 where
  sso_consent_screen operator_recorded signed_form ussd_confirmation imported_record unrecorded :
      EvidenceMethod

pub record ConsentEvidence : Type 0 where
  pub method : EvidenceMethod
  pub at : String
  pub reference : String
  pub captured_by : Option String

pub record ConsentRecord : Type 0 where
  pub id : String
  pub subject_ref : String
  pub resident_id : String
  pub relying_party : String
  pub relying_party_name : Option String
  pub purpose : String
  pub scopes : List String
  pub status : ConsentStatus
  pub granted_at : String
  pub expires_at : Option String
  pub revoked_at : Option String
  pub receipt_id : String
  pub controller : String
  pub processor : Option String
  pub data_categories : List String
  pub evidence : ConsentEvidence
  pub legal_basis_reference : String
  pub version : ℕ
  pub supersedes_id : Option String
  pub superseded_by_id : Option String
  pub withdrawn_by : Option String
  pub grant_id : Option String

-- `InMemoryConsentStore`: the map from identifiers to records, in the order of insertion.
abbrev pub Store : Type 0
Store = Dict ConsentRecord

unfoldable pub save : Store → ConsentRecord → Store
save s r = Dict.put s r.id r

unfoldable pub update : Store → ConsentRecord → Store
update s r = Dict.put s r.id r

unfoldable pub find_by_id : Store → String → Option ConsentRecord
find_by_id s id = Dict.get s id

-- The test of `findActive` in the store.
unfoldable pub is_active_for : String → String → ConsentRecord → Bool
is_active_for resident_id relying_party r =
    str_eq r.resident_id resident_id
    && str_eq r.relying_party relying_party
    && same_status r.status active

unfoldable pub stored_active : Store → String → String → Option ConsentRecord
stored_active s resident_id relying_party =
    find (is_active_for resident_id relying_party) (Dict.values s)

unfoldable pub stored_by_resident : Store → String → List ConsentRecord
stored_by_resident s resident_id = filter (λ r. str_eq r.resident_id resident_id) (Dict.values s)

-- `[...xs].sort().join(' ')`
unfoldable pub insert : String → List String → List String
insert x [] = x ∷ []
insert x (y ∷ ys) = let rest = insert x ys in if is_le (compare x y) then x ∷ y ∷ ys else y ∷ rest

unfoldable pub sort : List String → List String
unfolding insert
sort [] = []
sort (x ∷ xs) = insert x (sort xs)

unfoldable pub join : List String → String
join [] = ""
join (x ∷ []) = x
join (x ∷ y ∷ xs) = x & " " & join (y ∷ xs)

unfoldable pub same_scopes : List String → List String → Bool
unfolding sort join
same_scopes a b = str_eq (join (sort a)) (join (sort b))

module _ (date_parse : String → Option ℕ) where
  abbrev expired_at : Option ℕ → ℕ → Bool
  expired_at none now = false
  expired_at (some at) now = leb at now

  unfoldable pub is_expired : ConsentRecord → ℕ → Bool
  is_expired r now = elim r.expires_at [
    | none ↦ false
    | some s ↦ if truthy s then expired_at (date_parse s) now else false
  ]

  -- `findActive` of the service: an expired record is written back as such.
  abbrev pub settle : Store → Option ConsentRecord → ℕ → Option ConsentRecord × Store
  settle s none now = (none, s)
  settle s (some r) now =
      if not (is_expired r now)
      then (some r, s)
      else (none, update s (record r { status = expired }))

  unfoldable pub find_active : Store → String → String → ℕ → Option ConsentRecord × Store
  find_active s resident_id relying_party now =
      settle s (stored_active s resident_id relying_party) now

  -- `listByResident` of the service settles what it returns, and writes nothing.
  unfoldable pub list_by_resident : Store → String → ℕ → List ConsentRecord
  list_by_resident s resident_id now =
      map
        (λ r.
          if same_status r.status active && is_expired r now
          then record r { status = expired }
          else r)
        (stored_by_resident s resident_id)

  -- The loop of `expireDue`.
  unfoldable pub expire_each : Store → List ConsentRecord → ℕ → List ConsentRecord × Store
  expire_each s [] now = ([], s)
  expire_each s (r ∷ rs) now =
      let due = same_status r.status active && is_expired r now in
      let (changed, s') =
        expire_each (if due then update s (record r { status = expired }) else s) rs now in
      (if due then record r { status = expired } ∷ changed else changed, s')

  unfoldable pub expire_due : Store → String → ℕ → List ConsentRecord × Store
  expire_due s resident_id now = expire_each s (stored_by_resident s resident_id) now

-- `Date.parse(a) > Date.parse(b)`: false where one of the two cannot be read.
abbrev later_than : Option ℕ → Option ℕ → Bool
later_than (some a) (some b) = ltb b a
later_than _ _ = false

module _ (date_parse : String → Option ℕ) where
  -- The reduction of `governing`: of two granted at the same time, the earlier entry stays.
  unfoldable pub latest : ConsentRecord → List ConsentRecord → ConsentRecord
  latest newest [] = newest
  latest newest (r ∷ rs) =
      latest
        (if later_than (date_parse r.granted_at) (date_parse newest.granted_at) then r else newest)
        rs

  abbrev latest_of : List ConsentRecord → Option ConsentRecord
  latest_of [] = none
  latest_of (r ∷ rs) = some (latest r rs)

  unfoldable pub governing : Store → String → String → Option ConsentRecord
  governing s resident_id relying_party = latest_of (
      filter (λ r. str_eq r.relying_party relying_party && not (same_status r.status replaced))
        (stored_by_resident s resident_id))

abbrev pub revoked_record : ConsentRecord → Option String → String → ConsentRecord
revoked_record r withdrawn_by at = record r {
  status = revoked;
  revoked_at = some at;
  withdrawn_by = elim withdrawn_by [
    | none ↦ r.withdrawn_by
    | some w ↦ if truthy (trim w) then some (trim w) else r.withdrawn_by
  ];
}

-- `revoke`: only an active record moves.
unfoldable pub revoke_found :
    Store → Option ConsentRecord → Option String → String → Option ConsentRecord × Store
revoke_found s none withdrawn_by at = (none, s)
revoke_found s (some r) withdrawn_by at =
    if not (same_status r.status active)
    then (some r, s)
    else (some (revoked_record r withdrawn_by at), update s (revoked_record r withdrawn_by at))

unfoldable pub revoke : Store → String → Option String → String → Option ConsentRecord × Store
unfolding revoke_found
revoke s id withdrawn_by at = revoke_found s (Dict.get s id) withdrawn_by at
