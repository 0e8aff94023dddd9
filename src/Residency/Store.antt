-- ===== src/Residency/Store.antt =====
-- src/core/residency/ports.ts: the record of a resident and the in-memory store. A `Map` is a `Dict`;
-- a method returns the store with its result.
pub mod Records
pub mod Erasure
mod Tests
pub mod Lists
use Prim.Native.String.{compare}
use text.Mathlib.Text.{is_le}
use open_residency.Base.{
  ℕ, ◌+◌, Bool, String, Option, none, some, List, [], if◌then◌else◌, str_eq, ◌&◌, not, true, false,
  find, filter, ◌∷◌, zero, suc, length, truthy,
}
use open_residency.Base.Dict
use open_residency.Base.Dict.{Dict}
use open_residency.Residency.Lifecycle.{RelationshipAttributes}
use open_residency.Credentials.Status.{
  CredentialStatusRecord, StatusPurpose, revocation, suspension,
}
use open_residency.Credentials.StatusList.{StatusList, new, default_size_bits}
use open_residency.Proofing.Residence.Types.{
  ResidenceAssuranceLevel, ResidenceEvidenceMethod, ResidenceAddress, ResidenceMode, AttesterType,
}

pub data BindingMethod : Type 0 where
  authoritative_authentication face_match fingerprint_match attended_comparison no_binding :
      BindingMethod

-- A match score: a number, as a fraction of natural numbers.
pub record Score : Type 0 where
  pub numerator : ℕ
  pub denominator : ℕ

pub record ApplicantBinding : Type 0 where
  pub method : BindingMethod
  pub ref : Option String
  pub verified_at : Option String
  pub score : Option Score

pub record Residence : Type 0 where
  pub assurance_level : ResidenceAssuranceLevel
  pub method : ResidenceEvidenceMethod
  pub unit : Option String
  pub address : Option ResidenceAddress
  pub as_of : Option String
  pub since : Option String
  pub mode : Option ResidenceMode
  pub attester_type : Option AttesterType
  pub intent_declared : Option Bool

pub record Person : Type 0 where
  pub full_name : Option String
  pub given_name : Option String
  pub family_name : Option String
  pub date_of_birth : Option String
  pub gender : Option String

pub record ResidentRecord : Type 0 where
  pub id : String
  pub resident_id : String
  pub subject_ref : String
  pub country_code : String
  pub subnational_unit : String
  pub provider_code : String
  pub assurance_level : String
  pub binding : ApplicantBinding
  pub residence : Residence
  pub provisional : Bool
  pub relationship : Option RelationshipAttributes
  pub credential_status : Option CredentialStatusRecord
  pub erased_at : Option String
  pub credential_id : Option String
  pub status_list_index : ℕ
  pub created_at : String
  pub person : Person

pub record Store : Type 0 where
  pub residents : Dict ResidentRecord
  pub by_resident_id : Dict ResidentRecord
  pub counters : Dict ℕ
  pub status_lists : Dict StatusList

abbrev pub empty : Store
empty = record { residents = []; by_resident_id = []; counters = []; status_lists = [] }

unfoldable pub find_by_subject_ref : Store → String → Option ResidentRecord
find_by_subject_ref s subject_ref = Dict.get s.residents subject_ref

unfoldable pub find_by_resident_id : Store → String → Option ResidentRecord
find_by_resident_id s resident_id = Dict.get s.by_resident_id resident_id

-- The entry of `residents` under a reference that the record no longer carries is dropped.
unfoldable pub rekeyed :
    Dict ResidentRecord → Option ResidentRecord → ResidentRecord → Dict ResidentRecord
rekeyed residents none r = residents
rekeyed residents (some previous) r =
    if not (str_eq previous.subject_ref r.subject_ref)
    then Dict.delete residents previous.subject_ref
    else residents

unfoldable pub save : Store → ResidentRecord → Store
unfolding rekeyed
save s r = record s {
  residents =
      Dict.put (rekeyed s.residents (Dict.get s.by_resident_id r.resident_id) r) r.subject_ref r;
  by_resident_id = Dict.put s.by_resident_id r.resident_id r;
}

abbrev pub no_person : Person
no_person = record {
  full_name = none;
  given_name = none;
  family_name = none;
  date_of_birth = none;
  gender = none;
}

-- What erasure leaves of a record.
unfoldable pub erased_record : ResidentRecord → String → String → ResidentRecord
erased_record existing tombstone at = record existing {
  subject_ref = tombstone;
  person = no_person;
  residence = record (existing.residence) { address = none };
  erased_at = some at;
}

unfoldable pub erase : Store → String → String → String → Option ResidentRecord × Store
unfolding erased_record
erase s resident_id tombstone at = elim (Dict.get s.by_resident_id resident_id) [
  | none ↦ (none, s)
  | some existing ↦ (
    some (erased_record existing tombstone at),
    record s {
      residents =
          Dict.put (Dict.delete s.residents existing.subject_ref) tombstone
            (erased_record existing tombstone at);
      by_resident_id = Dict.put s.by_resident_id resident_id (erased_record existing tombstone at);
    },
  )
]

abbrev pub count_of : Option ℕ → ℕ
count_of none = 0
count_of (some n) = n

unfoldable pub next_status_index : Store → String → ℕ × Store
next_status_index s country_code =
    let n = count_of (Dict.get s.counters country_code) in
    (n, record s { counters = Dict.put s.counters country_code (n + 1) })

abbrev pub purpose_word : StatusPurpose → String
purpose_word revocation = "revocation"
purpose_word suspension = "suspension"

abbrev pub list_key : String → StatusPurpose → String
list_key country_code purpose = country_code & ":" & purpose_word purpose

abbrev pub or_new : Option StatusList → StatusList
or_new none = new default_size_bits
or_new (some l) = l

-- A list that is asked for the first time is created and kept.
unfoldable pub load_status_list : Store → String → StatusPurpose → StatusList × Store
load_status_list s country_code purpose =
    let l = or_new (Dict.get s.status_lists (list_key country_code purpose)) in
    (l, record s { status_lists = Dict.put s.status_lists (list_key country_code purpose) l })

unfoldable pub save_status_list : Store → String → StatusList → StatusPurpose → Store
save_status_list s country_code l purpose = record s {
  status_lists = Dict.put s.status_lists (list_key country_code purpose) l;
}

-- `r.credentialId === credentialId`
abbrev is_credential : Option String → String → Bool
is_credential none k = false
is_credential (some j) k = str_eq j k

unfoldable pub find_by_credential_id : Store → String → Option ResidentRecord
find_by_credential_id s credential_id =
    find (λ r. is_credential r.credential_id credential_id) (Dict.values s.residents)

-- The options of `list`; the comparison of creation times is on their texts.
pub record ListOptions : Type 0 where
  pub only_country : Option String
  pub limit : Option ℕ
  pub offset : Option ℕ
  pub only_provisional : Option Bool

abbrev country_admits : Option String → ResidentRecord → Bool
country_admits none r = true
country_admits (some c) r = if truthy c then str_eq r.country_code c else true

abbrev provisional_admits : Option Bool → ResidentRecord → Bool
provisional_admits none r = true
provisional_admits (some true) r = r.provisional
provisional_admits (some false) r = not r.provisional

-- One insertion of the sort, newest first: before the first entry that was not created later.
unfoldable pub place : ResidentRecord → List ResidentRecord → List ResidentRecord
place r [] = r ∷ []
place r (q ∷ qs) =
    let rest = place r qs in
    if is_le (compare q.created_at r.created_at) then r ∷ q ∷ qs else q ∷ rest

unfoldable pub newest_first : List ResidentRecord → List ResidentRecord → List ResidentRecord
unfolding place
newest_first sorted [] = sorted
newest_first sorted (r ∷ rs) = newest_first (place r sorted) rs

abbrev skip : ℕ → List ResidentRecord → List ResidentRecord
skip n [] = []
skip zero (r ∷ rs) = r ∷ rs
skip (suc n) (r ∷ rs) = skip n rs

abbrev first : ℕ → List ResidentRecord → List ResidentRecord
first n [] = []
first zero (r ∷ rs) = []
first (suc n) (r ∷ rs) = r ∷ first n rs

abbrev number_or : Option ℕ → ℕ → ℕ
number_or none d = d
number_or (some n) d = n

unfoldable pub list : Store → ListOptions → ℕ × List ResidentRecord
unfolding newest_first
list s opts =
    let items = newest_first [] (
      filter (provisional_admits opts.only_provisional)
        (filter (country_admits opts.only_country) (Dict.values s.by_resident_id))) in
    (length items, first (number_or opts.limit 50) (skip (number_or opts.offset 0) items))
