-- ===== src/Consent/Service/Invariant/Defs.antt =====
-- The invariant of the consent store.
use open_residency.Base.{◌≡◌, String, some, true}
use open_residency.Base.Dict
use open_residency.Base.Dict.{Distinct}
use open_residency.Consent.Service.Types.{ConsentRecord, Store, active, same_status}

abbrev pub IsActive : ConsentRecord → Type 0
IsActive r = same_status r.status active ≡ true

abbrev pub SamePair : ConsentRecord → ConsentRecord → Type 0
SamePair r q = (r.resident_id ≡ q.resident_id) × (r.relying_party ≡ q.relying_party)

-- Each record stands once, under its own identifier, and two active records for the same resident
-- and relying party are one.
pub record Inv (s : Store) : Type 0 where
  pub distinct : Distinct s
  pub own : (k : String) (r : ConsentRecord) → Dict.get s k ≡ some r → r.id ≡ k
  pub one :
      (k j : String) (r q : ConsentRecord)
      → Dict.get s k ≡ some r
      → Dict.get s j ≡ some q
      → IsActive r
      → IsActive q
      → SamePair r q
      → k ≡ j
