-- ===== src/Residency/Refusal.antt =====
-- src/core/residency/refusal.ts: the records of refusals and their review, in the in-memory store. A
-- reference is made of the bytes that the generator draws.
use open_residency.Base.{
  ℕ, zero, suc, ◌+◌, ◌%◌, ◌==◌, String, Option, none, some, List, [], ◌∷◌, ◌&◌, if◌then◌else◌, map,
}
use open_residency.Base.Dict
use open_residency.Base.Dict.{Dict}
pub mod Decisions
pub mod Reviews
mod Tests

pub data ReviewStatus : Type 0 where
  unreviewed requested upheld overturned : ReviewStatus

-- What was decided, and how it is contested.
pub record RefusalDecision : Type 0 where
  pub country_code : String
  pub subnational_unit : String
  pub subject_ref : Option String
  pub reason : String
  pub decided_by : String
  pub submitted_by : Option String
  pub appeal_path : String
  pub human_review_path : Option String
  pub refused_at : String

pub record RefusalRecord : Type 0 where
  pub reference : String
  pub decision : RefusalDecision
  pub review_status : ReviewStatus
  pub reviewed_by : Option String
  pub reviewed_at : Option String
  pub review_note : Option String

pub record Review : Type 0 where
  pub status : ReviewStatus
  pub by : String
  pub at : String
  pub note : Option String

pub record RefusalStore : Type 0 where
  pub by_reference : Dict RefusalRecord

abbrev pub no_refusals : RefusalStore
no_refusals = record { by_reference = [] }

unfoldable pub save : RefusalStore → RefusalRecord → RefusalRecord × RefusalStore
save s r = (r, record { by_reference = Dict.put s.by_reference r.reference r })

unfoldable pub find_by_reference : RefusalStore → String → Option RefusalRecord
find_by_reference s reference = Dict.get s.by_reference reference

abbrev pub reviewed : RefusalRecord → Review → RefusalRecord
reviewed r review = record r {
  review_status = review.status;
  reviewed_by = some review.by;
  reviewed_at = some review.at;
  review_note = review.note;
}

abbrev pub review_found :
    RefusalStore → String → Review → Option RefusalRecord → Option RefusalRecord × RefusalStore
review_found s reference review none = (none, s)
review_found s reference review (some r) = (
  some (reviewed r review),
  record { by_reference = Dict.put s.by_reference reference (reviewed r review) },
)

unfoldable pub record_review : RefusalStore → String → Review → Option RefusalRecord × RefusalStore
record_review s reference review = review_found s reference review (find_by_reference s reference)
