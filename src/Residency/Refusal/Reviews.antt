-- ===== src/Residency/Refusal/Reviews.antt =====
-- The review that a refusal shows, beside the history of the reviews recorded in refusal.ts.
use open_residency.Base.{
  ◌≡◌, inl, inr, refl, sym, ap, ◌∙◌, String, Option, none, some, List, [], ◌∷◌, if◌then◌else◌,
  str_eq, eq_iff, Bool-cases,
}
use open_residency.Base.Dict
use open_residency.Base.Dict.{get-put}
use open_residency.Residency.Refusal.{
  ReviewStatus, RefusalRecord, Review, RefusalStore, save, find_by_reference, reviewed,
  review_found, record_review,
}
use open_residency.Residency.Refusal.Decisions.{Call, save_call, review_call, step, run}

-- What is known of the review of a refusal.
pub record Shown : Type 0 where
  pub status : ReviewStatus
  pub by : Option String
  pub at : Option String
  pub note : Option String

abbrev pub shown : Option RefusalRecord → Option Shown
shown none = none
shown (some r) = some (record {
  status = r.review_status;
  by = r.reviewed_by;
  at = r.reviewed_at;
  note = r.review_note;
})

-- A review of a refusal that is there; a reference that is unknown stays unknown.
abbrev pub renewed : Review → Option Shown → Option Shown
renewed v none = none
renewed v (some w) =
    some (record { status = v.status; by = some v.by; at = some v.at; note = v.note })

-- What the calls, read in their order, leave to be shown under a reference.
abbrev pub after_call : String → Call → Option Shown → Option Shown
after_call reference (save_call r) w = if str_eq r.reference reference then shown (some r) else w
after_call reference (review_call k v) w = if str_eq k reference then renewed v w else w

abbrev pub latest : String → List Call → Option Shown → Option Shown
latest reference [] w = w
latest reference (c ∷ cs) w = latest reference cs (after_call reference c w)

review_found-shown :
    (s : RefusalStore) (k reference : String) (v : Review) (o : Option RefusalRecord)
    → Dict.get s.by_reference k ≡ o
    → shown (Dict.get (review_found s k v o).1.by_reference reference) ≡ (
        if str_eq k reference
        then renewed v (shown (Dict.get s.by_reference reference))
        else shown (Dict.get s.by_reference reference))
review_found-shown s k reference v none e = elim (Bool-cases (str_eq k reference)) [
  | inr f ↦ rw f refl
  | inl t ↦ rw (t, sym ((eq_iff k reference).0 t), e) refl
]
review_found-shown s k reference v (some r) e = elim (Bool-cases (str_eq k reference)) [
  | inr f ↦ rw (get-put s.by_reference k reference (reviewed r v), f) refl
  | inl t ↦
      rw (get-put s.by_reference k reference (reviewed r v), t, sym ((eq_iff k reference).0 t), e)
        refl
]

step-shown :
    (c : Call) (s : RefusalStore) (reference : String)
    → shown (find_by_reference (step c s) reference)
      ≡ after_call reference c (shown (find_by_reference s reference))
unfolding step save record_review find_by_reference
step-shown (save_call r) s reference = elim (Bool-cases (str_eq r.reference reference)) [
  | inl t ↦ rw (get-put s.by_reference r.reference reference r, t) refl
  | inr f ↦ rw (get-put s.by_reference r.reference reference r, f) refl
]
step-shown (review_call k v) s reference =
    review_found-shown s k reference v (Dict.get s.by_reference k) refl

run-latest :
    (cs : List Call) (s : RefusalStore) (reference : String)
    → shown (find_by_reference (run cs s) reference)
      ≡ latest reference cs (shown (find_by_reference s reference))
unfolding run
run-latest [] s reference = refl
run-latest (c ∷ cs) s reference =
    run-latest cs (step c s) reference ∙ ap (latest reference cs) (step-shown c s reference)

answer-shown :
    (s : RefusalStore) (reference : String) (v : Review)
    → shown (record_review s reference v).0 ≡ renewed v (shown (find_by_reference s reference))
unfolding record_review
answer-shown s reference v = of_found (find_by_reference s reference)
  where
    of_found :
        (o : Option RefusalRecord) → shown (review_found s reference v o).0 ≡ renewed v (shown o)
    of_found none = refl
    of_found (some r) = refl

-- After any refusals saved and reviews recorded in any order, what a refusal shows of its review,
-- the status, the reviewer, the time and the note, is what the calls on its reference leave: the
-- last review, or what the last record saved there says, and nothing for a reference that is
-- unknown; the answer to a further review shows that review, or nothing where the reference is
-- unknown.
pub run-shown :
    (cs : List Call) (s : RefusalStore) (reference : String) (v : Review)
    → (shown (find_by_reference (run cs s) reference)
        ≡ latest reference cs (shown (find_by_reference s reference)))
      × (shown (record_review (run cs s) reference v).0
          ≡ renewed v (latest reference cs (shown (find_by_reference s reference))))
run-shown cs s reference v = (
  run-latest cs s reference,
  answer-shown (run cs s) reference v ∙ ap (renewed v) (run-latest cs s reference),
)
