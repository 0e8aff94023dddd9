-- ===== src/Residency/Lifecycle/Tests.antt =====
-- Runs of lifecycle.ts on concrete relationships.
use open_residency.Base.{trim, ◌≡◌, ◌↔◌, refl, String, some, none, List, [], ◌∷◌}
use open_residency.Residency.Lifecycle.{
  RelationshipType, RelationshipAttributes, TransitionRequest, NewRelationship, suspended, ended,
  former_residency, ok, refused, apply_transition, is_terminal, can_transition, moved, or_else,
  new_relationship, relationship_of, run,
}
use open_residency.Residency.Lifecycle.Diagram.{
  Permitted, IsAttributed, apply_transition-ok_iff, run-is_terminal,
}
use open_residency.Residency.Lifecycle.Shape.{IsWellFormed, run-relationship_of-IsWellFormed}
use open_residency.Residency.Lifecycle.Privacy.{disguise, verdicts, run_never_reads}

abbrev enrolment : NewRelationship
enrolment = record {
  purpose = "study";
  policy_version = "sha256:ab";
  evidence_refs = "doc:1" ∷ [];
  assurance_profile_id = none;
  issuer = "did:web:ng";
  decided_by = "op:7";
  submitted_by = some "";
  at = "2026-01-01";
}

abbrev suspension_request : TransitionRequest
suspension_request = record { to = suspended; by = "op:7"; reason = none; at = none }

abbrev ending : TransitionRequest
ending = record { to = ended; by = "op:9"; reason = some " moved away "; at = some "2026-03-01" }

abbrev blank_ending : TransitionRequest
blank_ending = record { to = ended; by = "op:9"; reason = some "  "; at = none }

abbrev history : List (String × TransitionRequest)
history =
    ("t1", suspension_request)
    ∷ ("t2", blank_ending)
    ∷ ("t3", ending)
    ∷ ("t4", suspension_request)
    ∷ []

abbrev closed : RelationshipAttributes
closed = record (new_relationship enrolment) {
  type = former_residency;
  status = ended;
  valid_to = some "2026-03-01";
  ended_at = some "2026-03-01";
  ended_reason = some "moved away";
  ended_by = some "op:9";
  decided_by = "op:9";
  decided_at = "2026-03-01";
}

blank_reason_refused :
    apply_transition "t" (new_relationship enrolment) blank_ending
    ≡ refused "REASON_REQUIRED_FOR_ENDED"
unfolding apply_transition can_transition is_terminal new_relationship trim
blank_reason_refused = refl

history_closes : run (new_relationship enrolment) history ≡ closed
unfolding run apply_transition can_transition is_terminal moved new_relationship trim
history_closes = refl

apply_transition-ok_iff_example :
    (apply_transition "t" (new_relationship enrolment) ending ≡ ok closed) ↔ (
      Permitted (new_relationship enrolment).status ended
      × IsAttributed ending
      × (closed ≡ moved (or_else ending.at "t") (new_relationship enrolment) ending))
apply_transition-ok_iff_example =
    apply_transition-ok_iff "t" (new_relationship enrolment) closed ending

run-is_terminal_example :
    ((now : String) (req : TransitionRequest)
      → apply_transition now closed req ≡ refused "RELATIONSHIP_ALREADY_ENDED")
    × (run closed history ≡ closed)
unfolding is_terminal
run-is_terminal_example = run-is_terminal closed history refl

run-relationship_of-IsWellFormed_example : IsWellFormed (run (relationship_of none "2020") history)
run-relationship_of-IsWellFormed_example = run-relationship_of-IsWellFormed "2020" history

run_never_reads_example :
    (verdicts (disguise former_residency "work" (new_relationship enrolment)) history
      ≡ verdicts (new_relationship enrolment) history)
    × ((u : RelationshipType) × (run
            (disguise former_residency "work" (new_relationship enrolment))
            history
          ≡ disguise u "work" (run (new_relationship enrolment) history)))
run_never_reads_example =
    run_never_reads former_residency "work" (new_relationship enrolment) history
