-- ===== src/Residency/Lifecycle/Shape.antt =====
-- What the recorded attributes of a relationship look like, whatever requests it went through.
use open_residency.Base.{
  given-trimmed, ◌≡◌, refl, String, true, false, List, [], ◌∷◌, some, none, arith, truthy, trim,
  trimmed, inl, inr, Bool-cases,
}
use open_residency.Residency.Lifecycle.{
  general_residency, former_residency, RelationshipAttributes, TransitionRequest, TransitionOutcome,
  ok, refused, is_terminal, moved, or_else, apply_transition, after, run, relationship_of,
}
use open_residency.Residency.Lifecycle.Diagram.{refuses, IsAttributed, apply_transition-ok_iff}

-- The closing of a relationship, in full.
pub record IsClosed (c : RelationshipAttributes) (at reason by : String) : Type 0 where
  pub former : c.type ≡ former_residency
  pub ended_at : c.ended_at ≡ some at
  pub ended_reason : c.ended_reason ≡ some reason
  pub ended_by : c.ended_by ≡ some by
  pub valid_to : c.valid_to ≡ some at
  pub reason_given : truthy reason ≡ true
  pub actor_given : truthy (trim by) ≡ true

pub record IsOpen (c : RelationshipAttributes) : Type 0 where
  pub general : c.type ≡ general_residency
  pub ended_at : c.ended_at ≡ none
  pub ended_reason : c.ended_reason ≡ none
  pub ended_by : c.ended_by ≡ none
  pub valid_to : c.valid_to ≡ none

pub record IsWellFormed (c : RelationshipAttributes) : Type 0 where
  pub open_part : is_terminal c.status ≡ false → IsOpen c
  pub closed_part :
      is_terminal c.status ≡ true
      → (at : String) × (reason : String) × (by : String) × IsClosed c at reason by

moved-IsWellFormed :
    (at : String) (c : RelationshipAttributes) (req : TransitionRequest)
    → IsAttributed req
    → is_terminal c.status ≡ false
    → IsWellFormed c
    → IsWellFormed (moved at c req)
unfolding moved
moved-IsWellFormed at c req a o w = elim (Bool-cases (is_terminal req.to)) [
  | inl t ↦ rw t (record {
    open_part = λ h. cc;
    closed_part = λ h. (
      at,
      trimmed req.reason,
      req.by,
      record {
        former = refl;
        ended_at = refl;
        ended_reason = refl;
        ended_by = refl;
        valid_to = refl;
        reason_given = given-trimmed req.reason (a.permitted_reason t);
        actor_given = a.actor;
      },
    );
  })
  | inr f ↦ rw f (record {
    open_part = λ h. record {
      general = (w.open_part o).general;
      ended_at = (w.open_part o).ended_at;
      ended_reason = (w.open_part o).ended_reason;
      ended_by = (w.open_part o).ended_by;
      valid_to = (w.open_part o).valid_to;
    };
    closed_part = λ h. cc;
  })
]

step-IsWellFormed :
    (now : String) (c : RelationshipAttributes) (req : TransitionRequest)
    → IsWellFormed c
    → IsWellFormed (after c (apply_transition now c req))
step-IsWellFormed now c req w = elim (Bool-cases (is_terminal c.status)) [
  | inl t ↦ rw (refuses now c req t) w
  | inr o ↦ by_outcome now c req w o (apply_transition now c req) refl
]
  where
    by_outcome :
        (now : String) (c : RelationshipAttributes) (req : TransitionRequest)
        → IsWellFormed c
        → is_terminal c.status ≡ false
        → (out : TransitionOutcome) → apply_transition now c req ≡ out
        → IsWellFormed (after c out)
    by_outcome now c req w o (refused reason) e = w
    by_outcome now c req w o (ok next) e =
        let (p, a, n) = (apply_transition-ok_iff now c next req).0 e in
        rw n (moved-IsWellFormed (or_else req.at now) c req a o w)

run-IsWellFormed_from :
    (c : RelationshipAttributes) (history : List (String × TransitionRequest))
    → IsWellFormed c
    → IsWellFormed (run c history)
unfolding run
run-IsWellFormed_from c [] w = w
run-IsWellFormed_from c ((now, req) ∷ rest) w =
    run-IsWellFormed_from (after c (apply_transition now c req)) rest
      (step-IsWellFormed now c req w)

-- The same of a row written before relationships were recorded, read through `relationship_of`.
pub run-relationship_of-IsWellFormed :
    (created_at : String) (history : List (String × TransitionRequest))
    → IsWellFormed (run (relationship_of none created_at) history)
run-relationship_of-IsWellFormed created_at history =
    run-IsWellFormed_from (relationship_of none created_at) history backfilled
  where
    backfilled : IsWellFormed (relationship_of none created_at)
    backfilled =
        unfold relationship_of is_terminal in
        record { open_part = λ h. ground arith; closed_part = λ h. cc }
