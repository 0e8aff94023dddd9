-- ===== src/Residency/Lifecycle/Privacy.antt =====
-- The type and the purpose of a relationship are recorded and never read.
use open_residency.Base.{◌≡◌, refl, ap, String, List, [], ◌∷◌, arith, ◌⊎◌, inl, inr, if◌then◌else◌}
use open_residency.Residency.Lifecycle.{
  RelationshipStatus, RelationshipType, former_residency, RelationshipAttributes, TransitionRequest,
  TransitionOutcome, ok, refused, is_terminal, moved, apply_transition, run, after,
}

-- The same record with another type and another purpose.
abbrev pub disguise : RelationshipType → String → RelationshipAttributes → RelationshipAttributes
disguise t p c = record c { type = t; purpose = p }

-- The same outcome, with the record that it carries disguised.
abbrev pub disguise_outcome : RelationshipType → String → TransitionOutcome → TransitionOutcome
disguise_outcome t p (ok next) = ok (disguise t p next)
disguise_outcome t p (refused reason) = refused reason

-- What an outcome decides: a refusal's text, or the new status.
abbrev pub verdict : TransitionOutcome → String ⊎ RelationshipStatus
verdict (ok next) = inr next.status
verdict (refused reason) = inl reason

abbrev pub verdicts :
    RelationshipAttributes → List (String × TransitionRequest) → List (String ⊎ RelationshipStatus)
verdicts c [] = []
verdicts c ((now, req) ∷ rest) =
    verdict (apply_transition now c req) ∷ verdicts (after c (apply_transition now c req)) rest

apply_transition-disguise :
    (now p : String) (t : RelationshipType) (c : RelationshipAttributes) (req : TransitionRequest)
    → apply_transition now (disguise t p c) req
      ≡ disguise_outcome
          (if is_terminal req.to then former_residency else t)
          p
          (apply_transition now c req)
unfolding apply_transition moved
apply_transition-disguise now p t c req = ground arith

abbrev kept : RelationshipType → RelationshipType → TransitionOutcome → RelationshipType
kept u t (ok next) = u
kept u t (refused reason) = t

after-disguise :
    (u t : RelationshipType) (p : String) (c : RelationshipAttributes) (o : TransitionOutcome)
    → after (disguise t p c) (disguise_outcome u p o) ≡ disguise (kept u t o) p (after c o)
after-disguise u t p c (ok next) = refl
after-disguise u t p c (refused reason) = refl

verdict-disguise :
    (u : RelationshipType) (p : String) (o : TransitionOutcome)
    → verdict (disguise_outcome u p o) ≡ verdict o
verdict-disguise u p (ok next) = refl
verdict-disguise u p (refused reason) = refl

verdicts-disguise :
    (t : RelationshipType) (p : String) (c : RelationshipAttributes)
    (history : List (String × TransitionRequest))
    → verdicts (disguise t p c) history ≡ verdicts c history
verdicts-disguise t p c [] = refl
verdicts-disguise t p c ((now, req) ∷ rest) =
    let u = if is_terminal req.to then former_residency else t in
    let o = apply_transition now c req in
    rw (apply_transition-disguise now p t c req) (
      rw (verdict-disguise u p o, after-disguise u t p c o)
        (ap (◌∷◌ (verdict o)) (verdicts-disguise (kept u t o) p (after c o) rest)))

run-disguise :
    (t : RelationshipType) (p : String) (c : RelationshipAttributes)
    (history : List (String × TransitionRequest))
    → (u : RelationshipType) × (run (disguise t p c) history ≡ disguise u p (run c history))
unfolding run
run-disguise t p c [] = (t, refl)
run-disguise t p c ((now, req) ∷ rest) =
    let u = if is_terminal req.to then former_residency else t in
    let o = apply_transition now c req in
    rw (apply_transition-disguise now p t c req)
      (rw (after-disguise u t p c o) (run-disguise (kept u t o) p (after c o) rest))

-- Give a relationship any other type and purpose: every request of every history is decided as
-- before, with the same refusals and statuses, and in the end the records differ in those two fields
-- alone, the purpose being the one given.
pub run_never_reads :
    (t : RelationshipType) (p : String) (c : RelationshipAttributes)
    (history : List (String × TransitionRequest))
    → (verdicts (disguise t p c) history ≡ verdicts c history)
      × ((u : RelationshipType) × (run (disguise t p c) history ≡ disguise u p (run c history)))
run_never_reads t p c history = (verdicts-disguise t p c history, run-disguise t p c history)
