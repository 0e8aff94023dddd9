-- ===== src/Residency/Lifecycle/Diagram.antt =====
-- Which transitions of a relationship are accepted, against the diagram of ORCS §6.2.
use open_residency.Base.{
  ◌≡◌, refl, sym, ap, ◌∙◌, ◌↔◌, ◌&◌, String, true, false, List, [], ◌∷◌, arith, given, truthy, trim,
}
use open_residency.Residency.Lifecycle.{
  RelationshipStatus, active, suspended, ended, revoked, expired, RelationshipAttributes,
  TransitionRequest, ok, refused, is_terminal, can_transition, moved, or_else, apply_transition,
  run, word,
}

-- The diagram: a relationship is suspended and reinstated, and closed from either open state.
pub data Open : RelationshipStatus → Type 0 where
  active_open : Open active
  suspended_open : Open suspended

pub data Closed : RelationshipStatus → Type 0 where
  ended_closed : Closed ended
  revoked_closed : Closed revoked
  expired_closed : Closed expired

pub data Permitted : RelationshipStatus → RelationshipStatus → Type 0 where
  suspends : Permitted active suspended
  reinstates : Permitted suspended active
  closes : {s t : RelationshipStatus} → Open s → Closed t → Permitted s t

ruleset edges = (
  suspends, reinstates, closes, active_open, suspended_open, ended_closed, revoked_closed,
  expired_closed,
)

can_transition-Permitted : (s t : RelationshipStatus) → can_transition s t ≡ true → Permitted s t
unfolding can_transition
can_transition-Permitted s t h = grind (arith, edges)

Permitted-can_transition : {s t : RelationshipStatus} → Permitted s t → can_transition s t ≡ true
unfolding can_transition
Permitted-can_transition suspends = refl
Permitted-can_transition reinstates = refl
Permitted-can_transition (closes active_open ended_closed) = refl
Permitted-can_transition (closes active_open revoked_closed) = refl
Permitted-can_transition (closes active_open expired_closed) = refl
Permitted-can_transition (closes suspended_open ended_closed) = refl
Permitted-can_transition (closes suspended_open revoked_closed) = refl
Permitted-can_transition (closes suspended_open expired_closed) = refl

-- What a request needs besides an edge of the diagram.
pub record IsAttributed (req : TransitionRequest) : Type 0 where
  pub permitted_reason : is_terminal req.to ≡ true → given req.reason ≡ true
  pub actor : truthy (trim req.by) ≡ true

can_transition-not-is_terminal :
    (s t : RelationshipStatus) → can_transition s t ≡ true → is_terminal s ≡ false
unfolding can_transition is_terminal
can_transition-not-is_terminal s t h = ground arith

module _ (now : String) (c : RelationshipAttributes) (req : TransitionRequest) where
  -- `apply_transition` accepts by these three tests, and the guard against reactivation never
  -- decides.
  accepted_of :
      can_transition c.status req.to ≡ true
      → IsAttributed req
      → apply_transition now c req ≡ ok (moved (or_else req.at now) c req)
  unfolding apply_transition
  accepted_of p a =
      ground (arith, a.permitted_reason, can_transition-not-is_terminal c.status req.to p)

  needs_of :
      (next : RelationshipAttributes)
      → apply_transition now c req ≡ ok next
      → (can_transition c.status req.to ≡ true)
        × IsAttributed req
        × (next ≡ moved (or_else req.at now) c req)
  unfolding apply_transition
  needs_of next e = (
    ground arith,
    record { permitted_reason = λ t. ground arith; actor = ground arith },
    ground arith,
  )

-- A request is accepted exactly when the diagram has the edge, a closing request gives a reason that
-- is not blank and the actor is not blank; and the new attributes are those that `moved` writes.
pub apply_transition-ok_iff :
    (now : String) (c next : RelationshipAttributes) (req : TransitionRequest)
    → (apply_transition now c req ≡ ok next)
      ↔ (Permitted c.status req.to × IsAttributed req × (next ≡ moved (or_else req.at now) c req))
apply_transition-ok_iff now c next req = (
  λ e.
      let (p, a, n) = needs_of now c req next e in
      (can_transition-Permitted c.status req.to p, a, n),
  λ (p, a, n). accepted_of now c req (Permitted-can_transition p) a ∙ ap ok (sym n),
)

closed_is_terminal :
    (s : RelationshipStatus)
    → is_terminal s ≡ true
    → (t : RelationshipStatus) → can_transition s t ≡ false
unfolding is_terminal can_transition
closed_is_terminal s h t = ground arith

pub refuses :
    (now : String) (c : RelationshipAttributes) (req : TransitionRequest)
    → is_terminal c.status ≡ true
    → apply_transition now c req ≡ refused ("RELATIONSHIP_ALREADY_" & word c.status)
unfolding apply_transition
refuses now c req h = rw (closed_is_terminal c.status h req.to, h)

stays :
    (c : RelationshipAttributes) (history : List (String × TransitionRequest))
    → is_terminal c.status ≡ true
    → run c history ≡ c
unfolding run
stays c [] h = refl
stays c ((now, req) ∷ rest) h = rw (refuses now c req h) (stays c rest h)

-- Once ended, revoked or expired, a relationship is refused every request, with a text that names
-- its status, and no history of requests changes any of its attributes.
pub run-is_terminal :
    (c : RelationshipAttributes) (history : List (String × TransitionRequest))
    → is_terminal c.status ≡ true
    → ((now : String) (req : TransitionRequest)
        → apply_transition now c req ≡ refused ("RELATIONSHIP_ALREADY_" & word c.status))
      × (run c history ≡ c)
run-is_terminal c history h = (λ now req. refuses now c req h, stays c history h)
