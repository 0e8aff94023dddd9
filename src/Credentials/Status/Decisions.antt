-- ===== src/Credentials/Status/Decisions.antt =====
-- Which status requests are accepted, and what ORCS §10 asks to be preserved of a decision.
use open_residency.Base.{
  ◌≡◌, refl, ◌↔◌, sym, ap₂, given-trimmed, ◌∙◌, String, true, some, arith, given, trimmed, truthy,
  List,
}
use open_residency.Credentials.Status.{
  CredentialStatus, issued, active, suspended, revoked, expired, replaced, CredentialStatusRecord,
  CredentialTransitionRequest, Change, ok, is_terminal_credential_status, can_transition_credential,
  or_else, publish, recorded, apply_credential_transition,
}

-- The fields that a request must give, for the status that it asks for.
pub record IsAccountable (req : CredentialTransitionRequest) : Type 0 where
  pub reason : is_terminal_credential_status req.to ≡ true → given req.reason ≡ true
  pub authority : is_terminal_credential_status req.to ≡ true → given req.authority ≡ true
  pub appeal_path : req.to ≡ revoked → given req.appeal_path ≡ true
  pub superseded_by : req.to ≡ replaced → given req.superseded_by ≡ true
  pub suspending_authority : req.to ≡ suspended → given req.authority ≡ true

module _ (now : String) (c : CredentialStatusRecord) (req : CredentialTransitionRequest) where
  accepted_of :
      can_transition_credential c.status req.to ≡ true
      → IsAccountable req
      → apply_credential_transition now c req
        ≡ ok (recorded (or_else req.at now) req) (publish req.to)
  unfolding apply_credential_transition
  accepted_of p a =
      ground (arith, a.reason, a.authority, a.appeal_path, a.superseded_by, a.suspending_authority)

  pub accepted_needs :
      (next : CredentialStatusRecord) (changes : List Change)
      → apply_credential_transition now c req ≡ ok next changes
      → (can_transition_credential c.status req.to ≡ true)
        × IsAccountable req
        × (next ≡ recorded (or_else req.at now) req)
        × (changes ≡ publish req.to)
  unfolding apply_credential_transition
  accepted_needs next changes e = (
    ground arith,
    record {
      reason = λ t. ground arith;
      authority = λ t. ground arith;
      appeal_path = λ t. ground arith;
      superseded_by = λ t. ground arith;
      suspending_authority = λ t. ground arith;
    },
    ground arith,
    ground arith,
  )

-- The diagram of ORCS §10: a credential becomes active, is suspended and reinstated, and ends from
-- any of the three live states.
pub data Live : CredentialStatus → Type 0 where
  issued_live : Live issued
  active_live : Live active
  suspended_live : Live suspended

pub data Final : CredentialStatus → Type 0 where
  revoked_final : Final revoked
  expired_final : Final expired
  replaced_final : Final replaced

pub data Permitted : CredentialStatus → CredentialStatus → Type 0 where
  delivers : Permitted issued active
  suspends : Permitted active suspended
  reinstates : Permitted suspended active
  finishes : {s t : CredentialStatus} → Live s → Final t → Permitted s t

ruleset edges = (
  delivers, suspends, reinstates, finishes, issued_live, active_live, suspended_live, revoked_final,
  expired_final, replaced_final,
)

Permitted-of : (s t : CredentialStatus) → can_transition_credential s t ≡ true → Permitted s t
unfolding can_transition_credential
Permitted-of s t h = grind (arith, edges)

to_final : {s t : CredentialStatus} → Live s → Final t → can_transition_credential s t ≡ true
unfolding can_transition_credential
to_final issued_live revoked_final = refl
to_final issued_live expired_final = refl
to_final issued_live replaced_final = refl
to_final active_live revoked_final = refl
to_final active_live expired_final = refl
to_final active_live replaced_final = refl
to_final suspended_live revoked_final = refl
to_final suspended_live expired_final = refl
to_final suspended_live replaced_final = refl

of_Permitted : {s t : CredentialStatus} → Permitted s t → can_transition_credential s t ≡ true
unfolding can_transition_credential
of_Permitted delivers = refl
of_Permitted suspends = refl
of_Permitted reinstates = refl
of_Permitted (finishes l f) = to_final l f

-- A status request is accepted exactly when the diagram has the edge and the request is accountable:
-- reason and authority for an ending, an appeal path for a revocation, the superseding credential
-- for a replacement, an authority for a suspension, none of them blank. What is then written and
-- published depends on the request and the clock alone.
pub apply_credential_transition-ok_iff :
    (now : String) (c next : CredentialStatusRecord) (req : CredentialTransitionRequest)
    (changes : List Change)
    → (apply_credential_transition now c req ≡ ok next changes) ↔ (
        Permitted c.status req.to
        × IsAccountable req
        × (next ≡ recorded (or_else req.at now) req)
        × (changes ≡ publish req.to))
apply_credential_transition-ok_iff now c next req changes = (
  λ e.
      let (p, a, n, ch) = accepted_needs now c req next changes e in
      (Permitted-of c.status req.to p, a, n, ch),
  λ (p, a, n, ch). accepted_of now c req (of_Permitted p) a ∙ ap₂ ok (sym n) (sym ch),
)

-- An accepted revocation preserves all four things that ORCS §10 names: the reason, the authority
-- and the appeal path as they were given, trimmed and not blank, and the time, which is the
-- request's own or else the clock's.
pub revocation_preserves :
    (now : String) (c next : CredentialStatusRecord) (req : CredentialTransitionRequest)
    (changes : List Change)
    → apply_credential_transition now c req ≡ ok next changes
    → next.status ≡ revoked
    → (next.reason ≡ some (trimmed req.reason))
      × (truthy (trimmed req.reason) ≡ true)
      × (next.authority ≡ some (trimmed req.authority))
      × (truthy (trimmed req.authority) ≡ true)
      × (next.appeal_path ≡ some (trimmed req.appeal_path))
      × (truthy (trimmed req.appeal_path) ≡ true)
      × (next.at ≡ some (or_else req.at now))
unfolding recorded is_terminal_credential_status
revocation_preserves now c next req changes e r =
    let (p, a, n, ch) = accepted_needs now c req next changes e in
    ground (
      arith,
      n,
      a.reason,
      a.authority,
      a.appeal_path,
      given-trimmed req.reason,
      given-trimmed req.authority,
      given-trimmed req.appeal_path,
    )
