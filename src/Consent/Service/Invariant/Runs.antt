-- ===== src/Consent/Service/Invariant/Runs.antt =====
-- The consent store over any sequence of grants, lookups and withdrawals.
use open_residency.Base.{
  ℕ, ◌≡◌, refl, sym, ap, ◌∙◌, String, Option, some, none, List, [], ◌∷◌, Bool-cases, inl, inr,
}
use open_residency.Base.Dict
use open_residency.Consent.Service.Types.{
  ConsentRecord, Store, active, same_status, find_active, revoked_record, revoke_found, revoke,
}
use open_residency.Consent.Service.Grant.{
  GrantInput, ConsentPolicy, GrantOutcome, Platform, grant, ok, refused,
}
use open_residency.Consent.Service.Invariant.Defs.{Inv}
use open_residency.Consent.Service.Invariant.Writes.{update-Inv}
use open_residency.Consent.Service.Invariant.Reads.{find_active_lem}
use open_residency.Consent.Service.Invariant.Grants.{GrantedOutcome, grant-Granted}

revoke_found-Inv :
    (s : Store) (id at : String) (withdrawn_by : Option String) (o : Option ConsentRecord)
    → Inv s
    → Dict.get s id ≡ o
    → Inv (revoke_found s o withdrawn_by at).1
unfolding revoke_found
revoke_found-Inv s id at withdrawn_by none h e = h
revoke_found-Inv s id at withdrawn_by (some r) h e =
    elim (Bool-cases (same_status r.status active)) [
      | inl t ↦ rw t (
          update-Inv s r (revoked_record r withdrawn_by at) h (sym (own_key s id r h e)) refl
            (refl, refl) (λ a. t))
      | inr n ↦ rw n h
    ]
  where
    own_key :
        (s : Store) (id : String) (r : ConsentRecord)
        → Inv s
        → Dict.get s id ≡ some r
        → some r ≡ Dict.get s r.id
    own_key s id r h e = sym e ∙ ap (Dict.get s) (sym (h.own id r e))

revoke-Inv :
    (s : Store) (id at : String) (withdrawn_by : Option String)
    → Inv s
    → Inv (revoke s id withdrawn_by at).1
unfolding revoke
revoke-Inv s id at withdrawn_by h = revoke_found-Inv s id at withdrawn_by (Dict.get s id) h refl

-- Operations of the service, with the identifiers and instants they draw.
pub data Act : Type 0 where
  grants : GrantInput → String → String → ℕ → Act
  reads : String → String → ℕ → Act
  revokes : String → Option String → String → Act

module _ (platform : Platform) (policy : ConsentPolicy) where
  unfoldable pub step : Store → Act → Store
  step s (grants input id receipt_id now) = (grant platform policy s input id receipt_id now).1
  step s (reads resident_id relying_party now) =
      (find_active platform.date_parse s resident_id relying_party now).1
  step s (revokes id withdrawn_by at) = (revoke s id withdrawn_by at).1

  unfoldable pub run : Store → List Act → Store
  run s [] = s
  run s (a ∷ acts) = run (step s a) acts

  -- The random identifier that a grant draws is not in the store yet.
  abbrev IsFreshStep : Store → Act → Type 0
  IsFreshStep s (grants input id receipt_id now) = Dict.get s id ≡ none
  IsFreshStep s (reads _ _ _) = Unit
  IsFreshStep s (revokes _ _ _) = Unit

  abbrev pub IsFresh : Store → List Act → Type 0
  IsFresh s [] = Unit
  IsFresh s (a ∷ acts) = IsFreshStep s a × IsFresh (step s a) acts

  outcome_Inv :
      (input : GrantInput) (id receipt_id : String) (now : ℕ) (x : GrantOutcome) (s : Store)
      → GrantedOutcome platform policy input id receipt_id now x s
      → Inv s
  outcome_Inv input id receipt_id now (ok r token) s g = g.kept
  outcome_Inv input id receipt_id now (refused reason) s g = g

  step-Inv : (s : Store) (a : Act) → Inv s → IsFreshStep s a → Inv (step s a)
  unfolding step
  step-Inv s (grants input id receipt_id now) h f =
      outcome_Inv input id receipt_id now (grant platform policy s input id receipt_id now).0
        (grant platform policy s input id receipt_id now).1
        (grant-Granted platform policy input id receipt_id now s h f)
  step-Inv s (reads resident_id relying_party now) h f =
      (find_active_lem platform.date_parse s resident_id relying_party now h).kept
  step-Inv s (revokes id withdrawn_by at) h f = revoke-Inv s id at withdrawn_by h

  -- Whatever sequence of grants, lookups and withdrawals runs, with fresh identifiers for the grants,
  -- every record stands once, under its own identifier, and between a resident and a relying party at
  -- most one record is active.
  pub run-Inv : (s : Store) (acts : List Act) → Inv s → IsFresh s acts → Inv (run s acts)
  unfolding run
  run-Inv s [] h f = h
  run-Inv s (a ∷ acts) h f = run-Inv (step s a) acts (step-Inv s a h f.0) f.1
