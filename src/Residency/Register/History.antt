-- ===== src/Residency/Register/History.antt =====
-- Histories of transitions, of relationships and of credentials, in any order.
use open_residency.Base.{
  ◌≡◌, refl, ◌∙◌, ap, subst, ◌↔◌, ◌⊎◌, inl, inr, Bool, true, false, String, Option, none, some,
  List, [], ◌∷◌, Bool-cases, truthy,
}
use open_residency.Base.Dict
use open_residency.Residency.Lifecycle.{
  RelationshipStatus, TransitionRequest, apply_transition, relationship_of, RelationshipAttributes,
  TransitionOutcome,
}
use open_residency.Residency.Lifecycle
use open_residency.Credentials.Status.{
  CredentialTransitionRequest, CredentialStatusRecord, revocation, suspension,
  apply_credential_transition,
}
use open_residency.Credentials.Status.Published.{bits_of}
use open_residency.Credentials.StatusList.{is_revoked}
use open_residency.Residency.Store.{
  ResidentRecord, Store, find_by_resident_id, save, load_status_list,
}
use open_residency.Residency.Store.Lists.{list_at, bit, bit-load}
use open_residency.Residency.Register.{
  current_status, settle_relationship, transition_relationship, apply_to_record,
  transition_credential, thrown,
}
use open_residency.Residency.Register.Published.{Shows}
use open_residency.Residency.Register.InStep.{
  save-InStep, stated_as, bit-save, stated, InStep, After, load-InStep, settle-After,
}

module _ (now country : String) (k : String) (req : CredentialTransitionRequest) where
  apply-After :
      (s : Store) (r : ResidentRecord) (o : Option CredentialStatusRecord)
      → InStep country s
      → Dict.get s.by_resident_id k ≡ some r
      → stated s country r ≡ o
      → After country (apply_to_record now country req s r o)
  unfolding apply_to_record
  apply-After s r none h found e = let (c, st, sh) = h.shown k r found in cc (e, st)
  apply-After s r (some c) h found e =
      let (d, st, sh) = h.shown k r found in
      let same : d ≡ c = cc (st, e) in
      settle-After country now req s k r c (apply_credential_transition now c req) h found
        (subst
          (λ (x : CredentialStatusRecord). Shows s country r.status_list_index (bits_of x.status))
          same sh)
        refl

  -- The status that the operation reads off the loaded list is the one that the record stands at.
  stated-load :
      (s : Store) (r : ResidentRecord)
      → stated (load_status_list s country revocation).1 country r
        ≡ current_status r.credential_status
            (is_revoked (load_status_list s country revocation).0 r.status_list_index)
            r.created_at
  unfolding stated
  stated-load s r =
      ap (λ (b : Option Bool). current_status r.credential_status b r.created_at)
        (bit-load s country country revocation revocation r.status_list_index
          ∙ (unfold bit list_at load_status_list in refl))

  transition_credential_found :
      (s : Store) (o : Option ResidentRecord)
      → InStep country s
      → Dict.get s.by_resident_id k ≡ o
      → truthy k ≡ true
      → After country (transition_credential now country k req s)
  unfolding transition_credential find_by_resident_id
  transition_credential_found s none h e t = rw (t, e, transition_credential) (h, λ x. cc)
  transition_credential_found s (some r) h e t =
      rw (t, e, transition_credential)
        (apply-After (load_status_list s country revocation).1 r _
          (load-InStep country s revocation h) (unfold load_status_list in e) (stated-load s r))

  transition_credential_empty :
      (s : Store)
      → InStep country s
      → truthy k ≡ false
      → InStep country (transition_credential now country k req s).1
        × ((transition_credential now country k req s).0 ≡ thrown)
  unfolding transition_credential
  transition_credential_empty s h f = rw (f, transition_credential) (h, refl)

  -- In a register that agrees with its published lists, a transition of a credential throws
  -- exactly when the identifier of the resident is empty, and it leaves a register that agrees
  -- with its lists, whether it throws, is accepted, is refused or is for an unknown resident.
  pub transition_credential-InStep :
      (s : Store)
      → InStep country s
      → InStep country (transition_credential now country k req s).1
        × (((transition_credential now country k req s).0 ≡ thrown) ↔ (truthy k ≡ false))
  transition_credential-InStep s h = elim (Bool-cases (truthy k)) [
    | inl t ↦
        let a = transition_credential_found s (Dict.get s.by_resident_id k) h refl t in
        (a.0, (λ e. absurd (a.1 e), λ f. absurd (never t f)))
    | inr f ↦ let a = transition_credential_empty s h f in (a.0, (λ e. f, λ g. a.1))
  ]
    where
      never : {b : Bool} → b ≡ true → b ≡ false → ⊥
      never t f = cc

-- Saving a record that differs in its relationship alone.
save_relationship-InStep :
    (country k : String) (s : Store) (r : ResidentRecord) (a : Option RelationshipAttributes)
    → InStep country s
    → Dict.get s.by_resident_id k ≡ some r
    → InStep country (save s (record r { relationship = a }))
save_relationship-InStep country k s r a h found =
    let (c, st, sh) = h.shown k r found in
    let u = record r { relationship = a } in
    save-InStep country s s k r u c h found refl refl
      (stated_as country s (save s u) u c (bit-save country s u revocation r.status_list_index)
        (unfold stated in st))
      (record { valid = h.valid; shows = sh; others = λ q j n. refl; records = refl })

settle_relationship-InStep :
    (country k : String) (s : Store) (r : ResidentRecord) (from : RelationshipStatus)
    (out : TransitionOutcome)
    → InStep country s
    → Dict.get s.by_resident_id k ≡ some r
    → InStep country (settle_relationship s r from out).1
unfolding settle_relationship
settle_relationship-InStep country k s r from (Lifecycle.refused reason) h found = h
settle_relationship-InStep country k s r from (Lifecycle.ok next) h found =
    save_relationship-InStep country k s r (some next) h found

transition_relationship_found :
    (now country k : String) (req : TransitionRequest) (s : Store) (o : Option ResidentRecord)
    → InStep country s
    → Dict.get s.by_resident_id k ≡ o
    → (truthy k ≡ true) ⊎ (truthy k ≡ false)
    → InStep country (transition_relationship now k req s).1
unfolding transition_relationship find_by_resident_id
transition_relationship_found now country k req s o h e (inr f) = rw (f, transition_relationship) h
transition_relationship_found now country k req s none h e (inl t) =
    rw (t, e, transition_relationship) h
transition_relationship_found now country k req s (some r) h e (inl t) =
    rw (t, e, transition_relationship) (settle_relationship-InStep country k s r _ _ h e)

-- What an operator may ask of a resident.
pub data Call : Type 0 where
  relationship : String → TransitionRequest → Call
  credential : String → CredentialTransitionRequest → Call

abbrev pub step : String → Store → String × Call → Store
step country s (now, relationship k req) = (transition_relationship now k req s).1
step country s (now, credential k req) = (transition_credential now country k req s).1

unfoldable pub run : String → Store → List (String × Call) → Store
run country s [] = s
run country s (c ∷ cs) = run country (step country s c) cs

step-InStep :
    (country : String) (s : Store) (c : String × Call)
    → InStep country s
    → InStep country (step country s c)
step-InStep country s (now, relationship k req) h =
    transition_relationship_found now country k req s (Dict.get s.by_resident_id k) h refl
      (Bool-cases (truthy k))
step-InStep country s (now, credential k req) h =
    (transition_credential-InStep now country k req s h).0

run-InStep_from :
    (country : String) (s : Store) (calls : List (String × Call))
    → InStep country s
    → InStep country (run country s calls)
unfolding run
run-InStep_from country s [] h = h
run-InStep_from country s (c ∷ cs) h =
    run-InStep_from country (step country s c) cs (step-InStep country s c h)

-- Start from a register that agrees with its published lists. After any sequence of requests to
-- move relationships and credentials, accepted or not, every record states a credential status,
-- and at its index the revocation list and the suspension list show exactly the bits of that
-- status.
pub run-shows_status :
    (country : String) (s : Store) (calls : List (String × Call)) (k : String) (r : ResidentRecord)
    → InStep country s
    → find_by_resident_id (run country s calls) k ≡ some r
    → (c : CredentialStatusRecord) × (stated (run country s calls) country r ≡ some c)
      × (bit (run country s calls) country revocation r.status_list_index
          ≡ some (bits_of c.status).revocation_bit)
      × (bit (run country s calls) country suspension r.status_list_index
          ≡ some (bits_of c.status).suspension_bit)
unfolding find_by_resident_id
run-shows_status country s calls k r h found =
    let (c, st, sh) = (run-InStep_from country s calls h).shown k r found in
    (c, st, sh revocation, sh suspension)
