-- ===== src/Consent/Service/Invariant/Grants.antt =====
-- What a grant leaves in the store: the new record is saved before the one it replaces is closed.
use open_residency.Base.{
  ℕ, ◌≡◌, ◌≢◌, refl, sym, String, Option, some, none, true, arith, eq_iff, Option-cases, Bool-cases,
  inl, inr, ◌&&◌, not, subst, str_eq_refl, filter, map, truthy, trim,
}
use open_residency.Base.Dict
use open_residency.Base.Dict.{Distinct, Distinct-put, get-put}
use open_residency.Consent.Service.Types.{
  ConsentRecord, Store, save, update, find_active, same_scopes, sort, join,
}
use open_residency.Consent.Service.Grant.{
  GrantInput, ConsentPolicy, GrantOutcome, ok, refused, Platform, refusal, covers, new_record,
  keep_existing, replaced_by, is_truthy, option_eq, categories_of, reference_of, write_new,
  grant_over, grant,
}
use open_residency.Consent.Service.Sameness.{SameItems, same_scopes-joined, same_scopes-SameItems}
use open_residency.Consent.Service.Invariant.Defs.{IsActive, Inv}
use open_residency.Consent.Service.Invariant.Writes.{update-Inv}
use open_residency.Consent.Service.Invariant.Reads.{
  IsCurrent, NoneActive, Answered, find_active_lem,
}
use open_residency.Consent.Service.Invariant.Replace.{new-Inv, replace-Inv, fresh_other}

module _ (platform : Platform) (policy : ConsentPolicy) (input : GrantInput)
    (id receipt_id : String) (now : ℕ) where
  abbrev made : Option ConsentRecord → ConsentRecord
  made existing = new_record platform policy input existing id receipt_id now

  -- The record asks what the input asks for.
  pub record IsAsked (r : ConsentRecord) : Type 0 where
    pub scopes_read : join (sort r.scopes) ≡ join (sort input.scopes)
    pub scopes : SameItems r.scopes input.scopes
    pub categories_read :
        join (sort r.data_categories) ≡ join (sort (filter truthy (map trim input.data_categories)))
    pub categories : SameItems r.data_categories (filter truthy (map trim input.data_categories))
    pub basis : r.legal_basis_reference ≡ reference_of policy input

  -- The record that a grant answers with: stored, active, and what was asked for.
  pub record Granted (s' : Store) (r : ConsentRecord) : Type 0 where
    pub kept : Inv s'
    pub stored : Dict.get s' r.id ≡ some r
    pub is_active : IsActive r
    pub resident : r.resident_id ≡ input.resident_id
    pub party : r.relying_party ≡ input.relying_party
    pub asked : IsAsked r

  abbrev pub GrantedOutcome : GrantOutcome → Store → Type 0
  GrantedOutcome (ok r token) s' = Granted s' r
  GrantedOutcome (refused reason) s' = Inv s'

  covers-IsAsked : (r : ConsentRecord) → covers platform policy r input ≡ true → IsAsked r
  unfolding covers categories_of
  covers-IsAsked r h =
      let a : same_scopes r.scopes input.scopes ≡ true = ground (arith, h) in
      let b : same_scopes r.data_categories (categories_of input) ≡ true = ground (arith, h) in
      record {
        scopes_read = same_scopes-joined r.scopes input.scopes a;
        scopes = same_scopes-SameItems r.scopes input.scopes a;
        categories_read = same_scopes-joined r.data_categories (categories_of input) b;
        categories = same_scopes-SameItems r.data_categories (categories_of input) b;
        basis = ground (arith, h, eq_iff r.legal_basis_reference (reference_of policy input));
      }

  new-IsAsked : (existing : Option ConsentRecord) → IsAsked (made existing)
  unfolding new_record categories_of
  new-IsAsked existing = record {
    scopes_read = refl;
    scopes = inr λ x. refl;
    categories_read = refl;
    categories = inr λ x. refl;
    basis = refl;
  }

  regranted-IsAsked :
      (existing : ConsentRecord)
      → IsAsked existing
      → IsAsked (record existing { grant_id = input.grant_id })
  regranted-IsAsked existing a = record {
    scopes_read = a.scopes_read;
    scopes = a.scopes;
    categories_read = a.categories_read;
    categories = a.categories;
    basis = a.basis;
  }

  regranted :
      (s : Store) (existing : ConsentRecord)
      → Inv s
      → IsCurrent platform.date_parse input.resident_id input.relying_party now s existing
      → covers platform policy existing input ≡ true
      → Granted
          (update s (record existing { grant_id = input.grant_id }))
          (record existing { grant_id = input.grant_id })
  unfolding covers update
  regranted s existing h c v = record {
    kept =
        update-Inv s existing (record existing { grant_id = input.grant_id }) h c.stored refl
          (refl, refl) (λ a. a);
    stored = ground (
      arith,
      get-put s existing.id existing.id (record existing { grant_id = input.grant_id }),
      str_eq_refl existing.id,
    );
    is_active = c.is_active;
    resident = c.resident;
    party = c.party;
    asked = regranted-IsAsked existing (covers-IsAsked existing v);
  }

  kept_Granted :
      (s : Store) (existing : ConsentRecord)
      → Inv s
      → IsCurrent platform.date_parse input.resident_id input.relying_party now s existing
      → covers platform policy existing input ≡ true
      → GrantedOutcome
          (keep_existing platform policy s existing input).0
          (keep_existing platform policy s existing input).1
  unfolding keep_existing
  kept_Granted s existing h c v =
      elim (Bool-cases
        (is_truthy input.grant_id && not (option_eq input.grant_id existing.grant_id))) [
          | inl t ↦ rw (t) (regranted s existing h c v)
          | inr f ↦ rw (f) (record {
            kept = h;
            stored = c.stored;
            is_active = c.is_active;
            resident = c.resident;
            party = c.party;
            asked = covers-IsAsked existing v;
          })
        ]

  new_Granted :
      (s : Store)
      → Inv s
      → NoneActive platform.date_parse input.resident_id input.relying_party now s
      → Granted (save s (made none)) (made none)
  new_Granted s h n = record {
    kept = new-Inv platform policy input id receipt_id now s h n;
    stored = unfold save new_record in ground (arith, get-put s id id (made none), str_eq_refl id);
    is_active = unfold new_record in refl;
    resident = unfold new_record in refl;
    party = unfold new_record in refl;
    asked = new-IsAsked none;
  }

  new_stored :
      (s : Store) (existing : ConsentRecord)
      → id ≢ existing.id
      → Dict.get
          (update (save s (made (some existing))) (replaced_by platform policy existing id))
          (made (some existing)).id
        ≡ some (made (some existing))
  unfolding update save new_record
  new_stored s existing n = ground (
    arith,
    get-put (save s (made (some existing))) existing.id id
        (replaced_by platform policy existing id),
    get-put s id id (made (some existing)),
    eq_iff existing.id id,
    str_eq_refl id,
  )

  replaced_Granted :
      (s : Store) (existing : ConsentRecord)
      → Inv s
      → IsCurrent platform.date_parse input.resident_id input.relying_party now s existing
      → Dict.get s id ≡ none
      → Granted
          (update (save s (made (some existing))) (replaced_by platform policy existing id))
          (made (some existing))
  replaced_Granted s existing h c fresh = record {
    kept = replace-Inv platform policy input id receipt_id now s existing h c fresh;
    stored = new_stored s existing (fresh_other s existing.id existing fresh c.stored);
    is_active = unfold new_record in refl;
    resident = unfold new_record in refl;
    party = unfold new_record in refl;
    asked = new-IsAsked (some existing);
  }

  over_Granted :
      (s : Store) (o : Option ConsentRecord)
      → Inv s
      → Answered platform.date_parse input.resident_id input.relying_party now o s
      → Dict.get s id ≡ none
      → GrantedOutcome
          (grant_over platform policy s o input id receipt_id now).0
          (grant_over platform policy s o input id receipt_id now).1
  unfolding grant_over write_new
  over_Granted s none h n fresh = new_Granted s h n
  over_Granted s (some existing) h c fresh =
      elim (Bool-cases (covers platform policy existing input)) [
        | inl t ↦ rw t (kept_Granted s existing h c t)
        | inr f ↦ rw f (replaced_Granted s existing h c fresh)
      ]

  grant_accepted :
      (s : Store)
      → refusal platform policy input now ≡ none
      → grant platform policy s input id receipt_id now
        ≡ grant_over platform policy
            (find_active platform.date_parse s input.resident_id input.relying_party now).1
            (find_active platform.date_parse s input.resident_id input.relying_party now).0
            input
            id
            receipt_id
            now
  unfolding grant
  grant_accepted s e = rw (e, grant) refl

  grant_refused :
      (s : Store) (reason : String)
      → refusal platform policy input now ≡ some reason
      → grant platform policy s input id receipt_id now ≡ (refused reason, s)
  unfolding grant
  grant_refused s reason e = rw (e, grant) refl

  -- A grant under a fresh identifier keeps the invariant of the store, refused or not; when it
  -- succeeds, the record it answers with is stored, active, of the pair asked for and of the legal
  -- basis asked for; its scopes, and its data categories, sorted and joined by spaces, read as
  -- those asked for (the categories trimmed, blank ones left out), and they have the same items,
  -- each as often, unless an item is empty or contains a space.
  pub grant-Granted :
      (s : Store)
      → Inv s
      → Dict.get s id ≡ none
      → GrantedOutcome
          (grant platform policy s input id receipt_id now).0
          (grant platform policy s input id receipt_id now).1
  grant-Granted s h fresh = elim (Option-cases (refusal platform policy input now)) [
    | inr (reason, e) ↦
        subst (λ (x : GrantOutcome × Store). GrantedOutcome x.0 x.1)
          (sym (grant_refused s reason e)) h
    | inl e ↦
        let f = find_active_lem platform.date_parse s input.resident_id input.relying_party now h in
        subst (λ (x : GrantOutcome × Store). GrantedOutcome x.0 x.1) (sym (grant_accepted s e))
          (over_Granted
            (find_active platform.date_parse s input.resident_id input.relying_party now).1
            (find_active platform.date_parse s input.resident_id input.relying_party now).0 f.kept
            f.answered (f.fresh id fresh))
  ]
