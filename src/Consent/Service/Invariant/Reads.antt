-- ===== src/Consent/Service/Invariant/Reads.antt =====
-- `findActive`: what it returns, and what it leaves in the store.
use open_residency.Base.{
  ℕ, ◌≡◌, refl, sym, ◌∙◌, String, Option, some, none, true, false, arith, eq_iff, Bool-cases, inl,
  inr, ◌≢◌, ◌⊎◌,
}
use open_residency.Base.Dict
use open_residency.Base.Dict.{find-values-some, find-values-none, get-put}
use open_residency.Consent.Service.Types.{
  ConsentRecord, Store, expired, update, is_active_for, stored_active, is_expired, find_active,
  settle,
}
use open_residency.Consent.Service.Invariant.Defs.{IsActive, Inv}
use open_residency.Consent.Service.Invariant.Writes.{update-Inv, written}

module _ (date_parse : String → Option ℕ) (resident_id relying_party : String) (now : ℕ) where
  -- The record stands in the store, is active for the pair, and has not expired.
  pub record IsCurrent (s' : Store) (r : ConsentRecord) : Type 0 where
    pub stored : Dict.get s' r.id ≡ some r
    pub is_active : IsActive r
    pub resident : r.resident_id ≡ resident_id
    pub party : r.relying_party ≡ relying_party
    pub unexpired : is_expired date_parse r now ≡ false

  -- No record of the store is active for the pair.
  abbrev pub NoneActive : Store → Type 0
  NoneActive s' =
      (k : String) (q : ConsentRecord)
      → Dict.get s' k ≡ some q
      → is_active_for resident_id relying_party q ≡ false

  abbrev pub Answered : Option ConsentRecord → Store → Type 0
  Answered none s' = NoneActive s'
  Answered (some r) s' = IsCurrent s' r

module _ (date_parse : String → Option ℕ) (s : Store) (resident_id relying_party : String)
    (now : ℕ) where
  record Found (r : ConsentRecord) : Type 0 where
    stored : Dict.get s r.id ≡ some r
    is_active : IsActive r
    resident : r.resident_id ≡ resident_id
    party : r.relying_party ≡ relying_party

  found_lem :
      (r : ConsentRecord) → Inv s → stored_active s resident_id relying_party ≡ some r → Found r
  unfolding stored_active is_active_for
  found_lem r h e =
      let (k, g, t) = find-values-some (is_active_for resident_id relying_party) s r h.distinct e in
      let o = h.own k r g in
      record {
        stored = ground arith;
        is_active = ground arith;
        resident = ground (arith, eq_iff r.resident_id resident_id);
        party = ground (arith, eq_iff r.relying_party relying_party);
      }

  -- A record that is settled as expired was the only active one of its pair.
  left_active :
      (r q : ConsentRecord) (k : String)
      → Inv s
      → Found r
      → ((r.id ≡ k) × (q ≡ record r { status = expired })) ⊎ ((r.id ≢ k) × (Dict.get s k ≡ some q))
      → is_active_for resident_id relying_party q ≡ true
      → is_active_for resident_id relying_party q ≡ false
  unfolding is_active_for
  left_active r q k h f (inl (a, e)) t = ground arith
  left_active r q k h f (inr (n, g)) t =
      let a : IsActive q = ground arith in
      let x : q.resident_id ≡ resident_id = ground (arith, eq_iff q.resident_id resident_id) in
      let y : q.relying_party ≡ relying_party =
        ground (arith, eq_iff q.relying_party relying_party) in
      absurd (n (h.one r.id k r q f.stored g f.is_active a (f.resident ∙ sym x, f.party ∙ sym y)))

  none_left :
      (r : ConsentRecord)
      → Inv s
      → Found r
      → NoneActive date_parse resident_id relying_party now
          (update s (record r { status = expired }))
  unfolding update
  none_left r h f k q g = ground (
    arith,
    left_active r q k h f (written s (record r { status = expired }) k q g),
    Bool-cases (is_active_for resident_id relying_party q),
  )

  pub record Reads (o : Option ConsentRecord) (s' : Store) : Type 0 where
    pub kept : Inv s'
    pub answered : Answered date_parse resident_id relying_party now o s'
    pub fresh : (id : String) → Dict.get s id ≡ none → Dict.get s' id ≡ none

  fresh_after :
      (r : ConsentRecord) (id : String)
      → Dict.get s r.id ≡ some r
      → Dict.get s id ≡ none
      → Dict.get (update s (record r { status = expired })) id ≡ none
  unfolding update
  fresh_after r id g n =
      ground (arith, get-put s r.id id (record r { status = expired }), eq_iff r.id id)

  settled :
      (o : Option ConsentRecord)
      → stored_active s resident_id relying_party ≡ o
      → Inv s
      → Reads (settle date_parse s o now).0 (settle date_parse s o now).1
  unfolding stored_active
  settled none e h = record {
    kept = h;
    answered = λ k q g. find-values-none (is_active_for resident_id relying_party) s k q e g;
    fresh = λ id n. n;
  }
  settled (some r) e h = elim (Bool-cases (is_expired date_parse r now)) [
    | inl t ↦ rw t (record {
      kept =
          update-Inv s r (record r { status = expired }) h (found_lem r h e).stored refl
            (refl, refl) (λ a. (found_lem r h e).is_active);
      answered = none_left r h (found_lem r h e);
      fresh = λ id. fresh_after r id (found_lem r h e).stored;
    })
    | inr n ↦ rw n (record {
      kept = h;
      answered = record {
        stored = (found_lem r h e).stored;
        is_active = (found_lem r h e).is_active;
        resident = (found_lem r h e).resident;
        party = (found_lem r h e).party;
        unexpired = n;
      };
      fresh = λ id x. x;
    })
  ]

  -- A lookup keeps the invariant. What it returns is stored, is active for the pair and has not
  -- expired; when it returns nothing, no active record of the pair is left.
  pub find_active_lem :
      Inv s
      → Reads
          (find_active date_parse s resident_id relying_party now).0
          (find_active date_parse s resident_id relying_party now).1
  unfolding find_active
  find_active_lem h = settled (stored_active s resident_id relying_party) refl h
