-- ===== src/Consent/Service/Invariant/Replace.antt =====
-- Closing the consent in force and adding the new one leaves one that is active.
use open_residency.Base.{
  ℕ, ◌≡◌, ◌≢◌, ◌⊎◌, refl, sym, ◌∙◌, String, Option, some, none, false, arith, eq_iff, inl, inr,
}
use open_residency.Base.Dict
use open_residency.Base.Dict.{Distinct, Distinct-put, get-put}
use open_residency.Consent.Service.Types.{ConsentRecord, Store, save, update, is_active_for}
use open_residency.Consent.Service.Grant.{
  GrantInput, ConsentPolicy, Platform, new_record, replaced_by,
}
use open_residency.Consent.Service.Invariant.Defs.{IsActive, SamePair, Inv}
use open_residency.Consent.Service.Invariant.Writes.{put-Inv, update-Inv, written}
use open_residency.Consent.Service.Invariant.Reads.{IsCurrent, NoneActive}

-- The invariant is about what lookups give.
Inv_ext :
    (s s' : Store) → Inv s → Distinct s' → ((k : String) → Dict.get s' k ≡ Dict.get s k) → Inv s'
Inv_ext s s' h d e = record {
  distinct = d;
  own = λ k r g. h.own k r (sym (e k) ∙ g);
  one = λ k j r q f g. h.one k j r q (sym (e k) ∙ f) (sym (e j) ∙ g);
}

-- Two writes to different keys can be swapped, as far as lookups go.
swapped :
    (s : Store) (i j k : String) (u v : ConsentRecord)
    → i ≢ j
    → Dict.get (Dict.put (Dict.put s i u) j v) k ≡ Dict.get (Dict.put (Dict.put s j v) i u) k
swapped s i j k u v n = ground (
  arith,
  get-put (Dict.put s i u) j k v,
  get-put s i k u,
  get-put (Dict.put s j v) i k u,
  get-put s j k v,
  eq_iff i k,
  eq_iff j k,
)

pub fresh_other :
    (s : Store) (k : String) {id : String} (r : ConsentRecord)
    → Dict.get s id ≡ none
    → Dict.get s k ≡ some r
    → id ≢ k
fresh_other s k r f g e = cc

module _ (platform : Platform) (policy : ConsentPolicy) (input : GrantInput)
    (id receipt_id : String) (now : ℕ) where
  abbrev made : Option ConsentRecord → ConsentRecord
  made existing = new_record platform policy input existing id receipt_id now

  -- With no active record of the pair, the new one is alone.
  pub new-Inv :
      (s : Store)
      → Inv s
      → NoneActive platform.date_parse input.resident_id input.relying_party now s
      → Inv (save s (made none))
  unfolding save new_record is_active_for
  new-Inv s h n = put-Inv s (made none) h (λ k q g au aq m. clash k q (n k q g) aq m)
    where
      clash :
          (k : String) (q : ConsentRecord)
          → is_active_for input.resident_id input.relying_party q ≡ false
          → IsActive q
          → SamePair (made none) q
          → id ≡ k
      clash k q f aq m = ground (
        arith,
        eq_iff q.resident_id input.resident_id,
        eq_iff q.relying_party input.relying_party,
      )

  -- Once the record in force is closed, no other active record of the pair is left.
  closed_alone :
      (s : Store) (existing q : ConsentRecord) (k : String)
      → Inv s
      → IsCurrent platform.date_parse input.resident_id input.relying_party now s existing
      → ((existing.id ≡ k) × (q ≡ replaced_by platform policy existing id))
        ⊎ ((existing.id ≢ k) × (Dict.get s k ≡ some q))
      → IsActive q
      → SamePair (made (some existing)) q
      → id ≡ k
  unfolding new_record
  closed_alone s existing q k h c (inl (_, e)) aq m = ground arith
  closed_alone s existing q k h c (inr (n, g)) aq m = absurd (
      n (
        h.one existing.id k existing q c.stored g c.is_active aq (c.resident ∙ m.0, c.party ∙ m.1)))

  pub replace-Inv :
      (s : Store) (existing : ConsentRecord)
      → Inv s
      → IsCurrent platform.date_parse input.resident_id input.relying_party now s existing
      → Dict.get s id ≡ none
      → Inv (update (save s (made (some existing))) (replaced_by platform policy existing id))
  unfolding save update new_record
  replace-Inv s existing h c fresh =
      let closed = replaced_by platform policy existing id in
      let without = update-Inv s existing closed h c.stored refl (refl, refl) (λ _. c.is_active) in
      let other =
        put-Inv (update s closed) (made (some existing)) without
          (λ k q g _. closed_alone s existing q k h c (written s closed k q g)) in
      Inv_ext (save (update s closed) (made (some existing)))
        (update (save s (made (some existing))) closed) other
        (Distinct-put (save s (made (some existing))) existing.id closed
          (Distinct-put s id (made (some existing)) h.distinct))
        (λ k.
          swapped s id existing.id k (made (some existing)) closed
            (fresh_other s existing.id existing fresh c.stored))
