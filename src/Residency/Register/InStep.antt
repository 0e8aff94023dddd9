-- ===== src/Residency/Register/InStep.antt =====
-- After every transition the published lists show what the register says, and none throws.
use open_residency.Base.{
  ℕ, ◌≡◌, ◌≢◌, refl, sym, ◌∙◌, ap, subst, ◌⊎◌, inl, inr, Bool, true, false, String, Option, none,
  some, List, [], ◌∷◌, arith, eq_iff, leb,
}
use open_residency.Base.Dict
use open_residency.Base.Dict.{get-put}
use open_residency.Credentials.Status
use open_residency.Credentials.Status.{
  CredentialStatus, CredentialStatusRecord, CredentialTransitionRequest,
  CredentialTransitionOutcome, Change, StatusPurpose, revocation, suspension,
  apply_credential_transition,
}
use open_residency.Credentials.Status.Published.{Bits, bits_of, change_one, publish-bits_of}
use open_residency.Credentials.StatusList.{set_bit, is_revoked}
use open_residency.Residency.Store.{save_status_list, ResidentRecord, Store, save, load_status_list}
use open_residency.Residency.Store.Lists.{list_at, bit, ListsValid, load-ListsValid, bit-load}
use open_residency.Residency.Register.{
  Result, thrown, publish_all, CredentialMove, current_status, settle_credential,
}
use open_residency.Residency.Register.Published.{
  loaded, bit_for, Shows, IsPublished, publish_all_lem, publish_change_cases, publish_change_lem,
  change_shown,
}

-- The credential status that a record stands at: the one recorded, or for an old row the one read
-- off its revocation bit.
unfoldable pub stated : Store → String → ResidentRecord → Option CredentialStatusRecord
stated s country r =
    current_status r.credential_status (bit s country revocation r.status_list_index) r.created_at

-- The register of one country: each record under its own id, each index used once, and the bits of
-- both lists telling the status that the record stands at.
pub record InStep (country : String) (s : Store) : Type 0 where
  pub valid : ListsValid s
  pub own :
      (k : String) (r : ResidentRecord) → Dict.get s.by_resident_id k ≡ some r → r.resident_id ≡ k
  pub once :
      (k j : String) (r q : ResidentRecord)
      → Dict.get s.by_resident_id k ≡ some r
      → Dict.get s.by_resident_id j ≡ some q
      → r.status_list_index ≡ q.status_list_index
      → k ≡ j
  pub shown :
      (k : String) (r : ResidentRecord)
      → Dict.get s.by_resident_id k ≡ some r
      → (c : CredentialStatusRecord) × (stated s country r ≡ some c)
        × Shows s country r.status_list_index (bits_of c.status)

module _ (country : String) (i : ℕ) where
  in_range :
      (s : Store) (p : StatusPurpose) (v : Bool)
      → bit s country p i ≡ some v
      → leb (list_at s country p).size_bits i ≡ false
  unfolding bit is_revoked
  in_range s p v e = ground arith

  settable :
      (s : Store) (p : StatusPurpose) (v w : Bool)
      → bit s country p i ≡ some v
      → set_bit (list_at s country p) i w ≢ none
  unfolding set_bit
  settable s p v w e h = ground (arith, in_range s p v e)

  -- Publishing at an index that the lists show never throws.
  publish_all_total :
      (cs : List Change) (s : Store) (b : Bits)
      → ListsValid s
      → Shows s country i b
      → (publish_all country i cs s).0 ≡ true
  unfolding publish_all
  publish_all_total [] s b w h = refl
  publish_all_total (c ∷ cs) s b w h = elim (publish_change_cases country i c s) [
    | inl (n, f) ↦ absurd (settable s c.purpose (bit_for c.purpose b) c.set (h c.purpose) n)
    | inr (l, t, f) ↦
        let (w1, bits1) = publish_change_lem country i c s _ w f in
        rw f (
          publish_all_total cs (save_status_list (loaded country i c s) country l c.purpose)
            (change_one c c.purpose b) w1
            (λ q. bits1 q i ∙ change_shown country i c c.purpose q s b h))
  ]

module _ (country : String) where
  -- What every transition must re-establish.
  abbrev pub After : Result CredentialMove × Store → Type 0
  After out = InStep country out.1 × (out.0 ≢ thrown)

  pub bit-save :
      (s : Store) (r : ResidentRecord) (p : StatusPurpose) (j : ℕ)
      → bit (save s r) country p j ≡ bit s country p j
  unfolding bit list_at save
  bit-save s r p j = refl

  pub ListsValid-save : (s : Store) (r : ResidentRecord) → ListsValid s → ListsValid (save s r)
  unfolding list_at save
  ListsValid-save s r w = record { at = w.at }

  pub stated_as :
      (s t : Store) (q : ResidentRecord) (c : CredentialStatusRecord)
      → bit t country revocation q.status_list_index ≡ bit s country revocation q.status_list_index
      → stated s country q ≡ some c
      → stated t country q ≡ some c
  unfolding stated
  stated_as s t q c e h =
      ap (λ (b : Option Bool). current_status q.credential_status b q.created_at) e ∙ h

  stated_recorded :
      (s : Store) (q : ResidentRecord) (c : CredentialStatusRecord)
      → q.credential_status ≡ some c
      → stated s country q ≡ some c
  unfolding stated
  stated_recorded s q c e =
      ap
        (λ (o : Option CredentialStatusRecord).
          current_status o (bit s country revocation q.status_list_index) q.created_at)
        e

  module _ (s s' : Store) (k : String) (r u : ResidentRecord) (c : CredentialStatusRecord)
      (h : InStep country s) (found : Dict.get s.by_resident_id k ≡ some r)
      (same_id : u.resident_id ≡ r.resident_id)
      (same_index : u.status_list_index ≡ r.status_list_index)
      (has : stated (save s' u) country u ≡ some c)
      (p : IsPublished country r.status_list_index s s' (bits_of c.status)) where
    found_after :
        (j : String) (q : ResidentRecord)
        → Dict.get (save s' u).by_resident_id j ≡ some q
        → ((j ≡ k) × (q ≡ u)) ⊎ ((j ≢ k) × (Dict.get s.by_resident_id j ≡ some q))
    unfolding save
    found_after j q e = ground (
      arith,
      p.records,
      h.own k r found,
      same_id,
      eq_iff u.resident_id j,
      get-put s'.by_resident_id u.resident_id j u,
    )

    other_index :
        (j : String) (q : ResidentRecord)
        → j ≢ k
        → Dict.get s.by_resident_id j ≡ some q
        → r.status_list_index ≢ q.status_list_index
    other_index j q n e same = n (sym (h.once k j r q found e same))

    shown_after :
        (j : String) (q : ResidentRecord)
        → ((j ≡ k) × (q ≡ u)) ⊎ ((j ≢ k) × (Dict.get s.by_resident_id j ≡ some q))
        → (d : CredentialStatusRecord) × (stated (save s' u) country q ≡ some d)
          × Shows (save s' u) country q.status_list_index (bits_of d.status)
    shown_after j q (inl (_, e)) = (
      c,
      ap (stated (save s' u) country) e ∙ has,
      λ t.
          bit-save s' u t q.status_list_index
          ∙ ap (bit s' country t) (ap (λ (x : ResidentRecord). x.status_list_index) e ∙ same_index)
          ∙ p.shows t,
    )
    shown_after j q (inr (n, e)) =
        let (d, st, sh) = h.shown j q e in
        (
          d,
          stated_as s (save s' u) q d
              (bit-save s' u revocation q.status_list_index
                ∙ p.others revocation q.status_list_index (other_index j q n e))
              st,
          λ t.
              bit-save s' u t q.status_list_index
              ∙ p.others t q.status_list_index (other_index j q n e)
              ∙ sh t,
        )

    once_after :
        (i j : String) (a b : ResidentRecord)
        → ((i ≡ k) × (a ≡ u)) ⊎ ((i ≢ k) × (Dict.get s.by_resident_id i ≡ some a))
        → ((j ≡ k) × (b ≡ u)) ⊎ ((j ≢ k) × (Dict.get s.by_resident_id j ≡ some b))
        → a.status_list_index ≡ b.status_list_index
        → i ≡ j
    once_after i j a b (inl (x, _)) (inl (y, _)) e = x ∙ sym y
    once_after i j a b (inl (_, x)) (inr (n, y)) e = absurd (
        other_index j b n y
          (sym (ap (λ (z : ResidentRecord). z.status_list_index) x ∙ same_index) ∙ e))
    once_after i j a b (inr (n, x)) (inl (_, y)) e = absurd (
        other_index i a n x
          (sym (e ∙ ap (λ (z : ResidentRecord). z.status_list_index) y ∙ same_index)))
    once_after i j a b (inr (_, x)) (inr (_, y)) e = h.once i j a b x y e

    -- A record is replaced by one with the same id and index, and the lists by lists that show its
    -- new status and are the same at every other index.
    pub save-InStep : InStep country (save s' u)
    save-InStep = record {
      valid = ListsValid-save s' u p.valid;
      own = λ j q e. own_after j q (found_after j q e);
      once = λ i j a b x y e. once_after i j a b (found_after i a x) (found_after j b y) e;
      shown = λ j q e. shown_after j q (found_after j q e);
    }
      where
        own_after :
            (j : String) (q : ResidentRecord)
            → ((j ≡ k) × (q ≡ u)) ⊎ ((j ≢ k) × (Dict.get s.by_resident_id j ≡ some q))
            → q.resident_id ≡ j
        own_after j q (inl (x, y)) =
            ap (λ (z : ResidentRecord). z.resident_id) y ∙ same_id ∙ h.own k r found ∙ sym x
        own_after j q (inr (_, y)) = h.own j q y

  pub load-InStep :
      (s : Store) (t : StatusPurpose)
      → InStep country s
      → InStep country (load_status_list s country t).1
  unfolding load_status_list
  load-InStep s t h = record {
    valid = load-ListsValid s country t h.valid;
    own = λ j q e. h.own j q e;
    once = λ i j a b x y e. h.once i j a b x y e;
    shown = λ j q e.
        let (d, st, sh) = h.shown j q e in
        (
          d,
          stated_as s (load_status_list s country t).1 q d
              (bit-load s country country t revocation q.status_list_index) st,
          λ p. bit-load s country country t p q.status_list_index ∙ sh p,
        );
  }

  pub settle-After :
      (now : String) (req : CredentialTransitionRequest) (s : Store) (k : String)
      (r : ResidentRecord) (c : CredentialStatusRecord) (out : CredentialTransitionOutcome)
      → InStep country s
      → Dict.get s.by_resident_id k ≡ some r
      → Shows s country r.status_list_index (bits_of c.status)
      → apply_credential_transition now c req ≡ out
      → After (settle_credential country s r c.status out)
  unfolding settle_credential
  settle-After now req s k r c (Status.refused reason) h found sh e = (h, λ t. cc)
  settle-After now req s k r c (Status.ok next changes) h found sh e =
      let i = r.status_list_index in
      let s' = (publish_all country i changes s).1 in
      let t = publish_all_total country i changes s (bits_of c.status) h.valid sh in
      let published =
        publish_all_lem country i changes s s' (bits_of c.status) h.valid (λ d. (t d, s')) sh in
      rw t (
        save-InStep s s' k r (record r { credential_status = some next }) next h found refl refl
            (stated_recorded (save s' (record r { credential_status = some next }))
              (record r { credential_status = some next }) next refl)
            (subst (IsPublished country i s s') (publish-bits_of now c next req changes e)
              published),
        λ x. cc,
      )
