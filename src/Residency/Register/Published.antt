-- ===== src/Residency/Register/Published.antt =====
-- The register and the published lists agree after every transition of a credential.
use open_residency.Base.{
  ℕ, ◌≡◌, ◌≢◌, refl, ◌∙◌, ap, subst, ◌⊎◌, inl, inr, Bool, true, false, ◌&&◌, String, Option, none,
  some, List, [], ◌∷◌, arith, if◌then◌else◌, Bool-cases, Option-cases, ◌==◌,
}
use open_residency.Credentials.Status.{Change, StatusPurpose, revocation, suspension}
use open_residency.Credentials.Status.Published.{Bits, change_one, change_all}
use open_residency.Credentials.StatusList.{StatusList, set_bit}
use open_residency.Residency.Store.{Store, load_status_list, save_status_list}
use open_residency.Residency.Store.Lists.{
  list_at, bit, ListsValid, same_purpose, bit_after_save, save_list-ListsValid,
}
use open_residency.Residency.Register.{publish_change, publish_all}

abbrev pub bit_for : StatusPurpose → Bits → Bool
bit_for revocation b = b.revocation_bit
bit_for suspension b = b.suspension_bit

-- At an index the lists of a country show these two bits.
abbrev pub Shows : Store → String → ℕ → Bits → Type 0
Shows s country i b = (p : StatusPurpose) → bit s country p i ≡ some (bit_for p b)

module _ (country : String) (i : ℕ) where
  abbrev pub loaded : Change → Store → Store
  loaded c s = (load_status_list s country c.purpose).1

  pub publish_change_cases :
      (c : Change) (s : Store)
      → ((set_bit (list_at s country c.purpose) i c.set ≡ none)
          × (publish_change country i c s ≡ (false, loaded c s)))
        ⊎ ((l : StatusList) × (set_bit (list_at s country c.purpose) i c.set ≡ some l)
            × (publish_change country i c s
                ≡ (true, save_status_list (loaded c s) country l c.purpose)))
  unfolding publish_change load_status_list list_at
  publish_change_cases c s = elim (Option-cases (set_bit (list_at s country c.purpose) i c.set)) [
    | inl e ↦ inl (e, rw (e, publish_change) refl)
    | inr (l, e) ↦ inr (l, e, rw (e, publish_change) refl)
  ]

  -- The bit of a purpose after one change, at the index `j`.
  abbrev pub changed : Change → Store → StatusPurpose → ℕ → Option Bool
  changed c s q j = if same_purpose c.purpose q && i == j then some c.set else bit s country q j

  pub publish_change_lem :
      (c : Change) (s s' : Store)
      → ListsValid s
      → publish_change country i c s ≡ (true, s')
      → ListsValid s' × ((q : StatusPurpose) (j : ℕ) → bit s' country q j ≡ changed c s q j)
  publish_change_lem c s s' w e = elim (publish_change_cases c s) [
    | inl (_, f) ↦ cc (e, f)
    | inr (l, t, f) ↦
        subst
          (λ (k : Store).
            ListsValid k × ((q : StatusPurpose) (j : ℕ) → bit k country q j ≡ changed c s q j))
          (cc (e, f))
          (
            save_list-ListsValid s country c.purpose i c.set l w t,
            λ q j. bit_after_save s country c.purpose q i j c.set l w t,
          )
  ]

  pub change_shown :
      (c : Change) (p q : StatusPurpose) (s : Store) (b : Bits)
      → Shows s country i b
      → (if same_purpose p q && i == i then some c.set else bit s country q i)
        ≡ some (bit_for q (change_one c p b))
  change_shown c revocation revocation s b h = ground arith
  change_shown c revocation suspension s b h = h suspension
  change_shown c suspension revocation s b h = h revocation
  change_shown c suspension suspension s b h = ground arith

  elsewhere :
      (c : Change) (p q : StatusPurpose) (s : Store) (j : ℕ)
      → i ≢ j
      → (if same_purpose p q && i == j then some c.set else bit s country q j) ≡ bit s country q j
  elsewhere c p q s j n = ground arith

  publish_change-records :
      (c : Change) (s : Store) → (publish_change country i c s).1.by_resident_id ≡ s.by_resident_id
  unfolding load_status_list save_status_list
  publish_change-records c s = elim (publish_change_cases c s) [
    | inl (_, f) ↦ ap (λ (r : Bool × Store). r.1.by_resident_id) f
    | inr (l, t, f) ↦ ap (λ (r : Bool × Store). r.1.by_resident_id) f
  ]

  -- The state that a publishing run must keep.
  pub record IsPublished (s s' : Store) (b : Bits) : Type 0 where
    pub valid : ListsValid s'
    pub shows : Shows s' country i b
    pub others : (q : StatusPurpose) (j : ℕ) → i ≢ j → bit s' country q j ≡ bit s country q j
    pub records : s'.by_resident_id ≡ s.by_resident_id

  pub publish_all_lem :
      (cs : List Change) (s s' : Store) (b : Bits)
      → ListsValid s
      → publish_all country i cs s ≡ (true, s')
      → Shows s country i b
      → IsPublished s s' (change_all cs b)
  unfolding publish_all
  publish_all_lem [] s s' b w e h =
      subst (λ (k : Store). IsPublished s k b) (ap (λ (r : Bool × Store). r.1) e)
        (record { valid = w; shows = h; others = λ q j n. refl; records = refl })
  publish_all_lem (c ∷ cs) s s' b w e h = elim (Bool-cases (publish_change country i c s).0) [
    | inl t ↦
        let s1 = (publish_change country i c s).1 in
        let t' : publish_change country i c s ≡ (true, s1) = λ k. (t k, s1) in
        let (w1, bits1) = publish_change_lem c s s1 w t' in
        let rest =
          publish_all_lem cs s1 s' (change_one c c.purpose b) w1 (rw t at e)
            (λ q. bits1 q i ∙ change_shown c c.purpose q s b h) in
        record {
          valid = rest.valid;
          shows = rest.shows;
          others = λ q j n. rest.others q j n ∙ bits1 q j ∙ elsewhere c c.purpose q s j n;
          records = rest.records ∙ publish_change-records c s;
        }
    | inr f ↦ cc (ap (λ (r : Bool × Store). r.0) (rw f at e))
  ]
