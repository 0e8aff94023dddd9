-- ===== src/Residency/Store/Erasure.antt =====
-- Erasure leaves the two indices in agreement and nothing that identifies the person.
use open_residency.Base.{
  ◌≡◌, ◌≢◌, refl, sym, ap, ◌∙◌, String, Option, some, none, arith, eq_iff, str_eq_refl, subst,
}
use open_residency.Base.Dict
use open_residency.Base.Dict.{Dict, get-put, get-delete}
use open_residency.Residency.Store.{
  ResidentRecord, Store, find_by_resident_id, find_by_subject_ref, rekeyed, save, no_person,
  erased_record, erase,
}
use open_residency.Residency.Store.Records.{IsConsistent, IsFree, save-IsConsistent}

-- Agreement is about what lookups give.
IsConsistent-ext :
    (s t : Store)
    → IsConsistent s
    → t.by_resident_id ≡ s.by_resident_id
    → ((k : String) → Dict.get t.residents k ≡ Dict.get s.residents k)
    → IsConsistent t
IsConsistent-ext s t h e f = record {
  by_id = λ k r g.
      let (a, b) = h.by_id k r (ap (λ (m : Dict ResidentRecord). Dict.get m k) (sym e) ∙ g) in
      (a, f r.subject_ref ∙ b);
  by_ref = λ k r g.
      let (a, b) = h.by_ref k r (sym (f k) ∙ g) in
      (a, ap (λ (m : Dict ResidentRecord). Dict.get m r.resident_id) e ∙ b);
}

-- Dropping an entry and then writing gives what the re-keying of a save gives.
dropped :
    (residents : Dict ResidentRecord) (existing r : ResidentRecord) (k : String)
    → Dict.get (Dict.put (Dict.delete residents existing.subject_ref) r.subject_ref r) k
      ≡ Dict.get (Dict.put (rekeyed residents (some existing) r) r.subject_ref r) k
unfolding rekeyed
dropped residents existing r k = ground (
  arith,
  get-put (Dict.delete residents existing.subject_ref) r.subject_ref k r,
  get-put residents r.subject_ref k r,
  get-delete residents existing.subject_ref k,
  eq_iff existing.subject_ref r.subject_ref,
  eq_iff existing.subject_ref k,
  eq_iff r.subject_ref k,
)

-- What an erasure leaves.
pub record IsErased (s : Store) (resident_id tombstone old : String) (e : ResidentRecord)
    : Type 0 where
  pub consistent : IsConsistent s
  pub under_id : find_by_resident_id s resident_id ≡ some e
  pub under_tombstone : find_by_subject_ref s tombstone ≡ some e
  pub forgotten : old ≢ tombstone → find_by_subject_ref s old ≡ none
  pub nameless : e.person ≡ no_person
  pub placeless : e.residence.address ≡ none

module _ (s : Store) (resident_id tombstone at : String) (existing : ResidentRecord) where
  abbrev erased : ResidentRecord
  erased = erased_record existing tombstone at

  abbrev after : Store
  after = record s {
    residents = Dict.put (Dict.delete s.residents existing.subject_ref) tombstone erased;
    by_resident_id = Dict.put s.by_resident_id resident_id erased;
  }

  erase_found :
      Dict.get s.by_resident_id resident_id ≡ some existing
      → erase s resident_id tombstone at ≡ (some erased, after)
  unfolding erase
  erase_found g = rw (g, erase) refl

  after-IsConsistent :
      IsConsistent s
      → Dict.get s.by_resident_id resident_id ≡ some existing
      → IsFree s erased
      → IsConsistent after
  unfolding save erased_record
  after-IsConsistent h g free =
      let own = (h.by_id resident_id existing g).0 in
      IsConsistent-ext (save s erased) after (save-IsConsistent s erased h free)
        (ap (λ (k : String). Dict.put s.by_resident_id k erased) (sym own))
        (λ k.
          dropped s.residents existing erased k
          ∙ ap
              (λ (o : Option ResidentRecord).
                Dict.get (Dict.put (rekeyed s.residents o erased) tombstone erased) k)
              (sym (ap (Dict.get s.by_resident_id) own ∙ g)))

  after-IsErased :
      IsConsistent s
      → Dict.get s.by_resident_id resident_id ≡ some existing
      → IsFree s erased
      → IsErased after resident_id tombstone existing.subject_ref erased
  unfolding find_by_resident_id find_by_subject_ref
  after-IsErased h g free = record {
    consistent = after-IsConsistent h g free;
    under_id =
        ground
          (arith, get-put s.by_resident_id resident_id resident_id erased, str_eq_refl resident_id);
    under_tombstone = ground (
      arith,
      get-put (Dict.delete s.residents existing.subject_ref) tombstone tombstone erased,
      str_eq_refl tombstone,
    );
    forgotten = λ n. ground (
      arith,
      get-put (Dict.delete s.residents existing.subject_ref) tombstone existing.subject_ref erased,
      get-delete s.residents existing.subject_ref existing.subject_ref,
      eq_iff tombstone existing.subject_ref,
      str_eq_refl existing.subject_ref,
    );
    nameless = unfold erased_record in refl;
    placeless = unfold erased_record in refl;
  }

  -- In a store whose indices agree, the erasure of a known resident, under a tombstone that no other
  -- resident holds, answers with the erased record. It is what both indices then lead to, they still
  -- agree, the old reference finds nothing unless it is the tombstone, and the record has no name,
  -- birth date or gender and no address.
  pub erase-IsErased :
      IsConsistent s
      → Dict.get s.by_resident_id resident_id ≡ some existing
      → IsFree s erased
      → ((erase s resident_id tombstone at).0 ≡ some erased)
        × IsErased
            (erase s resident_id tombstone at).1
            resident_id
            tombstone
            existing.subject_ref
            erased
  erase-IsErased h g free = (
    ap (λ (x : Option ResidentRecord × Store). x.0) (erase_found g),
    subst
        (λ (x : Option ResidentRecord × Store).
          IsErased x.1 resident_id tombstone existing.subject_ref erased)
        (sym (erase_found g)) (after-IsErased h g free),
  )
