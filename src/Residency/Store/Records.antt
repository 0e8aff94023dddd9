-- ===== src/Residency/Store/Records.antt =====
-- The two indices of the store agree, and erasure leaves nothing that identifies a person.
use open_residency.Base.{
  ◌≡◌, ◌≢◌, refl, inl, inr, false, String, Option, none, some, arith, eq_iff, str_eq, Bool-cases,
  str_eq_refl,
}
use open_residency.Base.Dict
use open_residency.Base.Dict.{Dict, get-put, get-delete}
use open_residency.Residency.Store.{ResidentRecord, Store, rekeyed, save}

-- Each index leads to a record that carries its key and that the other index holds too.
pub record IsConsistent (s : Store) : Type 0 where
  pub by_id :
      (k : String) (r : ResidentRecord)
      → Dict.get s.by_resident_id k ≡ some r
      → (r.resident_id ≡ k) × (Dict.get s.residents r.subject_ref ≡ some r)
  pub by_ref :
      (k : String) (r : ResidentRecord)
      → Dict.get s.residents k ≡ some r
      → (r.subject_ref ≡ k) × (Dict.get s.by_resident_id r.resident_id ≡ some r)

-- No other resident holds the reference of the record.
abbrev pub IsFree : Store → ResidentRecord → Type 0
IsFree s r =
    (q : ResidentRecord)
    → Dict.get s.residents r.subject_ref ≡ some q
    → q.resident_id ≡ r.resident_id

module _ (s : Store) (r : ResidentRecord) (h : IsConsistent s) (free : IsFree s r) where
  -- A record of another resident survives the re-keying.
  rekeyed_keeps :
      (q : ResidentRecord) (o : Option ResidentRecord)
      → Dict.get s.by_resident_id r.resident_id ≡ o
      → Dict.get s.residents q.subject_ref ≡ some q
      → q.resident_id ≢ r.resident_id
      → Dict.get (rekeyed s.residents o r) q.subject_ref ≡ some q
  unfolding rekeyed
  rekeyed_keeps q none e g n = g
  rekeyed_keeps q (some p) e g n = ground (
    arith,
    h.by_id r.resident_id p,
    get-delete s.residents p.subject_ref q.subject_ref,
    eq_iff p.subject_ref q.subject_ref,
  )

  -- What the re-keying leaves was there before, and is not this resident's old entry.
  rekeyed_leaves :
      (k : String) (q : ResidentRecord) (o : Option ResidentRecord)
      → Dict.get s.by_resident_id r.resident_id ≡ o
      → Dict.get (rekeyed s.residents o r) k ≡ some q
      → str_eq r.subject_ref k ≡ false
      → (Dict.get s.residents k ≡ some q) × (q.resident_id ≢ r.resident_id)
  unfolding rekeyed
  rekeyed_leaves k q none e g n = (g, λ same. ground (arith, h.by_ref k q))
  rekeyed_leaves k q (some p) e g n = (
    ground (arith, get-delete s.residents p.subject_ref k),
    λ same. ground (
      arith,
      get-delete s.residents p.subject_ref k,
      h.by_ref k q,
      eq_iff p.subject_ref k,
      eq_iff r.subject_ref k,
      eq_iff p.subject_ref r.subject_ref,
    ),
  )

  save_by_id :
      (k : String) (q : ResidentRecord)
      → Dict.get (save s r).by_resident_id k ≡ some q
      → (q.resident_id ≡ k) × (Dict.get (save s r).residents q.subject_ref ≡ some q)
  unfolding save
  save_by_id k q e = elim (Bool-cases (str_eq r.resident_id k)) [
    | inl t ↦ ground (
      arith,
      eq_iff r.resident_id k,
      get-put s.by_resident_id r.resident_id k r,
      get-put (rekeyed s.residents (Dict.get s.by_resident_id r.resident_id) r) r.subject_ref
          r.subject_ref r,
      str_eq_refl r.subject_ref,
    )
    | inr f ↦ ground (
      arith,
      eq_iff r.resident_id k,
      get-put s.by_resident_id r.resident_id k r,
      h.by_id k q,
      free q,
      eq_iff r.subject_ref q.subject_ref,
      get-put (rekeyed s.residents (Dict.get s.by_resident_id r.resident_id) r) r.subject_ref
          q.subject_ref r,
      rekeyed_keeps q (Dict.get s.by_resident_id r.resident_id) refl,
    )
  ]

  save_by_ref :
      (k : String) (q : ResidentRecord)
      → Dict.get (save s r).residents k ≡ some q
      → (q.subject_ref ≡ k) × (Dict.get (save s r).by_resident_id q.resident_id ≡ some q)
  unfolding save
  save_by_ref k q e = elim (Bool-cases (str_eq r.subject_ref k)) [
    | inl t ↦ ground (
      arith,
      eq_iff r.subject_ref k,
      get-put (rekeyed s.residents (Dict.get s.by_resident_id r.resident_id) r) r.subject_ref k r,
      get-put s.by_resident_id r.resident_id r.resident_id r,
      str_eq_refl r.resident_id,
    )
    | inr f ↦ ground (
      arith,
      get-put (rekeyed s.residents (Dict.get s.by_resident_id r.resident_id) r) r.subject_ref k r,
      rekeyed_leaves k q (Dict.get s.by_resident_id r.resident_id) refl,
      h.by_ref k q,
      get-put s.by_resident_id r.resident_id q.resident_id r,
      eq_iff r.resident_id q.resident_id,
    )
  ]

-- Saving a record whose reference no other resident holds keeps the two indices in agreement.
pub save-IsConsistent :
    (s : Store) (r : ResidentRecord) → IsConsistent s → IsFree s r → IsConsistent (save s r)
save-IsConsistent s r h free = record {
  by_id = save_by_id s r h free;
  by_ref = save_by_ref s r h free;
}
