-- ===== src/Consent/Service/Processing.antt =====
-- When `mayProcess` permits the processing of a record.
use open_residency.Base.{
  ℕ, ◌≡◌, ◌⊎◌, ◌↔◌, refl, sym, Option, some, none, true, false, arith, inl, inr, subst,
}
use open_residency.Consent.LegalBasis.{LegalBasis, resolve}
use open_residency.Consent.Service.Types.{
  ConsentRecord, ConsentStatus, active, revoked, expired, replaced, same_status, is_expired,
}
use open_residency.Consent.Service.Grant.{
  ConsentPolicy, Platform, permission, may_process, is_consent,
}

active_not_revoked :
    (s : ConsentStatus) → same_status s active ≡ true → same_status s revoked ≡ false
active_not_revoked active e = refl
active_not_revoked revoked e = ground arith
active_not_revoked expired e = ground arith
active_not_revoked replaced e = ground arith

module _ (platform : Platform) (policy : ConsentPolicy) (r : ConsentRecord) (now : ℕ) where
  -- The basis holds, the record was not replaced, and where the basis is consent, that consent is
  -- active and has not expired.
  pub record IsLawful (basis : LegalBasis) : Type 0 where
    pub resolved :
        resolve platform.date_parse policy.legal_bases r.legal_basis_reference now ≡ some basis
    pub in_place : same_status r.status replaced ≡ false
    pub agreed :
        (is_consent basis.kind ≡ false)
        ⊎ ((same_status r.status active ≡ true) × (is_expired platform.date_parse r now ≡ false))

  abbrev pub IsPermitted : Type 0
  IsPermitted = (may_process platform policy r now).permitted ≡ true

  permitted-IsLawful :
      (o : Option LegalBasis)
      → resolve platform.date_parse policy.legal_bases r.legal_basis_reference now ≡ o
      → (permission platform policy r o now).permitted ≡ true
      → (basis : LegalBasis) × IsLawful basis
  unfolding permission
  permitted-IsLawful none e p = cc
  permitted-IsLawful (some basis) e p =
      (basis, record { resolved = e; in_place = ground arith; agreed = ground arith })

  lawful_permitted :
      (basis : LegalBasis)
      → IsLawful basis
      → (permission platform policy r (some basis) now).permitted ≡ true
  unfolding permission
  lawful_permitted basis l = go l.in_place l.agreed
    where
      go :
          same_status r.status replaced ≡ false
          → (is_consent basis.kind ≡ false)
            ⊎ ((same_status r.status active ≡ true)
                × (is_expired platform.date_parse r now ≡ false))
          → (permission platform policy r (some basis) now).permitted ≡ true
      go a (inl b) = ground arith
      go a (inr (b, c)) = ground (arith, active_not_revoked r.status b)

  -- Processing under a record is permitted exactly when the legal basis that the record names is in
  -- force at that instant, the record was not replaced, and, where that basis is consent, the record
  -- is active and has not expired.
  pub may_process-permitted_iff : IsPermitted ↔ ((basis : LegalBasis) × IsLawful basis)
  unfolding may_process
  may_process-permitted_iff = (
    λ p.
        permitted-IsLawful
          (resolve platform.date_parse policy.legal_bases r.legal_basis_reference now) refl p,
    λ (basis, l).
        subst (λ (o : Option LegalBasis). (permission platform policy r o now).permitted ≡ true)
          (sym l.resolved) (lawful_permitted basis l),
  )
