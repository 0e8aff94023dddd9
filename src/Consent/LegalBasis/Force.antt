-- ===== src/Consent/LegalBasis/Force.antt =====
-- When a legal basis is in force, and that a deactivation ends it for good.
use open_residency.Base.{
  ℕ, ◌≡◌, refl, true, false, String, Option, none, some, List, [], ◌∷◌, arith, truthy, trim, eq_iff,
  Option-cases, inl, inr, str_eq_refl,
}
use open_residency.Base.Dict
use open_residency.Base.Dict.{get-put}
use open_residency.Consent.LegalBasis.{
  LegalBasis, Registry, RegisterOutcome, registered, ok, deactivated, deactivate_found, deactivate,
  resolve, register, get_basis, or_now, if_truthy,
}

-- Operations of a running registry.
pub data Act : Type 0 where
  registers : LegalBasis → Act
  deactivates : String → String → String → Option String → String → Act

module _ (date_parse : String → Option ℕ) where
  abbrev registered_or : Registry → RegisterOutcome → Registry
  registered_or bases (registered b) = b
  registered_or bases _ = bases

  unfoldable pub step : Registry → Act → Registry
  step bases (registers basis) = registered_or bases (register date_parse bases basis)
  step bases (deactivates id reason authority at now) =
      (deactivate bases id reason authority at now).1

  unfoldable pub run : Registry → List Act → Registry
  run bases [] = bases
  run bases (a ∷ acts) = run (step bases a) acts

  -- A basis with a deactivation on record.
  abbrev IsOver : LegalBasis → Type 0
  IsOver b = if_truthy b.deactivated_at false (λ s. true) ≡ true

  over_registers :
      (bases : Registry) (basis : LegalBasis) (id : String) (b : LegalBasis)
      → get_basis bases id ≡ some b
      → get_basis (step bases (registers basis)) id ≡ some b
  unfolding step get_basis register
  over_registers bases basis id b g =
      ground (arith, get-put bases basis.id id basis, eq_iff basis.id id)

  over_deactivates :
      (bases : Registry) (i reason authority now : String) (at : Option String) (id : String)
      (b : LegalBasis)
      → get_basis bases id ≡ some b
      → IsOver b
      → get_basis (deactivate bases i reason authority at now).1 id ≡ some b
  unfolding get_basis deactivate
  over_deactivates bases i reason authority now at id b g o =
      elim (Option-cases (Dict.get bases i)) [
        | inl e ↦ rw (e, deactivate) g
        | inr (x, e) ↦
            rw (e, deactivate)
              (ground (
                arith,
                get-put bases i id (deactivated x reason authority (or_now at now)),
                eq_iff i id,
              ))
      ]

  over_stays :
      (bases : Registry) (a : Act) (id : String) (b : LegalBasis)
      → get_basis bases id ≡ some b
      → IsOver b
      → get_basis (step bases a) id ≡ some b
  unfolding step
  over_stays bases (registers basis) id b g o = unfold step in over_registers bases basis id b g
  over_stays bases (deactivates i reason authority at now) id b g o =
      over_deactivates bases i reason authority now at id b g o

  over_resolve :
      (bases : Registry) (id : String) (b : LegalBasis) (at : ℕ)
      → get_basis bases id ≡ some b
      → IsOver b
      → resolve date_parse bases id at ≡ none
  unfolding get_basis resolve
  over_resolve bases id b at g o = rw (g, resolve, o) refl

  run_over :
      (bases : Registry) (acts : List Act) (id : String) (b : LegalBasis)
      → get_basis bases id ≡ some b
      → IsOver b
      → get_basis (run bases acts) id ≡ some b
  unfolding run
  run_over bases [] id b g o = g
  run_over bases (a ∷ acts) id b g o =
      run_over (step bases a) acts id b (over_stays bases a id b g o) o

  -- What a deactivation that is accepted leaves behind.
  pub record IsDeactivated (bases : Registry) (id reason authority : String) (b : LegalBasis)
      : Type 0 where
    pub recorded : get_basis bases id ≡ some b
    pub over : IsOver b
    pub reason_kept : b.deactivation_reason ≡ some (trim reason)
    pub reason_given : truthy (trim reason) ≡ true
    pub authority_kept : b.deactivated_by ≡ some (trim authority)
    pub authority_given : truthy (trim authority) ≡ true

  deactivate_lem :
      (bases : Registry) (id reason authority now : String) (at : Option String) (b : LegalBasis)
      (after : Registry)
      → deactivate bases id reason authority at now ≡ (ok b, after)
      → truthy (or_now at now) ≡ true
      → IsDeactivated after id reason authority b
  unfolding get_basis
  deactivate_lem bases id reason authority now at b after e t =
      elim (Option-cases (Dict.get bases id)) [
        | inl n ↦ unfold deactivate in cc (rw (n, deactivate) at e)
        | inr (x, f) ↦ unfold deactivate in found x (rw (f, deactivate) at e)
      ]
    where
      found :
          (x : LegalBasis)
          → deactivate_found bases id x reason authority (or_now at now) ≡ (ok b, after)
          → IsDeactivated after id reason authority b
      found x g =
          unfold deactivate_found in
          ground (
            arith,
            get-put bases id id (deactivated x reason authority (or_now at now)),
            str_eq_refl id,
          )

  -- Once a deactivation of a basis is accepted, whatever is registered or deactivated afterwards, the
  -- basis is never in force again, at any time; its record keeps the reason and the authority as
  -- given, trimmed and not blank.
  pub run-deactivate :
      (bases after : Registry) (id reason authority now : String) (at : Option String)
      (b : LegalBasis) (acts : List Act)
      → deactivate bases id reason authority at now ≡ (ok b, after)
      → truthy (or_now at now) ≡ true
      → ((t : ℕ) → resolve date_parse (run after acts) id t ≡ none)
        × IsDeactivated (run after acts) id reason authority b
  run-deactivate bases after id reason authority now at b acts e t =
      let d = deactivate_lem bases id reason authority now at b after e t in
      let kept = run_over after acts id b d.recorded d.over in
      (
        λ time. over_resolve (run after acts) id b time kept d.over,
        record {
          recorded = kept;
          over = d.over;
          reason_kept = d.reason_kept;
          reason_given = d.reason_given;
          authority_kept = d.authority_kept;
          authority_given = d.authority_given;
        },
      )
