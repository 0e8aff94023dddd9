-- ===== src/Consent/Service/Grant.antt =====
-- `grant` and `mayProcess` of consent.ts. The clock is read once for a call: the source reads it for
-- the legal basis, for the consent in force and for the record, one right after the other.
use open_residency.Base.{
  ℕ, ◌+◌, ◌*◌, Bool, true, false, ◌&&◌, ◌||◌, not, String, Option, none, some, List, map,
  if◌then◌else◌, ◌==◌, truthy, trim, str_eq, ◌&◌, any, filter, is_some,
}
use open_residency.Consent.LegalBasis.{
  LegalBasisKind, LegalBasis, Registry, consent, kind_word, consent_legal_basis_id, get_basis,
  resolve,
}
use open_residency.Consent.Service.Types.{
  ConsentRecord, ConsentEvidence, EvidenceMethod, unrecorded, active, replaced, revoked,
  same_status, Store, save, update, find_active, same_scopes, is_expired,
}

pub record GrantInput : Type 0 where
  pub subject_ref : String
  pub resident_id : String
  pub relying_party : String
  pub relying_party_name : Option String
  pub purpose : String
  pub scopes : List String
  pub validity_days : Option ℕ
  pub grant_id : Option String
  pub data_categories : List String
  pub evidence : ConsentEvidence
  pub legal_basis_reference : Option String
  pub controller : Option String
  pub processor : Option String

pub record ConsentPolicy : Type 0 where
  pub controller : String
  pub processor : Option String
  pub legal_bases : Registry
  pub default_legal_basis_reference : Option String

pub data GrantOutcome : Type 0 where
  ok : ConsentRecord → String → GrantOutcome
  refused : String → GrantOutcome

abbrev or_text : Option String → String → String
or_text none d = d
or_text (some s) d = s

abbrev or_option : Option String → Option String → Option String
or_option none o = o
or_option (some s) o = some s

-- `o?.trim() || d`
abbrev trimmed_or : Option String → String → String
trimmed_or none d = d
trimmed_or (some s) d = if truthy (trim s) then trim s else d

-- `o?.trim() || undefined`
abbrev trimmed_option : Option String → Option String
trimmed_option none = none
trimmed_option (some s) = if truthy (trim s) then some (trim s) else none

abbrev is_unrecorded : EvidenceMethod → Bool
is_unrecorded unrecorded = true
is_unrecorded _ = false

-- `if (s)` on an optional text
abbrev pub is_truthy : Option String → Bool
is_truthy none = false
is_truthy (some s) = truthy s

abbrev pub option_eq : Option String → Option String → Bool
option_eq none none = true
option_eq (some a) (some b) = str_eq a b
option_eq _ _ = false

abbrev pub is_consent : LegalBasisKind → Bool
is_consent consent = true
is_consent _ = false

pub record Permission : Type 0 where
  pub permitted : Bool
  pub basis : Option LegalBasis
  pub reason : String

pub record Platform : Type 0 where
  pub date_parse : String → Option ℕ
  pub to_iso : ℕ → String
  pub sign : ConsentRecord → String

abbrev ms_per_day : ℕ
ms_per_day = 86400000

unfoldable pub controller_of : ConsentPolicy → GrantInput → String
controller_of policy input = trim (or_text input.controller policy.controller)

unfoldable pub reference_of : ConsentPolicy → GrantInput → String
reference_of policy input =
    trimmed_or input.legal_basis_reference
      (trimmed_or policy.default_legal_basis_reference consent_legal_basis_id)

unfoldable pub categories_of : GrantInput → List String
categories_of input = filter truthy (map trim input.data_categories)

module _ (platform : Platform) (policy : ConsentPolicy) where
  open platform use {date_parse, to_iso, sign}

  -- The checks before anything is read: the reason for a refusal, if there is one.
  unfoldable pub refusal : GrantInput → ℕ → Option String
  refusal input now =
      if not (truthy (controller_of policy input))
      then some "CONTROLLER_REQUIRED"
      else if not (any (λ c. truthy (trim c)) input.data_categories)
      then some "DATA_CATEGORIES_REQUIRED"
      else if not (truthy (trim input.evidence.reference)) || is_unrecorded input.evidence.method
      then some "EVIDENCE_OF_AGREEMENT_REQUIRED"
      else if not (is_some (date_parse input.evidence.at))
      then some "EVIDENCE_TIMESTAMP_REQUIRED"
      else if not (is_some (resolve date_parse policy.legal_bases (reference_of policy input) now))
      then some (
          if is_some (get_basis policy.legal_bases (reference_of policy input))
          then "LEGAL_BASIS_NOT_IN_FORCE"
          else "UNKNOWN_LEGAL_BASIS")
      else none

  -- Is the consent in force the one that is asked for?
  unfoldable pub covers : ConsentRecord → GrantInput → Bool
  covers existing input =
      same_scopes existing.scopes input.scopes
      && same_scopes existing.data_categories (categories_of input)
      && str_eq existing.legal_basis_reference (reference_of policy input)

  abbrev version_after : Option ConsentRecord → ℕ
  version_after none = 1
  version_after (some existing) = existing.version + 1

  abbrev id_of : Option ConsentRecord → Option String
  id_of none = none
  id_of (some existing) = some existing.id

  -- The record that a new grant writes; `id` and `receipt_id` are the random identifiers.
  unfoldable pub new_record :
      GrantInput → Option ConsentRecord → String → String → ℕ → ConsentRecord
  new_record input existing id receipt_id now = record {
    id = id;
    subject_ref = input.subject_ref;
    resident_id = input.resident_id;
    relying_party = input.relying_party;
    relying_party_name = input.relying_party_name;
    purpose = input.purpose;
    scopes = input.scopes;
    status = active;
    granted_at = to_iso now;
    expires_at = elim input.validity_days [
      | none ↦ none
      | some days ↦ if days == 0 then none else some (to_iso (now + days * ms_per_day))
    ];
    revoked_at = none;
    receipt_id = receipt_id;
    controller = controller_of policy input;
    processor = trimmed_option (or_option input.processor policy.processor);
    data_categories = categories_of input;
    evidence = record (input.evidence) { reference = trim input.evidence.reference };
    legal_basis_reference = reference_of policy input;
    version = version_after existing;
    supersedes_id = id_of existing;
    superseded_by_id = none;
    withdrawn_by = none;
    grant_id = input.grant_id;
  }

  -- An identical consent is returned as it is, but for a new grant identifier.
  unfoldable pub keep_existing : Store → ConsentRecord → GrantInput → GrantOutcome × Store
  keep_existing s existing input =
      if is_truthy input.grant_id && not (option_eq input.grant_id existing.grant_id)
      then (
        ok (record existing { grant_id = input.grant_id })
            (sign (record existing { grant_id = input.grant_id })),
        update s (record existing { grant_id = input.grant_id }),
      )
      else (ok existing (sign existing), s)

  abbrev pub replaced_by : ConsentRecord → String → ConsentRecord
  replaced_by existing id = record existing { status = replaced; superseded_by_id = some id }

  -- A new record is saved first; then the one that it replaces is closed.
  unfoldable pub write_new :
      Store → Option ConsentRecord → GrantInput → String → String → ℕ → GrantOutcome × Store
  write_new s none input id receipt_id now = (
    ok (new_record input none id receipt_id now) (sign (new_record input none id receipt_id now)),
    save s (new_record input none id receipt_id now),
  )
  write_new s (some existing) input id receipt_id now = (
    ok (new_record input (some existing) id receipt_id now)
        (sign (new_record input (some existing) id receipt_id now)),
    update (save s (new_record input (some existing) id receipt_id now)) (replaced_by existing id),
  )

  unfoldable pub grant_over :
      Store → Option ConsentRecord → GrantInput → String → String → ℕ → GrantOutcome × Store
  grant_over s none input id receipt_id now = write_new s none input id receipt_id now
  grant_over s (some existing) input id receipt_id now =
      if covers existing input
      then keep_existing s existing input
      else write_new s (some existing) input id receipt_id now

  unfoldable pub grant : Store → GrantInput → String → String → ℕ → GrantOutcome × Store
  grant s input id receipt_id now = elim (refusal input now) [
    | some reason ↦ (refused reason, s)
    | none ↦
        let (existing, s') = find_active date_parse s input.resident_id input.relying_party now in
        grant_over s' existing input id receipt_id now
  ]

  -- `mayProcess` on the basis that was resolved.
  unfoldable pub permission : ConsentRecord → Option LegalBasis → ℕ → Permission
  permission r none now = record {
    permitted = false;
    basis = none;
    reason = "LEGAL_BASIS_NOT_IN_FORCE";
  }
  permission r (some basis) now =
      if same_status r.status replaced
      then record { permitted = false; basis = some basis; reason = "CONSENT_REPLACED" }
      else if not (is_consent basis.kind)
      then record {
        permitted = true;
        basis = some basis;
        reason = "OTHER_LEGAL_BASIS_" & kind_word basis.kind;
      }
      else if same_status r.status revoked
      then record { permitted = false; basis = some basis; reason = "CONSENT_WITHDRAWN" }
      else if not (same_status r.status active) || is_expired date_parse r now
      then record { permitted = false; basis = some basis; reason = "CONSENT_EXPIRED" }
      else record { permitted = true; basis = some basis; reason = "CONSENT_ACTIVE" }

  unfoldable pub may_process : ConsentRecord → ℕ → Permission
  unfolding permission
  may_process r now =
      permission r (resolve date_parse policy.legal_bases r.legal_basis_reference now) now
