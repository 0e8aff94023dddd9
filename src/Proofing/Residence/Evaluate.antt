-- ===== src/Proofing/Residence/Evaluate.antt =====
-- `evaluateResidence`. A `Platform` gives `upper`, the Unicode upper-casing of `toUpperCase`;
-- `address_key`, the normal form of an address, built by Unicode pattern replacements; `date_parse`,
-- `Date.parse` with `none` for NaN, in milliseconds from the earliest date that the language can
-- represent; and `decimal`, the text of a number.
use open_residency.Base.{
  ℕ, ◌+◌, ◌*◌, Bool, true, false, ◌&&◌, ◌||◌, not, String, Option, none, some, List, [], ◌∷◌, ltb,
  leb, if◌then◌else◌, any, trim, truthy, str_eq, ◌&◌, is_some,
}
use open_residency.Proofing.Residence.Types.{
  ResidenceAssuranceLevel, ral0, ral1, ral2, rank, level_word, min_level, ResidenceEvidenceMethod,
  self_declared, register_declared_residence, authority_attestation, document, geospatial_match,
  same_method, AttesterType, same_attester, ResidenceMode, dwelling, reference_address,
  no_fixed_abode, mode_word, ResidenceAnchor, address, ResidenceAddress, ResidenceEvidence,
  ModeRule, ResidencePolicy, DeclaredResidence, ResidenceOutcome,
}

abbrev pub ms_per_day : ℕ
ms_per_day = 86400000

-- `a ?? b` and `a?.f`
abbrev pub or_else {ℓ} : {A : Type ℓ} → Option A → A → A
or_else none d = d
or_else (some a) d = a

abbrev pub or_option {ℓ} : {A : Type ℓ} → Option A → Option A → Option A
or_option none o = o
or_option (some a) o = some a

abbrev pub then_option {ℓ κ} : {A : Type ℓ} {B : Type κ} → Option A → (A → Option B) → Option B
then_option none f = none
then_option (some a) f = f a

abbrev pub default_method_ceiling : ResidenceEvidenceMethod → ResidenceAssuranceLevel
default_method_ceiling self_declared = ral0
default_method_ceiling register_declared_residence = ral1
default_method_ceiling document = ral2
default_method_ceiling authority_attestation = ral2
default_method_ceiling geospatial_match = ral2

abbrev pub is_dwelling : ResidenceMode → Bool
is_dwelling dwelling = true
is_dwelling _ = false

abbrev pub is_address : Option ResidenceAnchor → Bool
is_address (some address) = true
is_address _ = false

abbrev pub is_true : Option Bool → Bool
is_true (some true) = true
is_true _ = false

abbrev pub mode_of : Option DeclaredResidence → ResidenceMode
mode_of declared = or_else (then_option declared (λ d. d.mode)) dwelling

abbrev pub mode_rule : ResidencePolicy → ResidenceMode → Option ModeRule
mode_rule policy dwelling = none
mode_rule policy reference_address = then_option policy.modes (λ m. m.reference_address_rule)
mode_rule policy no_fixed_abode =
    then_option policy.modes (λ m. then_option m.no_fixed_abode_rule (λ r. some r.rule))

unfoldable pub mode_admitted : ResidencePolicy → ResidenceMode → Bool
mode_admitted policy mode =
    is_dwelling mode || is_true (then_option (mode_rule policy mode) (λ r. some r.allowed))

-- The attester gate of an attestation.
unfoldable pub attester_accepted : ResidencePolicy → ResidenceMode → Option AttesterType → Bool
attester_accepted policy mode attester =
    let accepted =
      or_option (then_option (mode_rule policy mode) (λ r. r.accepted_attester_types))
        (or_else policy.attestation none) in
    elim accepted [
      | none ↦ true
      | some types ↦ elim attester [ none ↦ false | some a ↦ any (same_attester a) types ]
    ]

-- The cap that the mode "no fixed abode" may put on a level.
abbrev pub abode_ceiling : ResidencePolicy → ResidenceMode → Option ResidenceAssuranceLevel
abode_ceiling policy no_fixed_abode =
    then_option policy.modes (λ m. then_option m.no_fixed_abode_rule (λ r. r.ceiling))
abode_ceiling policy _ = none

abbrev pub capped :
    Option ResidenceAssuranceLevel → ResidenceAssuranceLevel → ResidenceAssuranceLevel
capped none level = level
capped (some c) level = min_level level c

unfoldable pub default_residence_policy : ResidencePolicy
default_residence_policy = record {
  required = false;
  target_level = ral1;
  accepted_methods =
      register_declared_residence ∷ authority_attestation ∷ document ∷ geospatial_match ∷ [];
  unit_match_required = true;
  anchor = none;
  recency_days = none;
  method_ceiling = λ m. none;
  accept_foundational_residence = false;
  minimum_duration_days = none;
  intent_to_reside_suffices = none;
  attestation = none;
  modes = none;
}

-- The outcome before any evidence: nothing proved, which is what self-declaration gives.
abbrev pub floor : ResidenceOutcome
floor = record {
  level = ral0;
  satisfied = false;
  method = self_declared;
  address = none;
  unit = none;
  as_of = none;
  since = none;
  mode = none;
  attester_type = none;
  intent_declared = none;
  reason = none;
}

unfoldable pub meets_target : ResidencePolicy → ResidenceOutcome → Bool
meets_target policy best = leb (rank policy.target_level) (rank best.level)

-- When residence began: what the evidence says, or else what was declared.
abbrev pub since_of : Option DeclaredResidence → ResidenceOutcome → Option String
since_of declared best = or_option best.since (then_option declared (λ d. d.since))

-- What the language computes by its Unicode tables and its calendar.
pub record Platform : Type 0 where
  pub upper : String → String
  pub address_key : ResidenceAddress → String
  pub date_parse : String → Option ℕ
  pub decimal : ℕ → String

module _ (platform : Platform) where
  open platform use {upper, address_key, date_parse, decimal}

  abbrev pub norm : String → String
  norm s = upper (trim s)

  unfoldable pub addresses_match : Option ResidenceAddress → Option ResidenceAddress → Bool
  addresses_match none b = false
  addresses_match (some a) none = false
  addresses_match (some a) (some b) =
      truthy (address_key a) && truthy (address_key b) && str_eq (address_key a) (address_key b)

  -- `ageInDays(asOf, nowIso) > days`, where the age of no date and of an unreadable one is infinite
  abbrev pub older_from : Option ℕ → Option ℕ → ℕ → Bool
  older_from none now days = true
  older_from (some since) none days = true
  older_from (some since) (some now) days = ltb (since + days * ms_per_day) now

  unfoldable pub older : Option String → String → ℕ → Bool
  older as_of now_iso days =
      older_from (then_option as_of (λ s. if truthy s then date_parse s else none))
        (date_parse now_iso) days

  -- `ageInDays(asOf, nowIso) < days`, in the same way
  abbrev pub younger_from : Option ℕ → Option ℕ → ℕ → Bool
  younger_from none now days = false
  younger_from (some since) none days = false
  younger_from (some since) (some now) days = ltb now (since + days * ms_per_day)

  unfoldable pub younger : Option String → String → ℕ → Bool
  younger as_of now_iso days =
      younger_from (then_option as_of (λ s. if truthy s then date_parse s else none))
        (date_parse now_iso) days

  module _ (policy : ResidencePolicy) (claimed_unit now_iso : String)
      (claimed_address : Option ResidenceAddress) (declared : Option DeclaredResidence) where
    -- The `continue` guards of the loop: does this evidence count at all?
    unfoldable pub admissible : ResidenceEvidence → Bool
    admissible ev =
        let mode = mode_of declared in
        let unit_matches : Bool = elim ev.admin_unit [
          | none ↦ false
          | some u ↦ str_eq (norm u) (norm claimed_unit)
        ] in
        not (same_method ev.method self_declared)
        && any (same_method ev.method) policy.accepted_methods
        && not (policy.unit_match_required && not unit_matches)
        && not (
            is_dwelling mode
            && is_address policy.anchor
            && not (addresses_match ev.address claimed_address))
        && not (not (is_dwelling mode) && not (same_method ev.method authority_attestation))
        && not (
            same_method ev.method authority_attestation
            && not (attester_accepted policy mode ev.attester_type))

    -- The level that the loop gives to evidence that counts.
    unfoldable pub grade : ResidenceEvidence → ResidenceAssuranceLevel
    grade ev =
        let ceiling =
          or_else (policy.method_ceiling ev.method) (default_method_ceiling ev.method) in
        let level = capped (abode_ceiling policy (mode_of declared)) ceiling in
        elim policy.recency_days [
          | none ↦ level
          | some days ↦ if older ev.as_of now_iso days then min_level level ral1 else level
        ]

    unfoldable pub from_evidence : ResidenceEvidence → ResidenceOutcome
    from_evidence ev = record {
      level = grade ev;
      satisfied = false;
      method = ev.method;
      address = ev.address;
      unit = ev.admin_unit;
      as_of = ev.as_of;
      since = ev.since;
      mode = none;
      attester_type = ev.attester_type;
      intent_declared = none;
      reason = none;
    }

    -- One round of the loop, and the loop.
    unfoldable pub better : ResidenceOutcome → ResidenceEvidence → ResidenceOutcome
    better best ev =
        if admissible ev && ltb (rank best.level) (rank (grade ev)) then from_evidence ev else best

    unfoldable pub strongest : ResidenceOutcome → List ResidenceEvidence → ResidenceOutcome
    strongest best [] = best
    strongest best (ev ∷ evs) = strongest (better best ev) evs

    -- `durationReason`
    unfoldable pub duration_reason : Option String → Option String
    duration_reason since = elim policy.minimum_duration_days [
      | none ↦ none
      | some days ↦
          if is_true (then_option declared (λ d. d.intent_to_reside))
            && is_true policy.intent_to_reside_suffices
          then none
          else if not (truthy (or_else since ""))
          then some "RESIDENCE_DURATION_UNKNOWN"
          else if younger since now_iso days
          then some ("RESIDENCE_DURATION_BELOW_MINIMUM_" & decimal days & "D")
          else none
    ]

    unfoldable pub best_of : List ResidenceEvidence → ResidenceOutcome
    best_of evidences =
        strongest floor (if mode_admitted policy (mode_of declared) then evidences else [])

    -- The verdict at the end, on the best outcome of the loop.
    unfoldable pub judge : ResidenceOutcome → ResidenceOutcome
    judge best =
        let mode = mode_of declared in
        let duration = duration_reason (since_of declared best) in
        let satisfied =
          not policy.required
          || (mode_admitted policy mode && meets_target policy best && not (is_some duration)) in
        record best {
          since = since_of declared best;
          mode = some mode;
          intent_declared =
              or_option (then_option declared (λ d. d.intent_to_reside)) best.intent_declared;
          satisfied = satisfied;
          reason =
              if policy.required && not satisfied
              then (if not (mode_admitted policy mode)
                  then some ("RESIDENCE_MODE_NOT_ACCEPTED_" & mode_word mode)
                  else if not (meets_target policy best)
                  then some (
                      "PROOF_OF_RESIDENCE_BELOW_"
                      & level_word policy.target_level
                      & "_GOT_"
                      & level_word best.level)
                  else duration)
              else best.reason;
        }

    unfoldable pub evaluate_residence : List ResidenceEvidence → ResidenceOutcome
    evaluate_residence evidences = judge (best_of evidences)
