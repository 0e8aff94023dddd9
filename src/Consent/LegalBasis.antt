-- ===== src/Consent/LegalBasis.antt =====
-- src/core/consent/legal-basis.ts: the closed register of legal bases. `date_parse` is `Date.parse`,
-- with `none` for NaN; instants are milliseconds from the earliest date of the language.
pub mod Force
mod Tests
use open_residency.Base.{
  ℕ, Bool, true, false, ◌&&◌, ◌||◌, not, String, Option, none, some, List, [], ◌∷◌, ◌++◌, map,
  if◌then◌else◌, leb, ltb, given, trimmed, truthy, trim, is_some, any, filter, ◌&◌,
}
use open_residency.Base.Dict
use open_residency.Base.Dict.{Dict}

pub data LegalBasisKind : Type 0 where
  consent contract legal_obligation vital_interests public_task legitimate_interests :
      LegalBasisKind

-- `basis.kind.toUpperCase()`
abbrev pub kind_word : LegalBasisKind → String
kind_word consent = "CONSENT"
kind_word contract = "CONTRACT"
kind_word legal_obligation = "LEGAL_OBLIGATION"
kind_word vital_interests = "VITAL_INTERESTS"
kind_word public_task = "PUBLIC_TASK"
kind_word legitimate_interests = "LEGITIMATE_INTERESTS"

pub record LegalBasis : Type 0 where
  pub id : String
  pub kind : LegalBasisKind
  pub name : String
  pub instrument : String
  pub jurisdiction : String
  pub controller : String
  pub version : String
  pub effective_from : String
  pub effective_to : Option String
  pub deactivated_at : Option String
  pub deactivation_reason : Option String
  pub deactivated_by : Option String

abbrev pub Registry : Type 0
Registry = Dict LegalBasis

pub data RegisterOutcome : Type 0 where
  registered : Registry → RegisterOutcome
  rejected : String → RegisterOutcome

pub data DeactivateOutcome : Type 0 where
  ok : LegalBasis → DeactivateOutcome
  refused : String → DeactivateOutcome

abbrev pub consent_legal_basis_id : String
consent_legal_basis_id = "orcs:legal-basis:consent"

unfoldable pub default_legal_bases : String → String → List LegalBasis
default_legal_bases jurisdiction controller =
    record {
      id = consent_legal_basis_id;
      kind = consent;
      name = "Consent of the data subject";
      instrument =
          "The consent recorded in this register. Recognised as a lawful basis by NDPA 2023 s.25(1)(a), GDPR Art.6(1)(a) and Convention 108+ Art.5(2).";
      jurisdiction = jurisdiction;
      controller = controller;
      version = "1.0";
      effective_from = "1970-01-01";
      effective_to = none;
      deactivated_at = none;
      deactivation_reason = none;
      deactivated_by = none;
    }
    ∷ []

-- `s ? f(s) : d` on an optional text
abbrev pub if_truthy {ℓ} : {A : Type ℓ} → Option String → A → (String → A) → A
if_truthy none d f = d
if_truthy (some s) d f = if truthy s then f s else d

unfoldable pub get_basis : Registry → String → Option LegalBasis
get_basis bases id = Dict.get bases id

abbrev pub or_now : Option String → String → String
or_now none now = now
or_now (some at) now = at

-- The record that a deactivation writes.
unfoldable pub deactivated : LegalBasis → String → String → String → LegalBasis
deactivated basis reason authority at = record basis {
  deactivated_at = some at;
  deactivation_reason = some (trim reason);
  deactivated_by = some (trim authority);
}

-- The guards on a basis that was found.
unfoldable pub deactivate_found :
    Registry → String → LegalBasis → String → String → String → DeactivateOutcome × Registry
unfolding deactivated
deactivate_found bases id basis reason authority at =
    if if_truthy basis.deactivated_at false (λ s. true)
    then (refused "LEGAL_BASIS_ALREADY_DEACTIVATED", bases)
    else if not (truthy (trim reason))
    then (refused "REASON_REQUIRED_FOR_DEACTIVATION", bases)
    else if not (truthy (trim authority))
    then (refused "AUTHORITY_REQUIRED_FOR_DEACTIVATION", bases)
    else (
      ok (deactivated basis reason authority at),
      Dict.put bases id (deactivated basis reason authority at),
    )

unfoldable pub deactivate :
    Registry → String → String → String → Option String → String → DeactivateOutcome × Registry
unfolding deactivate_found
deactivate bases id reason authority at now = elim (Dict.get bases id) [
  | none ↦ (refused "UNKNOWN_LEGAL_BASIS", bases)
  | some basis ↦ deactivate_found bases id basis reason authority (or_now at now)
]

abbrev text_or : Option String → String → String
text_or none d = d
text_or (some s) d = s

-- `Legal basis "…"`
abbrev named : LegalBasis → String
named basis = "Legal basis \"" & basis.id & "\""

-- The fields that a basis must declare, and whether each is missing.
abbrev missing_fields : LegalBasis → List (String × Bool)
missing_fields basis =
    ("instrument", not (truthy (trim basis.instrument)))
    ∷ ("controller", not (truthy (trim basis.controller)))
    ∷ ("jurisdiction", not (truthy (trim basis.jurisdiction)))
    ∷ ("version", not (truthy (trim basis.version)))
    ∷ []

-- `missing.join(', ')`
abbrev listed : List (String × Bool) → String
listed [] = ""
listed (f ∷ []) = f.0
listed (f ∷ g ∷ fs) = f.0 & ", " & listed (g ∷ fs)

module _ (date_parse : String → Option ℕ) where
  -- `Date.parse(a) > at` and `Date.parse(a) <= at`: a comparison with NaN is false.
  abbrev after_instant : Option ℕ → ℕ → Bool
  after_instant none at = false
  after_instant (some t) at = ltb at t

  abbrev up_to_instant : Option ℕ → ℕ → Bool
  up_to_instant none at = false
  up_to_instant (some t) at = leb t at

  -- Does a registered basis hold at an instant?
  unfoldable pub in_force : LegalBasis → ℕ → Bool
  in_force basis at =
      not (if_truthy basis.deactivated_at false (λ s. true))
      && not (after_instant (date_parse basis.effective_from) at)
      && not (if_truthy basis.effective_to false (λ s. up_to_instant (date_parse s) at))

  unfoldable pub resolve : Registry → String → ℕ → Option LegalBasis
  unfolding in_force
  resolve bases id at = elim (Dict.get bases id) [
    | none ↦ none
    | some basis ↦ if in_force basis at then some basis else none
  ]

  abbrev unreadable_end : Option String → Bool
  unreadable_end none = false
  unreadable_end (some s) = not (is_some (date_parse s))

  -- An error that is thrown is `rejected` with its message.
  unfoldable pub register : Registry → LegalBasis → RegisterOutcome
  register bases basis =
      if is_some (Dict.get bases basis.id)
      then rejected (named basis & " is already registered")
      else if any (λ f. f.1) (missing_fields basis)
      then rejected (
          named basis
          & " must declare "
          & listed (filter (λ f. f.1) (missing_fields basis))
          & " (ORCS §9); an unattributed basis is not something a regulator can check.")
      else if not (is_some (date_parse basis.effective_from))
      then rejected (named basis & " has an unparseable effectiveFrom")
      else if unreadable_end basis.effective_to
      then rejected (
          named basis
          & " has an unparseable effectiveTo (\""
          & text_or basis.effective_to ""
          & "\"); an unreadable end date would make the basis perpetual rather than time-limited.")
      else registered (Dict.put bases basis.id basis)

  -- The constructor registers the bases in order; `none` means that it threw.
  abbrev registry_of : RegisterOutcome → Option Registry
  registry_of (registered bases) = some bases
  registry_of (rejected message) = none

  unfoldable pub register_all : Option Registry → List LegalBasis → Option Registry
  register_all acc [] = acc
  register_all none (b ∷ bs) = none
  register_all (some bases) (b ∷ bs) = register_all (registry_of (register bases b)) bs

  unfoldable pub new_registry : List LegalBasis → Option Registry
  new_registry bases = register_all (some []) bases

unfoldable pub list_bases : Registry → List LegalBasis
list_bases bases = Dict.values bases

-- A basis as local law declares it; its controller and version may be left to the deployment.
pub record DeclaredBasis : Type 0 where
  pub basis : LegalBasis
  pub own_controller : Option String
  pub own_version : Option String

unfoldable pub legal_bases_for_deployment : String → String → List DeclaredBasis → List LegalBasis
unfolding default_legal_bases
legal_bases_for_deployment jurisdiction controller declared =
    default_legal_bases jurisdiction controller
    ++ map
        (λ d. record (d.basis) {
          controller = text_or d.own_controller controller;
          version = text_or d.own_version "1.0";
        })
        declared
