-- ===== src/Proofing/Residence/Types.antt =====
-- The vocabulary of residence.ts and address.ts: levels, evidence, policy and outcome.
use open_residency.Base.{ℕ, Bool, Option, String, List, ◌==◌, leb, if◌then◌else◌}

pub data ResidenceAssuranceLevel : Type 0 where
  ral0 ral1 ral2 ral3 : ResidenceAssuranceLevel

-- `RESIDENCE_LEVEL_RANK`
abbrev pub rank : ResidenceAssuranceLevel → ℕ
rank ral0 = 0
rank ral1 = 1
rank ral2 = 2
rank ral3 = 3

abbrev pub level_word : ResidenceAssuranceLevel → String
level_word ral0 = "RAL0"
level_word ral1 = "RAL1"
level_word ral2 = "RAL2"
level_word ral3 = "RAL3"

unfoldable pub min_level :
    ResidenceAssuranceLevel → ResidenceAssuranceLevel → ResidenceAssuranceLevel
min_level a b = if leb (rank a) (rank b) then a else b

pub data ResidenceEvidenceMethod : Type 0 where
  self_declared register_declared_residence authority_attestation document geospatial_match :
      ResidenceEvidenceMethod

abbrev pub method_index : ResidenceEvidenceMethod → ℕ
method_index self_declared = 0
method_index register_declared_residence = 1
method_index authority_attestation = 2
method_index document = 3
method_index geospatial_match = 4

abbrev pub same_method : ResidenceEvidenceMethod → ResidenceEvidenceMethod → Bool
same_method a b = method_index a == method_index b

pub data AttesterType : Type 0 where
  ward_officer registrar traditional_ruler ward_councillor religious_leader camp_manager :
      AttesterType
  landlord_or_host employer institution other : AttesterType

abbrev pub attester_index : AttesterType → ℕ
attester_index ward_officer = 0
attester_index registrar = 1
attester_index traditional_ruler = 2
attester_index ward_councillor = 3
attester_index religious_leader = 4
attester_index camp_manager = 5
attester_index landlord_or_host = 6
attester_index employer = 7
attester_index institution = 8
attester_index other = 9

abbrev pub same_attester : AttesterType → AttesterType → Bool
same_attester a b = attester_index a == attester_index b

pub data ResidenceMode : Type 0 where
  dwelling reference_address no_fixed_abode : ResidenceMode

abbrev pub mode_word : ResidenceMode → String
mode_word dwelling = "dwelling"
mode_word reference_address = "reference_address"
mode_word no_fixed_abode = "no_fixed_abode"

pub data ResidenceAnchor : Type 0 where
  unit address : ResidenceAnchor

pub record ResidenceAddress : Type 0 where
  pub lines : List String
  pub postal_code : Option String
  pub admin_unit : Option String

pub record ResidenceEvidence : Type 0 where
  pub method : ResidenceEvidenceMethod
  pub admin_unit : Option String
  pub reported_unit : Option String
  pub as_of : Option String
  pub ref : Option String
  pub address : Option ResidenceAddress
  pub since : Option String
  pub attester_type : Option AttesterType

pub record ModeRule : Type 0 where
  pub allowed : Bool
  pub accepted_attester_types : Option (List AttesterType)

pub record NoFixedAbodeRule : Type 0 where
  pub rule : ModeRule
  pub ceiling : Option ResidenceAssuranceLevel

pub record Modes : Type 0 where
  pub reference_address_rule : Option ModeRule
  pub no_fixed_abode_rule : Option NoFixedAbodeRule

pub record ResidencePolicy : Type 0 where
  pub required : Bool
  pub target_level : ResidenceAssuranceLevel
  pub accepted_methods : List ResidenceEvidenceMethod
  pub unit_match_required : Bool
  pub anchor : Option ResidenceAnchor
  pub recency_days : Option ℕ
  pub method_ceiling : ResidenceEvidenceMethod → Option ResidenceAssuranceLevel
  pub accept_foundational_residence : Bool
  pub minimum_duration_days : Option ℕ
  pub intent_to_reside_suffices : Option Bool
  pub attestation : Option (Option (List AttesterType))
  pub modes : Option Modes

pub record DeclaredResidence : Type 0 where
  pub since : Option String
  pub intent_to_reside : Option Bool
  pub mode : Option ResidenceMode

pub record ResidenceOutcome : Type 0 where
  pub level : ResidenceAssuranceLevel
  pub satisfied : Bool
  pub method : ResidenceEvidenceMethod
  pub address : Option ResidenceAddress
  pub unit : Option String
  pub as_of : Option String
  pub since : Option String
  pub mode : Option ResidenceMode
  pub attester_type : Option AttesterType
  pub intent_declared : Option Bool
  pub reason : Option String
